-- ===== src/Session/Single.antt =====
-- The attempts on one turn of ai-backend/app/call/session.py: their number, and the segment of the one
-- that runs.
use ray_me.Base.{
  ℕ, suc, ◌+◌, ◌≤◌, ◌≡◌, refl, sym, ◌∙◌, subst, true, false, Option, none, some, List, [], ◌∷◌,
  arith, ◌==◌, ==_iff, ==_refl, if◌then◌else◌, Bool-cases, inl, inr, put,
}
use ray_me.Session.Segments.{
  Segment, TurnLedger, Claim, claimed, cached, waiting, conflict, turn_over, no_response,
  find_segment, ledger_of,
}
use ray_me.Session.Claims.{is_open, is_open_at, IsClaim}
use ray_me.Session.Sequence.{open_unique, IsSequential}
use ray_me.Session.Attempts.{
  Speech, holds, drop_attempt, attempts_after, ledger_of-put, holds-drop_attempt,
}
use ray_me.Session.Granted.{is_free, IsGrant}

-- The attempts that run on a turn.
unfoldable pub attempt_count : ℕ → List (ℕ × ℕ) → ℕ
attempt_count t [] = 0
attempt_count t ((u, j) ∷ h) = (if u == t then 1 else 0) + attempt_count t h

pub attempt_count-holds : (t i : ℕ) (h : List (ℕ × ℕ)) → holds h t i ≡ true → 1 ≤ attempt_count t h
unfolding attempt_count
attempt_count-holds t i [] q = ground (arith, q)
attempt_count-holds t i ((u, j) ∷ h) q = ground (arith, q, attempt_count-holds t i h)

attempt_count-none :
    (t : ℕ) (h : List (ℕ × ℕ)) → ((i : ℕ) → holds h t i ≡ false) → attempt_count t h ≡ 0
unfolding attempt_count
attempt_count-none t [] q = refl
attempt_count-none t ((u, j) ∷ h) q =
    ground (arith, q j, ==_refl j, attempt_count-none t h (λ i. ground (arith, q i)))

pub attempt_count-drop :
    (u t i : ℕ) (h : List (ℕ × ℕ)) → attempt_count u (drop_attempt t i h) ≤ attempt_count u h
unfolding attempt_count
attempt_count-drop u t i [] = omega arith
attempt_count-drop u t i ((v, j) ∷ h) = ground (arith, attempt_count-drop u t i h)

attempt_count-dropped :
    (t i : ℕ) (h : List (ℕ × ℕ))
    → holds h t i ≡ true
    → suc (attempt_count t (drop_attempt t i h)) ≤ attempt_count t h
unfolding attempt_count
attempt_count-dropped t i [] q = ground (arith, q)
attempt_count-dropped t i ((v, j) ∷ h) q =
    ground (arith, q, attempt_count-drop t t i h, attempt_count-dropped t i h)

-- At most one attempt runs on the turn, and on a segment that is not free.
abbrev pub IsSingle : List (ℕ × ℕ) → ℕ → TurnLedger → Type 0
IsSingle h t l =
    attempt_count t h ≤ 1
    × ((i : ℕ) → holds h t i ≡ true → is_free (find_segment i l.segments) ≡ false)

unfoldable pub IsExclusive : Speech → Type 0
IsExclusive w = (t : ℕ) → IsSingle w.attempts t (ledger_of w.turns t)

pub IsExclusive-put :
    (w : Speech) (t : ℕ) (l : TurnLedger) (playback attempts : List (ℕ × ℕ))
    → IsSingle attempts t l
    → ((u : ℕ) → t == u ≡ false → attempt_count u attempts ≤ attempt_count u w.attempts)
    → ((u i : ℕ) → t == u ≡ false → holds attempts u i ≡ true → holds w.attempts u i ≡ true)
    → IsExclusive w
    → IsExclusive record {
      turns = record { ledgers = put w.turns.ledgers t l; playback = playback };
      attempts = attempts;
    }
unfolding IsExclusive
IsExclusive-put w t l playback attempts s c m g u = elim (Bool-cases (t == u)) [
  | inl e ↦
      rw (ledger_of-put w.turns t u l, e) (subst (λ v. IsSingle attempts v l) ((==_iff t u).0 e) s)
  | inr e ↦
      rw (ledger_of-put w.turns t u l, e)
        (omega (arith, (g u).0, c u e), λ i h. (g u).1 i (m u i e h))
]

-- No attempt on the turn is left once its only one is dropped.
dropped-IsSingle :
    (t i : ℕ) (h : List (ℕ × ℕ)) (l : TurnLedger)
    → holds h t i ≡ true
    → attempt_count t h ≤ 1
    → IsSingle (drop_attempt t i h) t l
dropped-IsSingle t i h l q c = (
  omega (arith, attempt_count-drop t t i h),
  λ j k.
      ground
        (arith, attempt_count-holds t j (drop_attempt t i h) k, attempt_count-dropped t i h q, c),
)

pub ended-IsExclusive :
    (w : Speech) (t i : ℕ) (l : TurnLedger) (playback : List (ℕ × ℕ))
    → holds w.attempts t i ≡ true
    → IsExclusive w
    → IsExclusive record {
      turns = record { ledgers = put w.turns.ledgers t l; playback = playback };
      attempts = drop_attempt t i w.attempts;
    }
unfolding IsExclusive
ended-IsExclusive w t i l playback h g =
    IsExclusive-put w t l playback (drop_attempt t i w.attempts)
      (dropped-IsSingle t i w.attempts l h (g t).0) (λ u n. attempt_count-drop u t i w.attempts)
      (λ u j n q. ground (arith, sym (holds-drop_attempt t i u j w.attempts) ∙ q)) g

pub same_open :
    (i j : ℕ) (l : TurnLedger)
    → IsSequential l
    → is_open_at i l ≡ true
    → is_open_at j l ≡ true
    → i ≡ j
same_open i j l s p q = go (find_segment i l.segments) (find_segment j l.segments) refl refl p q
  where
    go :
        (o r : Option Segment)
        → find_segment i l.segments ≡ o
        → find_segment j l.segments ≡ r
        → is_open o ≡ true
        → is_open r ≡ true
        → i ≡ j
    go none r f g a b = ground (arith, a)
    go (some x) none f g a b = ground (arith, b)
    go (some x) (some y) f g a b =
        open_unique l.next_ordinal i j l.segments l.ordinal_owners x y s.0 s.1 f g
          (ground (arith, a)) (ground (arith, b))

pub claimed-IsSingle :
    (t : ℕ) (h : List (ℕ × ℕ)) (l m : TurnLedger) (c : Claim)
    → IsGrant l (m, c)
    → IsClaim l (m, c)
    → ((i : ℕ) → holds h t i ≡ true → is_open_at i l ≡ true)
    → IsSingle h t l
    → IsSingle (attempts_after t c h) t m
unfolding attempt_count
claimed-IsSingle t h l m (cached x) q k o s = subst (IsSingle h t) (sym q) s
claimed-IsSingle t h l m waiting q k o s = subst (IsSingle h t) (sym q) s
claimed-IsSingle t h l m conflict q k o s = subst (IsSingle h t) (sym q) s
claimed-IsSingle t h l m turn_over q k o s = subst (IsSingle h t) (sym q) s
claimed-IsSingle t h l m no_response q k o s = subst (IsSingle h t) (sym q) s
claimed-IsSingle t h l m (claimed e) q k o s = (
  ground (arith, attempt_count-none t h nobody),
  λ i r.
      subst (λ j. is_free (find_segment j m.segments) ≡ false)
        ((==_iff e.segment_id i).0 (ground (arith, r, nobody i))) q.1,
)
  where
    nobody : (i : ℕ) → holds h t i ≡ false
    nobody i = elim (Bool-cases (holds h t i)) [
      | inr n ↦ n
      | inl y ↦
          let same = same_open i e.segment_id m k.0 (k.1 i (o i y)) k.2 in
          let taken = subst (λ j. is_free (find_segment j l.segments) ≡ false) same (s.1 i y) in
          ground (arith, q.0, taken)
    ]
