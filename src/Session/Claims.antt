-- ===== src/Session/Claims.antt =====
-- What the operations of ai-backend/app/call/session.py on the segment ledger of one turn keep.
use ray_me.Base.{
  if_either, ℕ, ◌≡◌, refl, sym, subst, inl, inr, Bool, true, false, not, Option, none, some, List,
  [], ◌∷◌, ◌++◌, arith, ◌==◌, ==_iff, Bool-cases, get, map_some, if◌then◌else◌,
}
use ray_me.Session.Segments.{
  or_else, modify_segment, Segment, Names, SegmentState, reserved, in_flight, committed, cancelled,
  TurnLedger, SegmentRequest, Claim, claimed, cached, waiting, conflict, turn_over, no_response,
  is_committed, is_over, identity_of, find_segment, differs, next_attempt, cached_response,
  claim_open, claim_existing, new_segment, is_foreign_owner, add_segment, claim_new, claim_found,
  claim_in, cancel_segment, cancel_segments,
}
use ray_me.Session.Sequence.{
  IsSequential, full_to-runs_to, runs_to-append, are_owned-append, runs_to-modify, are_owned-modify,
}

abbrev pub is_open : Option Segment → Bool
is_open none = false
is_open (some e) = not (is_committed e)

abbrev pub is_open_at : ℕ → TurnLedger → Bool
is_open_at i l = is_open (find_segment i l.segments)

pub find_segment-modify :
    (i j : ℕ) (f : Segment → Segment) (es : List Segment)
    → ((e : Segment) → (f e).segment_id ≡ e.segment_id)
    → find_segment j (modify_segment i f es)
      ≡ (if i == j then map_some f (find_segment j es) else find_segment j es)
find_segment-modify i j f [] k = ground arith
find_segment-modify i j f (e ∷ es) k = ground (arith, k e, find_segment-modify i j f es k)

pub find_segment-cancel :
    (j : ℕ) (es : List Segment)
    → find_segment j (cancel_segments es) ≡ map_some cancel_segment (find_segment j es)
find_segment-cancel j [] = refl
find_segment-cancel j (e ∷ es) = ground (arith, find_segment-cancel j es)

pub find_segment-append :
    (j : ℕ) (es : List Segment) (e : Segment)
    → find_segment j (es ++ e ∷ []) ≡ (elim (find_segment j es) as (λ _. Option Segment) [
      | none ↦ (if e.segment_id == j then some e else none)
      | some x ↦ some x
    ])
find_segment-append j [] e = refl
find_segment-append j (x ∷ es) e = ground (arith, find_segment-append j es e)

pub find_segment-id :
    (i : ℕ) (es : List Segment) (x : Segment) → find_segment i es ≡ some x → x.segment_id ≡ i
find_segment-id i [] x f = ground (arith, f)
find_segment-id i (e ∷ es) x f = elim (Bool-cases (e.segment_id == i)) [
  | inl t ↦
      let q : e ≡ x = ground (arith, f, t) in
      (==_iff x.segment_id i).0 (subst (λ (y : Segment). (y.segment_id == i) ≡ true) q t)
  | inr t ↦
      find_segment-id i es x (subst (λ b. (if b then some e else find_segment i es) ≡ some x) t f)
]

-- The segments that are open stay so, and the claimed one is open.
abbrev pub KeepsOpen : TurnLedger → TurnLedger → Type 0
KeepsOpen l m = (j : ℕ) → is_open_at j l ≡ true → is_open_at j m ≡ true

abbrev pub OpensClaimed : TurnLedger → Claim → Type 0
OpensClaimed l (claimed e) = is_open_at e.segment_id l ≡ true
OpensClaimed l (cached x) = Unit {0}
OpensClaimed l waiting = Unit {0}
OpensClaimed l conflict = Unit {0}
OpensClaimed l turn_over = Unit {0}
OpensClaimed l no_response = Unit {0}

abbrev pub IsClaim : TurnLedger → TurnLedger × Claim → Type 0
IsClaim l p = IsSequential p.0 × KeepsOpen l p.0 × OpensClaimed p.0 p.1

unchanged : (l : TurnLedger) (c : Claim) → IsSequential l → OpensClaimed l c → IsClaim l (l, c)
unchanged l c s o = (s, λ j h. h, o)

cached_response-OpensClaimed : (l : TurnLedger) (o : Option ℕ) → OpensClaimed l (cached_response o)
cached_response-OpensClaimed l none = tt
cached_response-OpensClaimed l (some x) = tt

KeepsOpen-attempt :
    (names : Names) (turn i : ℕ) (l : TurnLedger)
    → KeepsOpen l record l { segments = modify_segment i (next_attempt names turn) l.segments }
KeepsOpen-attempt names turn i l j h =
    rw (find_segment-modify i j (next_attempt names turn) l.segments (λ e. refl))
      (ground (arith, h))

claim_open-IsClaim :
    (s : SegmentState) (names : Names) (turn i : ℕ) (l : TurnLedger) (e : Segment)
    → find_segment i l.segments ≡ some e
    → is_committed e ≡ false
    → IsSequential l
    → IsClaim l (claim_open s names turn l e)
unfolding claim_open
claim_open-IsClaim in_flight names turn i l e f c q = unchanged l waiting q tt
claim_open-IsClaim committed names turn i l e f c q =
    unchanged l (cached_response e.response) q (cached_response-OpensClaimed l e.response)
claim_open-IsClaim cancelled names turn i l e f c q = unchanged l turn_over q tt
claim_open-IsClaim reserved names turn i l e f c q =
    let same = find_segment-id i l.segments e f in
    let g = subst (λ k. find_segment k l.segments ≡ some e) (sym same) f in
    let open_now : is_open_at e.segment_id l ≡ true = rw g (ground (arith, c)) in
    (
      (
        runs_to-modify 0 l.next_ordinal e.segment_id (next_attempt names turn) l.segments e q.0 g c
            (refl, refl, refl),
        are_owned-modify l.ordinal_owners e.segment_id (next_attempt names turn) l.segments
            (λ x. refl) (λ x. refl) q.1,
      ),
      KeepsOpen-attempt names turn e.segment_id l,
      KeepsOpen-attempt names turn e.segment_id l e.segment_id open_now,
    )

claim_existing-IsClaim :
    (names : Names) (turn i : ℕ) (l : TurnLedger) (r : SegmentRequest) (e : Segment)
    → find_segment i l.segments ≡ some e
    → IsSequential l
    → IsClaim l (claim_existing names turn l r e)
unfolding claim_existing
claim_existing-IsClaim names turn i l r e f q =
    if_either (IsClaim l) (differs e r) (λ t. unchanged l conflict q tt)
      (λ t.
        if_either (IsClaim l) (is_committed e)
          (λ u.
            unchanged l (cached_response e.response) q (cached_response-OpensClaimed l e.response))
          (λ u.
            if_either (IsClaim l) (is_over l.state) (λ v. unchanged l turn_over q tt)
              (λ v. claim_open-IsClaim e.state names turn i l e f u q)))

added-IsClaim :
    (l : TurnLedger) (e : Segment)
    → find_segment e.segment_id l.segments ≡ none
    → is_committed e ≡ false
    → (e.ordinal == l.next_ordinal) ≡ true
    → is_foreign_owner (get l.ordinal_owners e.ordinal) e.segment_id ≡ false
    → IsSequential l
    → IsClaim l (add_segment l e, claimed e)
added-IsClaim l e f c o g q =
    let owner =
      subst (λ n. is_foreign_owner (get l.ordinal_owners n) e.segment_id ≡ false)
        ((==_iff e.ordinal l.next_ordinal).0 o) g in
    let full =
      full_to-runs_to 0 l.next_ordinal e.segment_id l.segments l.ordinal_owners q.0 q.1 f owner in
    (
      (
        runs_to-append 0 l.next_ordinal l.segments e full c o,
        are_owned-append 0 l.next_ordinal l.segments l.ordinal_owners e full q.1 o,
      ),
      (λ j h. rw (find_segment-append j l.segments e) (ground (arith, h))),
      rw (find_segment-append e.segment_id l.segments e, f) (ground (arith, c)),
    )

claim_new-IsClaim :
    (names : Names) (turn i : ℕ) (l : TurnLedger) (r : SegmentRequest)
    → find_segment i l.segments ≡ none
    → IsSequential l
    → IsClaim l (claim_new names turn l r i)
unfolding claim_new
claim_new-IsClaim names turn i l r f q =
    let ordinal = or_else r.requested_ordinal l.next_ordinal in
    if_either (IsClaim l) (is_over l.state) (λ t. unchanged l turn_over q tt)
      (λ t.
        if_either (IsClaim l) (not (ordinal == l.next_ordinal)) (λ u. unchanged l conflict q tt)
          (λ u.
            if_either (IsClaim l) (is_foreign_owner (get l.ordinal_owners ordinal) i)
              (λ v. unchanged l conflict q tt)
              (λ v.
                added-IsClaim l (new_segment names turn r i ordinal) f refl (ground (arith, u)) v
                  q)))

claim_found-IsClaim :
    (o : Option Segment) (names : Names) (turn i : ℕ) (l : TurnLedger) (r : SegmentRequest)
    → find_segment i l.segments ≡ o
    → IsSequential l
    → IsClaim l (claim_found o names turn l r i)
unfolding claim_found
claim_found-IsClaim none names turn i l r f q = claim_new-IsClaim names turn i l r f q
claim_found-IsClaim (some e) names turn i l r f q = claim_existing-IsClaim names turn i l r e f q

pub claim_in-IsClaim :
    (names : Names) (turn : ℕ) (l : TurnLedger) (r : SegmentRequest)
    → IsSequential l
    → IsClaim l (claim_in names turn l r)
unfolding claim_in
claim_in-IsClaim names turn l r q =
    claim_found-IsClaim (find_segment (identity_of names l r) l.segments) names turn
      (identity_of names l r) l r refl q
