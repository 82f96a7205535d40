-- ===== src/Session/Sequence.antt =====
-- The segments of a turn in ai-backend/app/call/session.py are numbered without gaps, and at most the
-- last one is not committed.
use ray_me.Base.{
  ℕ, ◌+◌, ◌≤◌, ◌≡◌, Bool, true, false, ◌&&◌, none, some, List, [], ◌∷◌, ◌++◌, arith, ◌==◌, ◌==?◌,
  get, put, get-put, if◌then◌else◌, is_empty, subst, inl, inr, Bool-cases, Option,
}
use ray_me.Session.Segments.{
  modify_segment, Segment, TurnLedger, is_committed, find_segment, is_foreign_owner, commit_segment,
  cancel_segments,
}

-- Consecutive ordinals from `k`; the next ordinal follows the last committed one.
abbrev pub runs_to : ℕ → ℕ → List Segment → Bool
runs_to k next [] = k == next
runs_to k next (e ∷ es) =
    let rest = runs_to (k + 1) next es in
    e.ordinal == k && (if is_committed e then rest else is_empty es && k == next)

-- All of them are committed.
abbrev pub full_to : ℕ → ℕ → List Segment → Bool
full_to k next [] = k == next
full_to k next (e ∷ es) = e.ordinal == k && is_committed e && full_to (k + 1) next es

-- Each ordinal is owned by its segment.
abbrev pub are_owned : List (ℕ × ℕ) → List Segment → Bool
are_owned owners [] = true
are_owned owners (e ∷ es) = (get owners e.ordinal ==? some e.segment_id) && are_owned owners es

abbrev pub IsSequential : TurnLedger → Type 0
IsSequential l =
    runs_to 0 l.next_ordinal l.segments ≡ true × are_owned l.ordinal_owners l.segments ≡ true

-- An identity that may own the next ordinal and is not there finds all segments committed.
pub full_to-runs_to :
    (k next i : ℕ) (es : List Segment) (owners : List (ℕ × ℕ))
    → runs_to k next es ≡ true
    → are_owned owners es ≡ true
    → find_segment i es ≡ none
    → is_foreign_owner (get owners next) i ≡ false
    → full_to k next es ≡ true
full_to-runs_to k next i [] owners h o f g = h
full_to-runs_to k next i (e ∷ es) owners h o f g =
    ground (arith, h, o, f, g, full_to-runs_to (k + 1) next i es owners)

pub runs_to-append :
    (k next : ℕ) (es : List Segment) (e : Segment)
    → full_to k next es ≡ true
    → is_committed e ≡ false
    → (e.ordinal == next) ≡ true
    → runs_to k next (es ++ e ∷ []) ≡ true
runs_to-append k next [] e h c o = ground (arith, h, c, o)
runs_to-append k next (x ∷ es) e h c o = ground (arith, h, c, o, runs_to-append (k + 1) next es e)

le-full_to : (k next : ℕ) (es : List Segment) → full_to k next es ≡ true → k ≤ next
le-full_to k next [] h = ground (arith, h)
le-full_to k next (x ∷ es) h = ground (arith, h, le-full_to (k + 1) next es)

pub are_owned-append :
    (k next : ℕ) (es : List Segment) (owners : List (ℕ × ℕ)) (e : Segment)
    → full_to k next es ≡ true
    → are_owned owners es ≡ true
    → (e.ordinal == next) ≡ true
    → are_owned (put owners e.ordinal e.segment_id) (es ++ e ∷ []) ≡ true
are_owned-append k next [] owners e h o q =
    rw (get-put owners e.ordinal e.ordinal e.segment_id) (ground arith)
are_owned-append k next (x ∷ es) owners e h o q =
    rw (get-put owners e.ordinal x.ordinal e.segment_id) (
      ground
        (arith, h, o, q, le-full_to (k + 1) next es, are_owned-append (k + 1) next es owners e))

-- An open segment stays open under `f`, with its ordinal and its identity.
abbrev pub StaysOpen : (Segment → Segment) → Segment → Type 0
StaysOpen f x =
    is_committed (f x) ≡ false × (f x).ordinal ≡ x.ordinal × (f x).segment_id ≡ x.segment_id

pub runs_to-modify :
    (k next i : ℕ) (f : Segment → Segment) (es : List Segment) (x : Segment)
    → runs_to k next es ≡ true
    → find_segment i es ≡ some x
    → is_committed x ≡ false
    → StaysOpen f x
    → runs_to k next (modify_segment i f es) ≡ true
runs_to-modify k next i f [] x h g c s = ground (arith, g)
runs_to-modify k next i f (e ∷ es) x h g c s = elim (Bool-cases (e.segment_id == i)) [
  | inl t ↦
      let q : e ≡ x = ground (arith, g, t) in
      rw t (rw q (ground (arith, s, c, subst (λ y. runs_to k next (y ∷ es) ≡ true) q h)))
  | inr t ↦ rw t (ground (arith, t, h, g, c, runs_to-modify (k + 1) next i f es x))
]

pub are_owned-modify :
    (owners : List (ℕ × ℕ)) (i : ℕ) (f : Segment → Segment) (es : List Segment)
    → ((e : Segment) → (f e).ordinal ≡ e.ordinal)
    → ((e : Segment) → (f e).segment_id ≡ e.segment_id)
    → are_owned owners es ≡ true
    → are_owned owners (modify_segment i f es) ≡ true
are_owned-modify owners i f [] a b h = h
are_owned-modify owners i f (e ∷ es) a b h =
    ground (arith, a e, b e, h, are_owned-modify owners i f es a b)

-- The open segment has the next ordinal, and its commit moves that on.
pub runs_to-commit :
    (k next i response : ℕ) (es : List Segment) (x : Segment)
    → runs_to k next es ≡ true
    → find_segment i es ≡ some x
    → is_committed x ≡ false
    → runs_to k (x.ordinal + 1) (modify_segment i (commit_segment response) es) ≡ true
runs_to-commit k next i response [] x h g c = ground (arith, g)
runs_to-commit k next i response (e ∷ es) x h g c = elim (Bool-cases (e.segment_id == i)) [
  | inl t ↦
      let q : e ≡ x = ground (arith, g, t) in
      rw t (rw q (commit_last x es (subst (λ y. runs_to k next (y ∷ es) ≡ true) q h) c))
  | inr t ↦ rw t (ground (arith, t, h, g, c, runs_to-commit (k + 1) next i response es x))
]
  where
    commit_last :
        (y : Segment) (ys : List Segment)
        → runs_to k next (y ∷ ys) ≡ true
        → is_committed y ≡ false
        → runs_to k (y.ordinal + 1) (commit_segment response y ∷ ys) ≡ true
    commit_last y [] r d = ground (arith, r, d)
    commit_last y (z ∷ ys) r d = ground (arith, r, d)

pub runs_to-cancel :
    (k next : ℕ) (es : List Segment)
    → runs_to k next es ≡ true
    → runs_to k next (cancel_segments es) ≡ true
runs_to-cancel k next [] h = h
runs_to-cancel k next (e ∷ []) h = ground (arith, h)
runs_to-cancel k next (e ∷ x ∷ es) h = ground (arith, h, runs_to-cancel (k + 1) next (x ∷ es))

pub are_owned-cancel :
    (owners : List (ℕ × ℕ)) (es : List Segment)
    → are_owned owners es ≡ true
    → are_owned owners (cancel_segments es) ≡ true
are_owned-cancel owners [] h = h
are_owned-cancel owners (e ∷ es) h = ground (arith, h, are_owned-cancel owners es)

-- The open segment has the next ordinal, whose owner it is.
pub open_last :
    (k next i : ℕ) (es : List Segment) (x : Segment)
    → runs_to k next es ≡ true
    → find_segment i es ≡ some x
    → is_committed x ≡ false
    → x.ordinal ≡ next
open_last k next i [] x h f c = ground (arith, f)
open_last k next i (e ∷ es) x h f c = elim (Bool-cases (e.segment_id == i)) [
  | inl t ↦
      let q : e ≡ x = ground (arith, f, t) in
      open_head x es (subst (λ y. runs_to k next (y ∷ es) ≡ true) q h) c
  | inr t ↦
      open_last (k + 1) next i es x
        (open_tail e es h (subst (λ b. (if b then some e else find_segment i es) ≡ some x) t f))
        (subst (λ b. (if b then some e else find_segment i es) ≡ some x) t f) c
]
  where
    open_head :
        (y : Segment) (ys : List Segment)
        → runs_to k next (y ∷ ys) ≡ true
        → is_committed y ≡ false
        → y.ordinal ≡ next
    open_head y ys r d = ground (arith, r, d)

    open_tail :
        (y : Segment) (ys : List Segment)
        → runs_to k next (y ∷ ys) ≡ true
        → find_segment i ys ≡ some x
        → runs_to (k + 1) next ys ≡ true
    open_tail y [] r g = ground (arith, g)
    open_tail y (z ∷ ys) r g = ground (arith, r)

pub find_segment-owner :
    (owners : List (ℕ × ℕ)) (i : ℕ) (es : List Segment) (x : Segment)
    → are_owned owners es ≡ true
    → find_segment i es ≡ some x
    → (get owners x.ordinal ==? some i) ≡ true
find_segment-owner owners i [] x o f = ground (arith, f)
find_segment-owner owners i (e ∷ es) x o f = elim (Bool-cases (e.segment_id == i)) [
  | inl t ↦
      let q : e ≡ x = ground (arith, f, t) in
      owner_head x (subst (λ y. are_owned owners (y ∷ es) ≡ true) q o)
        (subst (λ (y : Segment). (y.segment_id == i) ≡ true) q t)
  | inr t ↦
      find_segment-owner owners i es x (owner_tail e o)
        (subst (λ b. (if b then some e else find_segment i es) ≡ some x) t f)
]
  where
    owner_head :
        (y : Segment)
        → are_owned owners (y ∷ es) ≡ true
        → (y.segment_id == i) ≡ true
        → (get owners y.ordinal ==? some i) ≡ true
    owner_head y r d = ground (arith, r, d)

    owner_tail : (y : Segment) → are_owned owners (y ∷ es) ≡ true → are_owned owners es ≡ true
    owner_tail y r = ground (arith, r)

-- Two open segments are the same one.
pub open_unique :
    (next i j : ℕ) (es : List Segment) (owners : List (ℕ × ℕ)) (x y : Segment)
    → runs_to 0 next es ≡ true
    → are_owned owners es ≡ true
    → find_segment i es ≡ some x
    → find_segment j es ≡ some y
    → is_committed x ≡ false
    → is_committed y ≡ false
    → i ≡ j
open_unique next i j es owners x y h o f g c d =
    let p = open_last 0 next i es x h f c in
    let q = open_last 0 next j es y h g d in
    let u = find_segment-owner owners i es x o f in
    let v = find_segment-owner owners j es y o g in
    same_owner (get owners next) i j (subst (λ n. (get owners n ==? some i) ≡ true) p u)
      (subst (λ n. (get owners n ==? some j) ≡ true) q v)
  where
    same_owner : (r : Option ℕ) (a b : ℕ) → (r ==? some a) ≡ true → (r ==? some b) ≡ true → a ≡ b
    same_owner r a b s t = ground (arith, s, t)
