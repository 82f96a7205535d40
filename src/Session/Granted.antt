-- ===== src/Session/Granted.antt =====
-- What a claim of a speech segment grants in ai-backend/app/call/session.py.
use ray_me.Base.{
  ℕ, if_either, ◌≡◌, refl, sym, ap, ◌∙◌, subst, true, false, not, Bool, Option, none, some, ◌==◌,
  ==_refl, if◌then◌else◌, map_some, get,
}
use ray_me.Session.Segments.{
  Segment, Names, SegmentState, reserved, in_flight, committed, cancelled, TurnLedger,
  SegmentRequest, Claim, claimed, cached, waiting, conflict, turn_over, no_response, is_committed,
  is_over, identity_of, find_segment, differs, next_attempt, cached_response, claim_open,
  claim_existing, new_segment, is_foreign_owner, claim_new, claim_found, claim_in, or_else,
}
use ray_me.Session.Claims.{find_segment-modify, find_segment-append, find_segment-id}

abbrev is_reserved : SegmentState → Bool
is_reserved reserved = true
is_reserved in_flight = false
is_reserved committed = false
is_reserved cancelled = false

-- A segment that nobody speaks: a new one or a released one.
abbrev pub is_free : Option Segment → Bool
is_free none = true
is_free (some e) = is_reserved e.state

-- A claim that succeeds takes a free segment and puts it in flight; any other leaves the ledger.
abbrev pub IsGrant : TurnLedger → TurnLedger × Claim → Type 0
IsGrant l (m, claimed e) =
    is_free (find_segment e.segment_id l.segments) ≡ true
    × is_free (find_segment e.segment_id m.segments) ≡ false
IsGrant l (m, cached x) = m ≡ l
IsGrant l (m, waiting) = m ≡ l
IsGrant l (m, conflict) = m ≡ l
IsGrant l (m, turn_over) = m ≡ l
IsGrant l (m, no_response) = m ≡ l

cached_response-IsGrant : (l : TurnLedger) (o : Option ℕ) → IsGrant l (l, cached_response o)
cached_response-IsGrant l none = refl
cached_response-IsGrant l (some x) = refl

claim_open-IsGrant :
    (s : SegmentState) (names : Names) (turn i : ℕ) (l : TurnLedger) (e : Segment)
    → e.state ≡ s
    → find_segment i l.segments ≡ some e
    → IsGrant l (claim_open s names turn l e)
unfolding claim_open
claim_open-IsGrant in_flight names turn i l e q f = refl
claim_open-IsGrant committed names turn i l e q f = cached_response-IsGrant l e.response
claim_open-IsGrant cancelled names turn i l e q f = refl
claim_open-IsGrant reserved names turn i l e q f =
    let g =
      subst (λ k. find_segment k l.segments ≡ some e) (sym (find_segment-id i l.segments e f)) f in
    (
      ap is_free g ∙ ap is_reserved q,
      ap is_free (
          find_segment-modify e.segment_id e.segment_id (next_attempt names turn) l.segments
            (λ y. refl)
          ∙ ap
              (λ (b : Bool).
                if b
                then map_some (next_attempt names turn) (find_segment e.segment_id l.segments)
                else find_segment e.segment_id l.segments)
              (==_refl e.segment_id)
          ∙ ap (map_some (next_attempt names turn)) g),
    )

claim_existing-IsGrant :
    (names : Names) (turn i : ℕ) (l : TurnLedger) (r : SegmentRequest) (e : Segment)
    → find_segment i l.segments ≡ some e
    → IsGrant l (claim_existing names turn l r e)
unfolding claim_existing
claim_existing-IsGrant names turn i l r e f =
    if_either (IsGrant l) (differs e r) (λ t. refl)
      (λ t.
        if_either (IsGrant l) (is_committed e) (λ u. cached_response-IsGrant l e.response)
          (λ u.
            if_either (IsGrant l) (is_over l.state) (λ v. refl)
              (λ v. claim_open-IsGrant e.state names turn i l e refl f)))

claim_new-IsGrant :
    (names : Names) (turn i : ℕ) (l : TurnLedger) (r : SegmentRequest)
    → find_segment i l.segments ≡ none
    → IsGrant l (claim_new names turn l r i)
unfolding claim_new
claim_new-IsGrant names turn i l r f =
    let ordinal = or_else r.requested_ordinal l.next_ordinal in
    let e = new_segment names turn r i ordinal in
    if_either (IsGrant l) (is_over l.state) (λ t. refl)
      (λ t.
        if_either (IsGrant l) (not (ordinal == l.next_ordinal)) (λ u. refl)
          (λ u.
            if_either (IsGrant l) (is_foreign_owner (get l.ordinal_owners ordinal) i) (λ v. refl)
              (λ v. (ap is_free f, rw (find_segment-append i l.segments e, f, ==_refl i) refl))))

claim_found-IsGrant :
    (o : Option Segment) (names : Names) (turn i : ℕ) (l : TurnLedger) (r : SegmentRequest)
    → find_segment i l.segments ≡ o
    → IsGrant l (claim_found o names turn l r i)
unfolding claim_found
claim_found-IsGrant none names turn i l r f = claim_new-IsGrant names turn i l r f
claim_found-IsGrant (some e) names turn i l r f = claim_existing-IsGrant names turn i l r e f

pub claim_in-IsGrant :
    (names : Names) (turn : ℕ) (l : TurnLedger) (r : SegmentRequest)
    → IsGrant l (claim_in names turn l r)
unfolding claim_in
claim_in-IsGrant names turn l r =
    claim_found-IsGrant (find_segment (identity_of names l r) l.segments) names turn
      (identity_of names l r) l r refl
