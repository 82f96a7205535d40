-- ===== src/Session/Segments.antt =====
-- The ledger of speech segments in ai-backend/app/call/session.py: `_claim_tts_segment_locked`,
-- `_commit_tts_segment`, `_release_tts_segment_attempt`, `_cancel_tts_turn_locked` and
-- `_record_tts_turn_playback`. Each runs under the lifecycle lock. Entries and ledgers are never
-- removed, so `is` on an entry is its presence under its identifier. An `asyncio.Event` that an
-- attempt sets is read off its state. Playback times are whole numbers.
use ray_me.Base.{
  ℕ, ◌+◌, Bool, true, false, not, ◌&&◌, ◌||◌, Option, none, some, List, [], ◌∷◌, ◌++◌, ◌==◌, get,
  put, pop, if◌then◌else◌,
}

-- The f-strings of the identities and the digest of a worker request, whose values are only compared.
pub record Names : Type 0 where
  pub ordinal_name : ℕ → ℕ
  pub legacy_name : ℕ → ℕ → Bool → ℕ
  pub request_name : ℕ → ℕ → ℕ → ℕ → ℕ → ℕ

pub data SegmentState : Type 0 where
  reserved in_flight committed cancelled : SegmentState

pub data TurnState : Type 0 where
  active completed terminated : TurnState

pub record Segment : Type 0 where
  pub segment_id : ℕ
  pub ordinal : ℕ
  pub content_digest : ℕ
  pub final_chunk : Bool
  pub worker_request_id : ℕ
  pub attempt_generation : ℕ
  pub state : SegmentState
  pub response : Option ℕ

-- `terminated` is the source's "cancelled".
pub record TurnLedger : Type 0 where
  pub state : TurnState
  pub next_ordinal : ℕ
  pub segments : List Segment
  pub ordinal_owners : List (ℕ × ℕ)

abbrev pub empty_ledger : TurnLedger
empty_ledger = record { state = active; next_ordinal = 0; segments = []; ordinal_owners = [] }

pub record SpeechTurns : Type 0 where
  pub ledgers : List (ℕ × TurnLedger)
  pub playback : List (ℕ × ℕ)

pub record SegmentRequest : Type 0 where
  pub content_digest : ℕ
  pub final_chunk : Bool
  pub segment_id : Option ℕ
  pub requested_ordinal : Option ℕ

-- What a claim answers: the attempt to make, the response of a committed segment, or that another
-- attempt is awaited; or what is raised.
pub data Claim : Type 0 where
  claimed : Segment → Claim
  cached : ℕ → Claim
  waiting : Claim
  conflict turn_over no_response : Claim

abbrev pub is_committed : Segment → Bool
is_committed e = elim e.state as (λ _. Bool) [ committed ↦ true | _ ↦ false ]

abbrev pub is_over : TurnState → Bool
is_over active = false
is_over completed = true
is_over terminated = true

abbrev pub or_else {ℓ} : {A : Type ℓ} → Option A → A → A
or_else none d = d
or_else (some x) d = x

abbrev pub same_bool : Bool → Bool → Bool
same_bool true b = b
same_bool false b = not b

abbrev pub identity_of : Names → TurnLedger → SegmentRequest → ℕ
identity_of names l r = elim r.segment_id as (λ _. ℕ) [
  | some i ↦ i
  | none ↦ elim r.requested_ordinal as (λ _. ℕ) [
    | some o ↦ names.ordinal_name o
    | none ↦ names.legacy_name l.next_ordinal r.content_digest r.final_chunk
  ]
]

abbrev pub find_segment : ℕ → List Segment → Option Segment
find_segment i [] = none
find_segment i (e ∷ es) = if e.segment_id == i then some e else find_segment i es

abbrev pub modify_segment : ℕ → (Segment → Segment) → List Segment → List Segment
modify_segment i f [] = []
modify_segment i f (e ∷ es) = if e.segment_id == i then f e ∷ es else e ∷ modify_segment i f es

abbrev pub differs : Segment → SegmentRequest → Bool
differs e r =
    not (or_else r.requested_ordinal e.ordinal == e.ordinal)
    || not (e.content_digest == r.content_digest)
    || not (same_bool e.final_chunk r.final_chunk)

-- Another attempt at a segment that was released.
abbrev pub next_attempt : Names → ℕ → Segment → Segment
next_attempt names turn e = record e {
  state = in_flight;
  attempt_generation = e.attempt_generation + 1;
  worker_request_id =
      names.request_name turn e.segment_id e.ordinal e.content_digest (e.attempt_generation + 1);
}

abbrev pub cached_response : Option ℕ → Claim
cached_response none = no_response
cached_response (some x) = cached x

-- A segment that is not committed, in a turn that is not over.
unfoldable pub claim_open : SegmentState → Names → ℕ → TurnLedger → Segment → TurnLedger × Claim
claim_open in_flight names turn l e = (l, waiting)
claim_open reserved names turn l e = (
  record l { segments = modify_segment e.segment_id (next_attempt names turn) l.segments },
  claimed (next_attempt names turn e),
)
claim_open committed names turn l e = (l, cached_response e.response)
claim_open cancelled names turn l e = (l, turn_over)

unfoldable pub claim_existing :
    Names → ℕ → TurnLedger → SegmentRequest → Segment → TurnLedger × Claim
unfolding claim_open
claim_existing names turn l r e =
    if differs e r
    then (l, conflict)
    else if is_committed e
    then (l, cached_response e.response)
    else if is_over l.state
    then (l, turn_over)
    else claim_open e.state names turn l e

abbrev pub new_segment : Names → ℕ → SegmentRequest → ℕ → ℕ → Segment
new_segment names turn r identity ordinal = record {
  segment_id = identity;
  ordinal = ordinal;
  content_digest = r.content_digest;
  final_chunk = r.final_chunk;
  worker_request_id = names.request_name turn identity ordinal r.content_digest 1;
  attempt_generation = 1;
  state = in_flight;
  response = none;
}

abbrev pub is_foreign_owner : Option ℕ → ℕ → Bool
is_foreign_owner none identity = false
is_foreign_owner (some i) identity = not (i == identity)

abbrev pub add_segment : TurnLedger → Segment → TurnLedger
add_segment l e = record l {
  segments = l.segments ++ e ∷ [];
  ordinal_owners = put l.ordinal_owners e.ordinal e.segment_id;
}

unfoldable pub claim_new : Names → ℕ → TurnLedger → SegmentRequest → ℕ → TurnLedger × Claim
claim_new names turn l r identity =
    let ordinal = or_else r.requested_ordinal l.next_ordinal in
    let e = new_segment names turn r identity ordinal in
    if is_over l.state
    then (l, turn_over)
    else if not (ordinal == l.next_ordinal)
    then (l, conflict)
    else if is_foreign_owner (get l.ordinal_owners ordinal) identity
    then (l, conflict)
    else (add_segment l e, claimed e)

unfoldable pub claim_found :
    Option Segment → Names → ℕ → TurnLedger → SegmentRequest → ℕ → TurnLedger × Claim
unfolding claim_existing claim_new
claim_found (some e) names turn l r identity = claim_existing names turn l r e
claim_found none names turn l r identity = claim_new names turn l r identity

-- Within the ledger of the turn.
unfoldable pub claim_in : Names → ℕ → TurnLedger → SegmentRequest → TurnLedger × Claim
unfolding claim_found
claim_in names turn l r =
    claim_found (find_segment (identity_of names l r) l.segments) names turn l r
      (identity_of names l r)

-- `setdefault` leaves an empty ledger also where the claim raises.
abbrev pub ledger_of : SpeechTurns → ℕ → TurnLedger
ledger_of s turn = or_else (get s.ledgers turn) empty_ledger

unfoldable pub claim_tts_segment : Names → SpeechTurns → ℕ → SegmentRequest → SpeechTurns × Claim
unfolding claim_in
claim_tts_segment names s turn r =
    let p = claim_in names turn (ledger_of s turn) r in
    (record s { ledgers = put s.ledgers turn p.0 }, p.1)

abbrev pub commit_segment : ℕ → Segment → Segment
commit_segment response e = record e { state = committed; response = some response }

abbrev pub commit_in : TurnLedger → Segment → ℕ → TurnLedger
commit_in l e response = record l {
  segments = modify_segment e.segment_id (commit_segment response) l.segments;
  next_ordinal = e.ordinal + 1;
  state = if e.final_chunk then completed else l.state;
}

abbrev pub forget_playback : SpeechTurns → ℕ → SpeechTurns
forget_playback s turn = record s { playback = pop s.playback turn }

abbrev pub with_ledger : TurnLedger → Option Segment → Option (TurnLedger × Segment)
with_ledger l none = none
with_ledger l (some e) = some (l, e)

abbrev pub entry_in : Option TurnLedger → ℕ → Option (TurnLedger × Segment)
entry_in none identity = none
entry_in (some l) identity = with_ledger l (find_segment identity l.segments)

-- The entry of an attempt, in its ledger.
abbrev pub entry_of : SpeechTurns → ℕ → ℕ → Option (TurnLedger × Segment)
entry_of s turn identity = entry_in (get s.ledgers turn) identity

unfoldable pub commit_found :
    Option (TurnLedger × Segment) → SpeechTurns → ℕ → ℕ → Option SpeechTurns
commit_found none s turn response = none
commit_found (some (l, e)) s turn response =
    let t = record s { ledgers = put s.ledgers turn (commit_in l e response) } in
    some (if e.final_chunk then forget_playback t turn else t)

-- `none` is the RuntimeError of an attempt whose entry is not there.
unfoldable pub commit_tts_segment : SpeechTurns → ℕ → ℕ → ℕ → Option SpeechTurns
unfolding commit_found
commit_tts_segment s turn identity response =
    commit_found (entry_of s turn identity) s turn response

abbrev pub release_segment : Segment → Segment
release_segment e = record e { state = reserved }

abbrev pub is_active : TurnState → Bool
is_active active = true
is_active completed = false
is_active terminated = false

abbrev pub is_in_flight : Segment → Bool
is_in_flight e = elim e.state as (λ _. Bool) [ in_flight ↦ true | _ ↦ false ]

unfoldable pub release_found : Option (TurnLedger × Segment) → SpeechTurns → ℕ → SpeechTurns
release_found none s turn = s
release_found (some (l, e)) s turn =
    if is_active l.state && is_in_flight e
    then record s {
      ledgers =
          put s.ledgers turn
            record l { segments = modify_segment e.segment_id release_segment l.segments };
    }
    else s

unfoldable pub release_tts_segment_attempt : SpeechTurns → ℕ → ℕ → SpeechTurns
unfolding release_found
release_tts_segment_attempt s turn identity = release_found (entry_of s turn identity) s turn

abbrev pub cancel_segment : Segment → Segment
cancel_segment e = if is_committed e then e else record e { state = cancelled }

abbrev pub cancel_segments : List Segment → List Segment
cancel_segments [] = []
cancel_segments (e ∷ es) = cancel_segment e ∷ cancel_segments es

abbrev pub is_completed : TurnState → Bool
is_completed active = false
is_completed completed = true
is_completed terminated = false

abbrev pub terminate_ledger : TurnLedger → TurnLedger
terminate_ledger l =
    if is_completed l.state
    then l
    else record l { state = terminated; segments = cancel_segments l.segments }

-- A completed turn keeps its playback entry as it is: it has none.
unfoldable pub cancel_tts_turn : SpeechTurns → ℕ → SpeechTurns
cancel_tts_turn s turn =
    let l = ledger_of s turn in
    let t = record s { ledgers = put s.ledgers turn (terminate_ledger l) } in
    if is_completed l.state then t else forget_playback t turn

unfoldable pub record_tts_turn_playback : SpeechTurns → ℕ → ℕ → SpeechTurns
record_tts_turn_playback s turn duration = record s {
  playback = put s.playback turn (or_else (get s.playback turn) 0 + duration);
}
