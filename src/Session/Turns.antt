-- ===== src/Session/Turns.antt =====
-- Microphone turns of a call in ai-backend/app/call/session.py: how one is claimed, when its admission
-- is stale, what its event commits, and how it is given back.
use ray_me.Base.{
  ℕ, ◌+◌, Bool, true, false, not, ◌&&◌, ◌||◌, Option, none, some, List, [], ◌==◌, if◌then◌else◌,
  get, put, pop, is_empty, contains,
}
use ray_me.Session.Life.{
  listening, understanding, reconnecting, thinking, Life, CallState, Phase, stable, switching,
  rejoining, terminal, Event, Admission, Settlement, is_terminal_phase, is_rejoining, is_switching,
  same_state, is_over, commit_event,
}

-- What a claim answers: the turn that is under way already, a new one, that there are no frames, or the
-- response of a call that is over.
pub data SttClaim : Type 0 where
  joined admitted : ℕ → SttClaim
  no_frames : SttClaim
  over_answer : CallState → SttClaim

pub data StaleAnswer : Type 0 where
  superseded terminal_answer : CallState → StaleAnswer

abbrev pub new_admission : Life → Bool → Admission
new_admission l allow = record {
  lifecycle_epoch = l.epoch;
  allow_transport_reconnect = allow;
  is_running = true;
  state_ownership = some understanding;
}

abbrev pub admit_turn : Life → Bool → Life
admit_turn l allow = record l {
  admission_generation = l.admission_generation + 1;
  finalization = some (l.admission_generation + 1, l.turn_frames);
  turn_frames = [];
  state = understanding;
  admissions = put l.admissions (l.admission_generation + 1) (new_admission l allow);
}

unfoldable pub claim_inactive : Option (ℕ × List ℕ) → Life → Bool → Life × SttClaim
claim_inactive (some (token, frames)) l allow = (l, joined token)
claim_inactive none l allow =
    if is_over l
    then (l, over_answer l.state)
    else if is_empty l.turn_frames
    then (l, no_frames)
    else (admit_turn l allow, admitted (l.admission_generation + 1))

unfoldable pub claim_stt_finalization : Life → Bool → Life × SttClaim
unfolding claim_inactive
claim_stt_finalization l allow = claim_inactive l.finalization l allow

abbrev pub is_stable : Phase → Bool
is_stable stable = true
is_stable switching = false
is_stable rejoining = false
is_stable terminal = false

abbrev pub owns_switch_token : Option (List ℕ) → ℕ → Bool
owns_switch_token none token = false
owns_switch_token (some ts) token = contains ts token

abbrev pub is_superseded : Life → ℕ → Admission → Bool
is_superseded l token a =
    not (a.lifecycle_epoch == l.epoch)
    || (not (is_stable l.phase || is_rejoining l.phase)
        && not (is_switching l.phase && owns_switch_token l.switch_tokens token && a.is_running))

-- An admission is the object the session holds under its token, or was released.
unfoldable pub stale_of : Option Admission → Life → ℕ → Option StaleAnswer
stale_of none l token = some (superseded l.state)
stale_of (some a) l token =
    if is_over l
    then some (terminal_answer l.state)
    else if is_superseded l token a
    then some (superseded l.state)
    else none

unfoldable pub stale_stt_turn_response : Life → ℕ → Option StaleAnswer
unfolding stale_of
stale_stt_turn_response l token = stale_of (get l.admissions token) l token

-- Where a turn that is done leaves the call.
abbrev pub resting_state : Life → CallState
resting_state l = if is_rejoining l.phase then reconnecting else listening

abbrev pub owns_state : Option CallState → CallState → Bool
owns_state none s = false
owns_state (some o) s = same_state s o

-- The last turn gives the state back that it took.
abbrev pub gives_back : Life → Admission → List (ℕ × Admission) → Bool
gives_back l a rest =
    owns_state a.state_ownership l.state
    && not l.is_ended
    && not (is_terminal_phase l.phase)
    && is_empty rest

abbrev pub release_in : Life → Admission → List (ℕ × Admission) → Life
release_in l a rest =
    if gives_back l a rest
    then record l { admissions = rest; state = resting_state l }
    else record l { admissions = rest }

unfoldable pub release_held : Option Admission → Life → ℕ → Life
release_held none l token = l
release_held (some a) l token = release_in l a (pop l.admissions token)

unfoldable pub release_stt_admission : Life → ℕ → Life
unfolding release_held
release_stt_admission l token = release_held (get l.admissions token) l token

abbrev pub is_finalized_by : Option (ℕ × List ℕ) → ℕ → Bool
is_finalized_by none token = false
is_finalized_by (some (t, frames)) token = t == token

abbrev pub forget_finalization : Life → ℕ → Life
forget_finalization l token =
    if is_finalized_by l.finalization token then record l { finalization = none } else l

-- The end of `_run_stt_finalization`, on success and on failure.
unfoldable pub finish_stt_finalization : Life → ℕ → Life
unfolding release_stt_admission
finish_stt_finalization l token = forget_finalization (release_stt_admission l token) token

abbrev pub disown_in : Option Admission → List (ℕ × Admission) → ℕ → List (ℕ × Admission)
disown_in none xs token = xs
disown_in (some a) xs token = put xs token record a { state_ownership = none }

abbrev pub pending_state : CallState → CallState → CallState
pending_state next s = if same_state next thinking then thinking else s

-- The event of a turn that is not stale: its settlement is named by its place.
abbrev pub settle_turn : Life → ℕ → Event → CallState → Life
settle_turn l token e next =
    let c = commit_event (some e) l in
    record c {
      state = pending_state next l.state;
      admissions = disown_in (get l.admissions token) l.admissions token;
      settlement = some record {
        sequence = l.event_sequence + 1;
        pending_state = pending_state next l.state;
        success_state = next;
      };
    }

unfoldable pub commit_unless :
    Option StaleAnswer → Life → ℕ → Event → CallState → Life × Option StaleAnswer
commit_unless (some a) l token e next = (l, some a)
commit_unless none l token e next = (settle_turn l token e next, none)

-- Up to where the settlement is awaited.
unfoldable pub commit_stt_event : Life → ℕ → Event → CallState → Life × Option StaleAnswer
unfolding commit_unless stale_stt_turn_response
commit_stt_event l token e next = commit_unless (stale_stt_turn_response l token) l token e next

abbrev pub settled_state : Life → Settlement → Bool → CallState
settled_state l s delivered =
    if not l.is_ended && not (is_terminal_phase l.phase) && same_state l.state s.pending_state
    then (if delivered then s.success_state else resting_state l)
    else l.state

unfoldable pub settle_of : Option Settlement → Life → ℕ → Bool → Life
settle_of none l sequence delivered = l
settle_of (some s) l sequence delivered =
    if s.sequence == sequence
    then record l { state = settled_state l s delivered; settlement = none }
    else l

-- The end of `_settle_stt_event`, with whether the event was delivered.
unfoldable pub settle_stt_event : Life → ℕ → Bool → Life
unfolding settle_of
settle_stt_event l sequence delivered = settle_of l.settlement l sequence delivered
