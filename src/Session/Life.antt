-- ===== src/Session/Life.antt =====
-- The life of a call in ai-backend/app/call/session.py: its state, the phase of its transport, the
-- claims of microphone turns, and its end. Each function is one section under the lifecycle lock, or a
-- run between two awaits. Peers, frames, reasons and payloads are numbers.
use ray_me.Base.{
  is_some, ℕ, ◌+◌, Bool, true, false, not, ◌&&◌, ◌||◌, Option, none, some, List, [], ◌∷◌, ◌++◌,
  ◌==◌, if◌then◌else◌,
}
use ray_me.Session.Segments.{SpeechTurns, TurnLedger, cancel_tts_turn}

pub data CallState : Type 0 where
  listening understanding thinking rehearsing speaking interrupted reconnecting ended failed :
      CallState

pub data Phase : Type 0 where
  stable switching rejoining terminal : Phase

-- What the transport reported: "failed", or that it closed.
pub data TransportState : Type 0 where
  broken closed : TransportState

pub data Event : Type 0 where
  ended_event failed_event : ℕ → Event
  other_event : ℕ → Event

pub record OutboxEntry : Type 0 where
  pub sequence : ℕ
  pub event : Option Event

pub record Admission : Type 0 where
  pub lifecycle_epoch : ℕ
  pub allow_transport_reconnect : Bool
  pub is_running : Bool
  pub state_ownership : Option CallState

pub record Settlement : Type 0 where
  pub sequence : ℕ
  pub pending_state : CallState
  pub success_state : CallState

pub record Outcome : Type 0 where
  pub target_state : CallState
  pub reason : ℕ
  pub sequence : ℕ

-- `ended_at` is kept as whether it is set. `rejoining` is the phase "reconnecting". The admission of
-- a finalization and its frames stand for the finalization.
pub record Life : Type 0 where
  pub state : CallState
  pub is_ended : Bool
  pub end_reason : Option ℕ
  pub phase : Phase
  pub epoch : ℕ
  pub peer : ℕ
  pub active_generation : ℕ
  pub retiring_peer : Option ℕ
  pub retiring_generation : Option ℕ
  pub switch_tokens : Option (List ℕ)
  pub terminal_state : Option TransportState
  pub state_before_reconnect : Option CallState
  pub grace_peer : Option ℕ
  pub active_backfills : ℕ
  pub turn_frames : List ℕ
  pub admission_generation : ℕ
  pub admissions : List (ℕ × Admission)
  pub finalization : Option (ℕ × List ℕ)
  pub settlement : Option Settlement
  pub outbox : List OutboxEntry
  pub event_sequence : ℕ
  pub delivered : List OutboxEntry
  pub outcome : Option Outcome
  pub turns : SpeechTurns

abbrev pub is_terminal_phase : Phase → Bool
is_terminal_phase stable = false
is_terminal_phase switching = false
is_terminal_phase rejoining = false
is_terminal_phase terminal = true

abbrev pub is_rejoining : Phase → Bool
is_rejoining stable = false
is_rejoining switching = false
is_rejoining rejoining = true
is_rejoining terminal = false

abbrev pub is_switching : Phase → Bool
is_switching stable = false
is_switching switching = true
is_switching rejoining = false
is_switching terminal = false

abbrev pub state_code : CallState → ℕ
state_code listening = 0
state_code understanding = 1
state_code thinking = 2
state_code rehearsing = 3
state_code speaking = 4
state_code interrupted = 5
state_code reconnecting = 6
state_code ended = 7
state_code failed = 8

abbrev pub same_state : CallState → CallState → Bool
same_state a b = state_code a == state_code b

abbrev pub is_terminal_state : CallState → Bool
is_terminal_state s = same_state s ended || same_state s failed

-- The guard of `_ensure_control_mutable_locked` and of the microphone turns.
abbrev pub is_over : Life → Bool
is_over l = l.is_ended || is_terminal_phase l.phase || is_terminal_state l.state

-- `_commit_event`: the entry takes the next place, with a payload or with none yet.
abbrev pub commit_event : Option Event → Life → Life
commit_event e l = record l {
  event_sequence = l.event_sequence + 1;
  outbox = l.outbox ++ record { sequence = l.event_sequence + 1; event = e } ∷ [];
}

abbrev pub resolve_in : ℕ → Event → List OutboxEntry → List OutboxEntry
resolve_in n e [] = []
resolve_in n e (x ∷ xs) =
    (if x.sequence == n && not (is_some x.event) then record x { event = some e } else x)
    ∷ resolve_in n e xs

-- `_resolve_event_commit`
abbrev pub resolve_event_commit : ℕ → Event → Life → Life
resolve_event_commit n e l = record l { outbox = resolve_in n e l.outbox }

abbrev pub taken_from : OutboxEntry → List OutboxEntry → Life → Life
taken_from x xs l = record l { outbox = xs; delivered = l.delivered ++ x ∷ [] }

-- One round of `_deliver_event_outbox`: the first entry, once it has its payload.
abbrev pub deliver_from : List OutboxEntry → Life → Life
deliver_from [] l = l
deliver_from (x ∷ xs) l = if is_some x.event then taken_from x xs l else l

unfoldable pub deliver_event : Life → Life
deliver_event l = deliver_from l.outbox l

abbrev pub cancel_ledgers : List (ℕ × TurnLedger) → SpeechTurns → SpeechTurns
cancel_ledgers [] s = s
cancel_ledgers ((t, l) ∷ ls) s = cancel_ledgers ls (cancel_tts_turn s t)

-- `_transition_terminal_locked`, without the lists of what is to be cleaned up.
abbrev pub terminal_life : CallState → ℕ → Life → Life
terminal_life target reason l = commit_event none record l {
  epoch = l.epoch + 1;
  phase = terminal;
  switch_tokens = none;
  retiring_peer = none;
  retiring_generation = none;
  terminal_state = none;
  state_before_reconnect = none;
  grace_peer = none;
  is_ended = true;
  end_reason = some reason;
  state = target;
  turns = cancel_ledgers l.turns.ledgers l.turns;
  outcome = some record { target_state = target; reason = reason; sequence = l.event_sequence + 1 };
}

unfoldable pub transition_terminal : CallState → ℕ → Life → Life
transition_terminal target reason l =
    if l.is_ended || is_terminal_phase l.phase then l else terminal_life target reason l

abbrev pub outcome_event : Outcome → Event
outcome_event o =
    if same_state o.target_state failed then failed_event o.reason else ended_event o.reason

-- `_publish_terminal_outcome`
abbrev pub publish_outcome : Option Outcome → Life → Life
publish_outcome none l = l
publish_outcome (some o) l = resolve_event_commit o.sequence (outcome_event o) l

unfoldable pub publish_terminal_outcome : Life → Life
publish_terminal_outcome l = publish_outcome l.outcome l
