-- ===== src/Calls/Record.antt =====
-- The writers of a turn in web-ui/server/app/domain/call_service.py: the user's speech, the spoken
-- answer after its playout, and the end of a turn without one.
use ray_me.Base.{
  ℕ, ◌+◌, Bool, true, false, not, ◌&&◌, ◌||◌, Option, none, some, List, [], ◌∷◌, String, ◌==?◌,
  if◌then◌else◌, is_some, get, put, add, discard, contains,
}
use ray_me.Calls.Types.{
  TurnState, running, completed, is_active, is_reserved, is_running, CallTurn, Message, user_speech,
  ai_speech, user, assistant, Db, ActiveCall, CallError, integrity, commit_failed, Result, ok, err,
  World,
}
use ray_me.Calls.Rows.{find_turn, modify_turn, close, Draft, stage_message}
use ray_me.Calls.Reserve.{lease_seconds}

-- The owner that a method speaks for: the one given, or else the one on record.
abbrev pub resolved_owner : ActiveCall → ℕ → Option ℕ → Option ℕ
resolved_owner call turn (some o) = some o
resolved_owner call turn none = get call.turn_owners turn

abbrev state_is : (TurnState → Bool) → Option TurnState → Bool
state_is p none = false
state_is p (some s) = p s

-- The call is not ended, its own view of the turn passes the test, and the owner is the one on record.
abbrev pub owns : (TurnState → Bool) → ActiveCall → ℕ → Option ℕ → Bool
owns p call turn owner =
    state_is p (get call.turn_states turn) && is_some owner && (get call.turn_owners turn ==? owner)

-- The durable row passes the test and has that owner.
abbrev pub row_owned : (TurnState → Bool) → Option ℕ → CallTurn → Bool
row_owned p owner r = p r.state && (r.owner_token ==? owner)

abbrev set_state : ActiveCall → ℕ → TurnState → ActiveCall
set_state call turn s = record call { turn_states = put call.turn_states turn s }

abbrev pub user_draft : ℕ → String → Draft
user_draft id text = record {
  id = id;
  content_text = text;
  message_kind = user_speech;
  role = user;
  call_id = none;
  call_turn_id = none;
}

abbrev pub start_running : ℕ → ℕ → CallTurn → CallTurn
start_running message now r = record r {
  user_message_id = some message;
  state = running;
  lease_expires_at = some (now + lease_seconds);
  updated_at = now;
}

-- The staged message and the turn's new values are committed together or rolled back together.
unfoldable pub commit_user_speech :
    World
    → ℕ
    → Option ℕ
    → ℕ
    → Bool
    → Option CallTurn
    → Result (Message × Db)
    → World × Result (Option Message)
commit_user_speech w turn owner now commits found (err e) = (w, err e)
commit_user_speech w turn owner now commits none (ok s) = (w, ok none)
commit_user_speech w turn owner now commits (some r) (ok (m, staged)) =
    if not (row_owned is_reserved owner r)
    then (w, ok none)
    else if not commits
    then (w, err commit_failed)
    else (
      record {
        call = set_state w.call turn running;
        db = record staged {
          turns = modify_turn w.call.call_id turn (start_running m.id now) staged.turns;
        };
      },
      ok (some m),
    )

unfoldable pub record_reserved_user_speech :
    World → ℕ → String → Option ℕ → ℕ → ℕ → Bool → World × Result (Option Message)
unfolding commit_user_speech stage_message find_turn modify_turn
record_reserved_user_speech w turn text given message now commits =
    let owner = resolved_owner w.call turn given in
    if is_some w.call.ended_at || not (owns is_reserved w.call turn owner)
    then (w, ok none)
    else commit_user_speech w turn owner now commits (find_turn w.call.call_id turn w.db.turns)
        (stage_message w.db w.call.thread_id (user_draft message text) now)

pub data PlayoutStatus : Type 0 where
  normal stopped faulty : PlayoutStatus

pub record SpeechTurnTerminal : Type 0 where
  pub status : PlayoutStatus
  pub playout_completed : Bool

abbrev pub played_out : SpeechTurnTerminal → Bool
played_out t = elim t.status [ normal ↦ t.playout_completed | _ ↦ false ]

-- The first section under the lock: a turn is let in once, and waits among the pending ones.
unfoldable pub admit_completion : World → ℕ → SpeechTurnTerminal → Option ℕ → World × Bool
admit_completion w turn terminal given =
    let owner = resolved_owner w.call turn given in
    if not (played_out terminal)
      || is_some w.call.ended_at
      || not (owns is_running w.call turn owner)
      || contains w.call.completed_ai_turn_ids turn
      || contains w.call.pending_ai_turn_ids turn
    then (w, false)
    else (
      record w {
        call = record w.call { pending_ai_turn_ids = add turn w.call.pending_ai_turn_ids };
      },
      true,
    )

abbrev pub no_longer_pending : World → ℕ → World
no_longer_pending w turn = record w {
  call = record w.call { pending_ai_turn_ids = discard turn w.call.pending_ai_turn_ids };
}

-- The second: a call that ended meanwhile, or an owner that changed, lets the turn go.
unfoldable pub gate_completion : World → ℕ → Option ℕ → World × Bool
gate_completion w turn owner =
    if is_some w.call.ended_at || not (get w.call.turn_owners turn ==? owner)
    then (no_longer_pending w turn, false)
    else (w, true)

abbrev pub ai_draft : ℕ → ℕ → ℕ → String → Draft
ai_draft id call turn text = record {
  id = id;
  content_text = text;
  message_kind = ai_speech;
  role = assistant;
  call_id = some call;
  call_turn_id = some turn;
}

abbrev pub complete_row : ℕ → ℕ → CallTurn → CallTurn
complete_row message now r = record (close completed now r) { assistant_message_id = some message }

abbrev mark_completed : ActiveCall → ℕ → ActiveCall
mark_completed call turn = record call {
  pending_ai_turn_ids = discard turn call.pending_ai_turn_ids;
  completed_ai_turn_ids = add turn call.completed_ai_turn_ids;
}

-- A message of this call and turn.
abbrev pub speaks_for : ℕ → ℕ → Message → Bool
speaks_for call turn m = (m.call_id ==? some call) && (m.call_turn_id ==? some turn)

unfoldable pub any_spoken : ℕ → ℕ → List Message → Bool
any_spoken call turn [] = false
any_spoken call turn (m ∷ ms) = speaks_for call turn m || any_spoken call turn ms

-- How writing a completion ends: committed; refused by a unique key as the message is flushed, or
-- at the commit; or failed otherwise.
pub data Settle : Type 0 where
  settled flush_refused refused : Settle
  failing : CallError → Settle

-- A unique key refused the message: the turn counts as completed if its message is there.
unfoldable pub after_refusal : World → ℕ → World × Result (Option Message)
after_refusal w turn =
    if any_spoken w.call.call_id turn w.db.messages
    then (record w { call = mark_completed w.call turn }, ok none)
    else (no_longer_pending w turn, err integrity)

unfoldable pub settle_completion :
    World → ℕ → ℕ → Settle → Message → Db → World × Result (Option Message)
unfolding after_refusal
settle_completion w turn now settled m staged = (
  record {
    call = set_state (mark_completed w.call turn) turn completed;
    db = record staged {
      turns = modify_turn w.call.call_id turn (complete_row m.id now) staged.turns;
    };
  },
  ok (some m),
)
settle_completion w turn now flush_refused m staged = after_refusal w turn
settle_completion w turn now refused m staged = after_refusal w turn
settle_completion w turn now (failing e) m staged = (no_longer_pending w turn, err e)

abbrev pub is_staged : Result (Message × Db) → Bool
is_staged (ok s) = true
is_staged (err e) = false

abbrev pub is_flush_refused : Settle → Bool
is_flush_refused flush_refused = true
is_flush_refused _ = false

unfoldable pub decide_completion :
    World
    → ℕ
    → Option ℕ
    → ℕ
    → Settle
    → Option CallTurn
    → Result (Message × Db)
    → World × Result (Option Message)
unfolding settle_completion
decide_completion w turn owner now how found (err e) = (no_longer_pending w turn, err e)
decide_completion w turn owner now how none (ok s) = (no_longer_pending w turn, ok none)
decide_completion w turn owner now how (some r) (ok (m, staged)) =
    if not (row_owned is_running owner r)
    then (no_longer_pending w turn, ok none)
    else settle_completion w turn now how m staged

-- The third: the message is staged, and with the turn's new values committed or rolled back.
unfoldable pub commit_completion :
    World → ℕ → Option ℕ → String → ℕ → ℕ → Settle → World × Result (Option Message)
unfolding decide_completion stage_message find_turn modify_turn any_spoken
commit_completion w turn owner text message now how =
    let staged =
      stage_message w.db w.call.thread_id (ai_draft message w.call.call_id turn text) now in
    let found = find_turn w.call.call_id turn w.db.turns in
    if is_staged staged && is_flush_refused how
    then after_refusal w turn
    else if is_staged staged && is_some w.call.ended_at
    then (no_longer_pending w turn, ok none)
    else decide_completion w turn owner now how found staged

-- The three sections in a row, with nothing of another task between them.
unfoldable pub record_completed_ai_speech :
    World
    → ℕ
    → String
    → SpeechTurnTerminal
    → Option ℕ
    → ℕ
    → ℕ
    → Settle
    → World × Result (Option Message)
unfolding admit_completion gate_completion commit_completion
record_completed_ai_speech w turn text terminal given message now how =
    let owner = resolved_owner w.call turn given in
    let (w₁, admitted) = admit_completion w turn terminal given in
    let (w₂, open_gate) = gate_completion w₁ turn owner in
    if not admitted
    then (w, ok none)
    else if not open_gate
    then (w₂, ok none)
    else commit_completion w₂ turn owner text message now how

abbrev pub final_state : TurnState → Bool
final_state s = not (is_active s)

unfoldable pub finish_row :
    World → ℕ → TurnState → Option ℕ → ℕ → Bool → Option CallTurn → World × Result (Unit {0})
finish_row w turn state owner now commits none = (w, ok tt)
finish_row w turn state owner now commits (some r) =
    if not (row_owned is_active owner r)
    then (w, ok tt)
    else if not commits
    then (w, err commit_failed)
    else (
      record {
        call = set_state w.call turn state;
        db = record w.db { turns = modify_turn w.call.call_id turn (close state now) w.db.turns };
      },
      ok tt,
    )

-- `state` is one of the three final ones.
unfoldable pub finish_call_turn :
    World → ℕ → TurnState → Option ℕ → ℕ → Bool → World × Result (Unit {0})
unfolding finish_row find_turn modify_turn
finish_call_turn w turn state given now commits =
    let owner = resolved_owner w.call turn given in
    if not (owns is_active w.call turn owner)
    then (w, ok tt)
    else finish_row w turn state owner now commits (find_turn w.call.call_id turn w.db.turns)
