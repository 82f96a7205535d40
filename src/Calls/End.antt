-- ===== src/Calls/End.antt =====
-- The rest of `CallService` in web-ui/server/app/domain/call_service.py: the start and the end of a
-- call, its tasks, its events, and the repair of orphaned turns when a process starts.
use ray_me.Base.{
  ℕ, Bool, true, false, ◌&&◌, Option, none, some, List, [], ◌∷◌, String, ◌==◌, ◌==?◌, if◌then◌else◌,
  is_some, get, pop, add, discard,
}
use ray_me.Calls.Types.{
  TurnState, failed, cancelled, is_active, CallTurn, Message, MessageKind, Role, call_start,
  call_end, user_speech, ai_speech, user, assistant, event, Db, ActiveCall, Result, ok, err, World,
}
use ray_me.Calls.Rows.{Draft, stage_message, update_where, rowcount, close}
use ray_me.Calls.Reserve.{lease_is_over}

-- `_append_message`: staged and committed at once.
unfoldable pub append_message : World → ℕ → Draft → ℕ → World × Result Message
unfolding stage_message
append_message w thread d now = elim (stage_message w.db thread d now) [
  | err e ↦ (w, err e)
  | ok (m, staged) ↦ (record w { db = staged }, ok m)
]

abbrev pub plain_draft : ℕ → String → MessageKind → Role → Draft
plain_draft id text kind role = record {
  id = id;
  content_text = text;
  message_kind = kind;
  role = role;
  call_id = none;
  call_turn_id = none;
}

-- The call that `start_call` registers once the voice has been checked.
abbrev pub new_call : ℕ → ℕ → ℕ → ActiveCall
new_call call session thread = record {
  call_id = call;
  session_id = session;
  thread_id = thread;
  ended_at = none;
  muted = false;
  completed_ai_turn_ids = [];
  pending_ai_turn_ids = [];
  active_turn_tasks = [];
  turn_states = [];
  turn_owners = [];
  turn_owner_tasks = [];
  end_message_recorded = false;
}

unfoldable pub open_call : Db → ℕ → ℕ → ℕ → ℕ → ℕ → World × Result Message
unfolding append_message
open_call db call session thread message now =
    append_message (record { call = new_call call session thread; db = db }) thread
      (plain_draft message "Call started" call_start event) now

unfoldable pub set_muted : World → Bool → World
set_muted w muted = record w { call = record w.call { muted = muted } }

unfoldable pub attach_session : World → ℕ → World
attach_session w session = record w { call = record w.call { session_id = session } }

abbrev spoken : Result Message → Result (Option Message)
spoken (ok m) = ok (some m)
spoken (err e) = err e

pub data CallEvent : Type 0 where
  user_event ai_event : String → CallEvent
  other_event : CallEvent

-- Other events write nothing.
unfoldable pub record_event : World → CallEvent → ℕ → ℕ → World × Result (Option Message)
unfolding append_message
record_event w (user_event text) id now =
    let (w', r) = append_message w w.call.thread_id (plain_draft id text user_speech user) now in
    (w', spoken r)
record_event w (ai_event text) id now =
    let (w', r) = append_message w w.call.thread_id (plain_draft id text ai_speech assistant) now in
    (w', spoken r)
record_event w other_event id now = (w, ok none)

unfoldable pub register_active_turn : World → ℕ → World × Bool
register_active_turn w task = if is_some w.call.ended_at then (w, false) else (
  record w { call = record w.call { active_turn_tasks = add task w.call.active_turn_tasks } },
  true,
)

abbrev owner_matches : ActiveCall → Option ℕ → Option ℕ → Bool
owner_matches call none owner = false
owner_matches call (some t) owner = is_some owner && (get call.turn_owners t ==? owner)

abbrev release : ActiveCall → Option ℕ → ActiveCall
release call none = call
release call (some t) = record call {
  turn_owners = pop call.turn_owners t;
  turn_owner_tasks = pop call.turn_owner_tasks t;
}

unfoldable pub unregister_active_turn : World → ℕ → Option ℕ → Option ℕ → World
unregister_active_turn w task turn owner =
    let call' = record w.call { active_turn_tasks = discard task w.call.active_turn_tasks } in
    record w { call = if owner_matches call' turn owner then release call' turn else call' }

abbrev pub difference : List ℕ → List ℕ → List ℕ
difference xs [] = xs
difference xs (y ∷ ys) = difference (discard y xs) ys

-- The tasks that `cancel_active_turns` and `begin_end` cancel and wait for are those of the first
-- section; the second takes them off the call.
unfoldable pub cancel_active_turns : World → World × List ℕ
cancel_active_turns w = (w, w.call.active_turn_tasks)

unfoldable pub forget_tasks : World → List ℕ → World
forget_tasks w tasks = record w {
  call = record w.call { active_turn_tasks = difference w.call.active_turn_tasks tasks };
}

abbrev end_at : ℕ → Option ℕ → Option ℕ
end_at now none = some now
end_at now (some t) = some t

unfoldable pub begin_end : World → ℕ → World × List ℕ
begin_end w now = (
  record w { call = record w.call { ended_at = end_at now w.call.ended_at } },
  w.call.active_turn_tasks,
)

-- Every turn that is reserved or running becomes cancelled, and loses its owner.
unfoldable pub cancel_states : List (ℕ × TurnState) → List (ℕ × TurnState)
cancel_states [] = []
cancel_states ((t, s) ∷ m) = (t, if is_active s then cancelled else s) ∷ cancel_states m

cancel_owners {ℓ} : {V : Type ℓ} → List (ℕ × TurnState) → List (ℕ × V) → List (ℕ × V)
cancel_owners [] owners = owners
cancel_owners ((t, s) ∷ m) owners =
    let rest = if is_active s then pop owners t else owners in cancel_owners m rest

unfoldable pub cancel_turns : World → List ℕ → World
unfolding cancel_states cancel_owners
cancel_turns w tasks = record w {
  call = record w.call {
    active_turn_tasks = difference w.call.active_turn_tasks tasks;
    turn_states = cancel_states w.call.turn_states;
    turn_owners = cancel_owners w.call.turn_states w.call.turn_owners;
    turn_owner_tasks = cancel_owners w.call.turn_states w.call.turn_owner_tasks;
  };
}

abbrev pub active_row : ℕ → CallTurn → Bool
active_row call r = r.call_id == call && is_active r.state

abbrev pub closed_db : World → ℕ → Db
closed_db w now = record w.db {
  turns = update_where (active_row w.call.call_id) (close cancelled now) w.db.turns;
}

-- A session that ends without a commit gives up what it executed.
abbrev pub given_up : Db → Db → Db
given_up before executed = before

-- The last section of `end_call`. The UPDATE is always executed, and committed together with the
-- message. Where the thread is gone, or the end has been recorded before, nothing commits it, and it is
-- given up with the session of the request.
unfoldable pub close_call : World → ℕ → ℕ → World × Result (Unit {0})
unfolding stage_message update_where
close_call w message now =
    let executed = closed_db w now in
    if w.call.end_message_recorded
    then (record w { db = given_up w.db executed }, ok tt)
    else elim (stage_message executed w.call.thread_id
        (plain_draft message "Call ended" call_end event) now) [
          | err e ↦ (record w { db = given_up w.db executed }, err e)
          | ok (m, staged) ↦
              (record { call = record w.call { end_message_recorded = true }; db = staged }, ok tt)
        ]

-- `end_call`, with nothing of another task between its sections.
unfoldable pub end_call : World → ℕ → ℕ → World × Result (Unit {0})
unfolding begin_end cancel_turns close_call
end_call w message now =
    let (w', tasks) = begin_end w now in close_call (cancel_turns w' tasks) message now

-- `reconcile_stale_call_turns`, for a row whose call is not one of this process.
abbrev pub orphan_row : ℕ → CallTurn → CallTurn → Bool
orphan_row now turn r = r.id == turn.id && is_active r.state && lease_is_over now r.lease_expires_at

unfoldable pub reconcile_orphan : Db → CallTurn → ℕ → Db × ℕ
unfolding update_where rowcount
reconcile_orphan db turn now = (
  record db { turns = update_where (orphan_row now turn) (close failed now) db.turns },
  if rowcount (orphan_row now turn) db.turns == 1 then 1 else 0,
)
