-- ===== src/Calls/Reserve.antt =====
-- `reserve_call_turn` of web-ui/server/app/domain/call_service.py, and the repair of turns whose owner is gone.
use ray_me.Base.{
  ℕ, ◌+◌, Bool, true, false, not, ◌&&◌, ◌||◌, Option, none, some, List, [], ◌∷◌, ◌++◌, ◌==◌, ◌==?◌,
  leb, ltb, if◌then◌else◌, is_some, get, put, pop, add, discard,
}
use ray_me.Calls.Types.{
  TurnState, reserved, failed, cancelled, is_active, CallTurn, Message, Db, ActiveCall,
  CallTurnReservation, CallError, integrity, task_cancelled, session_not_found, Result, ok, err,
  World,
}
use ray_me.Calls.Rows.{find_turn, update_where, rowcount, close, find_message}

abbrev pub lease_seconds : ℕ
lease_seconds = 300

-- What `done()` of a task handle says; `none` is a handle without such a method.
abbrev pub TaskDone : Type 0
TaskDone = ℕ → Option Bool

abbrev not_done : Option Bool → Bool
not_done none = true
not_done (some d) = not d

abbrev pub task_is_live : TaskDone → Option ℕ → Bool
task_is_live done none = true
task_is_live done (some task) = not_done (done task)

unfoldable pub turn_owner_is_live : TaskDone → ActiveCall → CallTurn → Bool
turn_owner_is_live done call turn =
    is_some turn.owner_token
    && (get call.turn_owners turn.turn_id ==? turn.owner_token)
    && task_is_live done (get call.turn_owner_tasks turn.turn_id)

abbrev pub lease_is_over : ℕ → Option ℕ → Bool
lease_is_over now none = true
lease_is_over now (some t) = leb t now

abbrev pub lease_runs : ℕ → Option ℕ → Bool
lease_runs now none = false
lease_runs now (some t) = ltb now t

abbrev pub owner_known_dead : ActiveCall → CallTurn → Bool
owner_known_dead call turn =
    is_some turn.owner_token && (get call.turn_owners turn.turn_id ==? turn.owner_token)

-- The rows that the repairing UPDATE matches: the loaded row, still active under the loaded token,
-- and out of its lease unless this process knows the owner to be dead.
abbrev pub stale_row : ℕ → Bool → CallTurn → CallTurn → Bool
stale_row now dead turn r =
    r.id == turn.id
    && is_active r.state
    && (r.owner_token ==? turn.owner_token)
    && (dead || lease_is_over now r.lease_expires_at)

-- The reloaded row; a row that is gone keeps the values that were loaded.
abbrev pub refresh : CallTurn → Option CallTurn → CallTurn
refresh turn none = turn
refresh turn (some r) = r

-- The call, the database and the loaded row after `_terminalize_stale_turn_if_needed`.
pub record Repaired : Type 0 where
  pub call : ActiveCall
  pub db : Db
  pub turn : CallTurn

repair : ℕ → Bool → World → CallTurn → Repaired
repair now dead w turn =
    let matched = rowcount (stale_row now dead turn) w.db.turns in
    let turns' = update_where (stale_row now dead turn) (close failed now) w.db.turns in
    let db' = record w.db { turns = turns' } in
    if matched == 1
    then record {
      call = record w.call {
        turn_states = put w.call.turn_states turn.turn_id failed;
        turn_owners = pop w.call.turn_owners turn.turn_id;
        turn_owner_tasks = pop w.call.turn_owner_tasks turn.turn_id;
      };
      db = db';
      turn = record turn { state = failed; owner_token = none; lease_expires_at = none };
    }
    else record {
      call = w.call;
      db = db';
      turn = refresh turn (find_turn turn.call_id turn.turn_id turns');
    }

unfoldable pub terminalize_stale : TaskDone → ℕ → World → CallTurn → Repaired
unfolding repair
terminalize_stale done now w turn =
    let keep : Repaired = record { call = w.call; db = w.db; turn = turn } in
    let dead = owner_known_dead w.call turn in
    if not (is_active turn.state)
    then keep
    else if turn_owner_is_live done w.call turn
    then keep
    else if not dead && lease_runs now turn.lease_expires_at
    then keep
    else repair now dead w turn

abbrev assistant_message : Option ℕ → List Message → Option Message
assistant_message none ms = none
assistant_message (some k) ms = find_message k ms

abbrev pub turn_reservation : Db → CallTurn → ℕ → CallTurnReservation
turn_reservation db turn sha = record {
  created = false;
  state = turn.state;
  request_matches = turn.request_sha256 == sha;
  assistant_message = assistant_message turn.assistant_message_id db.messages;
  owner_token = none;
}

unfoldable pub existing_turn_reservation :
    TaskDone → ℕ → World → CallTurn → ℕ → World × Result CallTurnReservation
existing_turn_reservation done now w turn sha =
    let r = terminalize_stale done now w turn in
    let call' = record r.call {
      turn_states = put r.call.turn_states r.turn.turn_id r.turn.state;
    } in
    (record { call = call'; db = r.db }, ok (turn_reservation r.db r.turn sha))

-- How the commit of the new row ends: done; refused by the unique key, with the row that another
-- process had put there; or any other failure, of which the second part
-- says whether the row became durable all the same, and the third whether a recovery session runs.
pub data Commit : Type 0 where
  committed : Commit
  conflict : CallTurn → Commit
  broken : CallError → Bool → Bool → Commit

abbrev pub new_turn : ℕ → ActiveCall → ℕ → ℕ → ℕ → ℕ → CallTurn
new_turn id call turn sha owner now = record {
  id = id;
  call_id = call.call_id;
  turn_id = turn;
  thread_id = call.thread_id;
  request_sha256 = sha;
  state = reserved;
  owner_token = some owner;
  lease_expires_at = some (now + lease_seconds);
  user_message_id = none;
  assistant_message_id = none;
  created_at = now;
  updated_at = now;
}

abbrev add_task : Option ℕ → List ℕ → List ℕ
add_task none ts = ts
add_task (some t) ts = add t ts

abbrev drop_task : Option ℕ → List ℕ → List ℕ
drop_task none ts = ts
drop_task (some t) ts = discard t ts

abbrev own_task : ℕ → Option ℕ → List (ℕ × ℕ) → List (ℕ × ℕ)
own_task turn none m = m
own_task turn (some t) m = put m turn t

unfoldable pub take_ownership : ActiveCall → ℕ → ℕ → Option ℕ → ActiveCall
take_ownership call turn owner task = record call {
  turn_states = put call.turn_states turn reserved;
  turn_owners = put call.turn_owners turn owner;
  active_turn_tasks = add_task task call.active_turn_tasks;
  turn_owner_tasks = own_task turn task call.turn_owner_tasks;
}

unfoldable pub discard_turn_owner : ActiveCall → ℕ → ℕ → Option ℕ → ActiveCall
discard_turn_owner call turn owner task =
    let call' =
      if get call.turn_owners turn ==? some owner
      then record call {
        turn_owners = pop call.turn_owners turn;
        turn_owner_tasks = pop call.turn_owner_tasks turn;
        turn_states = pop call.turn_states turn;
      }
      else call in
    record call' { active_turn_tasks = drop_task task call'.active_turn_tasks }

-- `_terminalize_committed_reservation_owner`: the rows that the recovery session ends.
abbrev pub owned_row : ℕ → ℕ → ℕ → CallTurn → Bool
owned_row call turn owner r =
    r.call_id == call && r.turn_id == turn && (r.owner_token ==? some owner) && is_active r.state

abbrev failure_state : CallError → TurnState
failure_state task_cancelled = cancelled
failure_state _ = failed

-- The recovery after a broken commit; `db` holds what became durable.
unfoldable pub recover : ActiveCall → Db → ℕ → ℕ → TurnState → ℕ → Bool → World
recover call db turn owner state now runs =
    let mine = owned_row call.call_id turn owner in
    let db' = record db { turns = update_where mine (close state now) db.turns } in
    if not runs
    then record { call = call; db = db }
    else if rowcount mine db.turns == 1
    then record { call = record call { turn_states = put call.turn_states turn state }; db = db' }
    else record { call = call; db = db' }

pub record Request : Type 0 where
  pub turn_id : ℕ
  pub request_sha256 : ℕ
  pub task : Option ℕ
  pub new_id : ℕ
  pub owner_token : ℕ

abbrev pub insert_turn : Db → CallTurn → Db
insert_turn db r = record db { turns = db.turns ++ r ∷ [] }

-- After the rollback of a refused commit the row is selected again.
unfoldable pub reselect :
    TaskDone → ℕ → World → Option CallTurn → ℕ → World × Result CallTurnReservation
unfolding existing_turn_reservation
reselect done now w none sha = (w, err integrity)
reselect done now w (some r) sha = existing_turn_reservation done now w r sha

unfoldable pub create_turn :
    TaskDone → ℕ → World → Request → Commit → World × Result CallTurnReservation
unfolding take_ownership discard_turn_owner recover reselect find_turn
create_turn done now w q c =
    let row = new_turn q.new_id w.call q.turn_id q.request_sha256 q.owner_token now in
    let owning = take_ownership w.call q.turn_id q.owner_token q.task in
    let dropped = discard_turn_owner owning q.turn_id q.owner_token q.task in
    elim c [
      | committed ↦ (
        record { call = owning; db = insert_turn w.db row },
        ok (record {
          created = true;
          state = reserved;
          request_matches = true;
          assistant_message = none;
          owner_token = some q.owner_token;
        }),
      )
      | conflict rival ↦
          let w' : World = record { call = dropped; db = insert_turn w.db rival } in
          reselect done now w' (find_turn w.call.call_id q.turn_id w'.db.turns) q.request_sha256
      | broken e durable runs ↦ (
        recover dropped (if durable then insert_turn w.db row else w.db) q.turn_id q.owner_token
            (failure_state e) now runs,
        err e,
      )
    ]

-- A turn that this process believes to know, and whose row is gone, is forgotten.
abbrev pub forget : ActiveCall → ℕ → ActiveCall
forget call turn = record call { turn_states = pop call.turn_states turn }

unfoldable pub reserve_call_turn :
    TaskDone → ℕ → World → Request → Commit → World × Result CallTurnReservation
unfolding create_turn find_turn
reserve_call_turn done now w q c =
    let found = find_turn w.call.call_id q.turn_id w.db.turns in
    if is_some w.call.ended_at then (w, err session_not_found) else elim found [
      | some r ↦ existing_turn_reservation done now w r q.request_sha256
      | none ↦
          if is_some (get w.call.turn_states q.turn_id)
          then create_turn done now (record w { call = forget w.call q.turn_id }) q c
          else create_turn done now w q c
    ]

-- The section of `call_turn_status` under the lock: the row that was selected before the lock was
-- taken, which may be outdated by now, is repaired if it is stale, and reported.
unfoldable pub call_turn_status :
    TaskDone → ℕ → World → ℕ → Option CallTurn → ℕ → World × Result CallTurnReservation
unfolding terminalize_stale
call_turn_status done now w turn none sha = (w, err session_not_found)
call_turn_status done now w turn (some loaded) sha =
    let s = terminalize_stale done now w loaded in
    (
      record {
        call = record s.call { turn_states = put s.call.turn_states turn s.turn.state };
        db = s.db;
      },
      ok (turn_reservation s.db s.turn sha),
    )
