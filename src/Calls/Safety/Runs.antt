-- ===== src/Calls/Safety/Runs.antt =====
-- What holds of the database whatever the interleaving.
use ray_me.Base.{ℕ, ◌≤◌, ◌≡◌, refl, some, false, List, [], ◌∷◌, arith}
use ray_me.Calls.Types.{CallTurn, World, is_active}
use ray_me.Calls.Rows.{find_turn}
use ray_me.Calls.Reserve.{TaskDone}
use ray_me.Calls.End.{
  set_muted, attach_session, register_active_turn, unregister_active_turn, forget_tasks, begin_end,
  cancel_turns, plain_draft,
}
use ray_me.Calls.Steps.{
  Action, reserves, asks, hears, admits, gates, speaks, finishes, records, mutes, attaches,
  registers, unregisters, forgets, ends, cancels, closes, inserts, reconciles, writes, step, run,
}
use ray_me.Calls.Safety.Rows.{spoken_count}
use ray_me.Calls.Safety.Evolves.{
  Evolves, Evolves-refl, Evolves-trans, Evolves-insert, SpokenOnce, quota,
}
use ray_me.Calls.Safety.Reserve.{reserve_call_turn-Evolves, call_turn_status-Evolves, Evolves-of_eq}
use ray_me.Calls.Safety.Record.{
  record_reserved_user_speech-Evolves, commit_completion-Evolves, admit_completion-db,
  gate_completion-db, finish_call_turn-Evolves,
}
use ray_me.Calls.Safety.End.{
  record_event-Evolves, close_call-Evolves, reconcile_orphan-Evolves, append_message-Evolves,
}

pub step-Evolves : (done : TaskDone) (w : World) (a : Action) → Evolves w.db (step done w a).db
unfolding step set_muted attach_session register_active_turn unregister_active_turn forget_tasks
    begin_end cancel_turns
step-Evolves done w (reserves now q c) = reserve_call_turn-Evolves done now w q c
step-Evolves done w (asks now turn loaded sha) = call_turn_status-Evolves done now w turn loaded sha
step-Evolves done w (hears turn text given message now commits) =
    record_reserved_user_speech-Evolves w turn text given message now commits
step-Evolves done w (admits turn t given) =
    Evolves-of_eq w.db _ (admit_completion-db w turn t given)
step-Evolves done w (gates turn owner) = Evolves-of_eq w.db _ (gate_completion-db w turn owner)
step-Evolves done w (speaks turn owner text message now how) =
    commit_completion-Evolves w turn owner text message now how
step-Evolves done w (finishes turn state given now commits) =
    finish_call_turn-Evolves w turn state given now commits
step-Evolves done w (records e id now) = record_event-Evolves w e id now
step-Evolves done w (mutes b) = Evolves-refl w.db
step-Evolves done w (attaches session) = Evolves-refl w.db
step-Evolves done w (registers task) = Evolves-of_eq w.db _ (ground arith)
step-Evolves done w (unregisters task turn owner) = Evolves-refl w.db
step-Evolves done w (forgets tasks) = Evolves-refl w.db
step-Evolves done w (ends now) = Evolves-refl w.db
step-Evolves done w (cancels tasks) = Evolves-refl w.db
step-Evolves done w (closes message now) = close_call-Evolves w message now
step-Evolves done w (inserts r) = Evolves-insert w.db r
step-Evolves done w (reconciles r now) = reconcile_orphan-Evolves w.db r now
step-Evolves done w (writes thread id text kind role now) =
    append_message-Evolves w thread (plain_draft id text kind role) now refl

pub run-Evolves : (w : World) (acts : List (TaskDone × Action)) → Evolves w.db (run w acts).db
unfolding run
run-Evolves w [] = Evolves-refl w.db
run-Evolves w ((done, a) ∷ rest) =
    Evolves-trans w.db (step done w a).db _ (step-Evolves done w a)
      (run-Evolves (step done w a) rest)

-- A turn that is completed, failed or cancelled keeps its row as it is, whatever actions of the call
-- and writes of other processes follow.
pub run_settled :
    (w : World) (acts : List (TaskDone × Action)) (c t : ℕ) (r : CallTurn)
    → find_turn c t w.db.turns ≡ some r
    → is_active r.state ≡ false
    → find_turn c t (run w acts).db.turns ≡ some r
run_settled w acts c t r e h = (run-Evolves w acts).settled c t r e h

-- From a database where each turn has at most one answer, and none unless it is completed, every
-- interleaving leads to one where that holds again.
pub run-SpokenOnce :
    (w : World) (acts : List (TaskDone × Action))
    → SpokenOnce w.db
    → (c t : ℕ)
    → spoken_count c t (run w acts).db.messages ≤ quota (find_turn c t (run w acts).db.turns)
run-SpokenOnce w acts h = (run-Evolves w acts).once h
