-- ===== src/Calls/Steps.antt =====
-- The interleavings of one live call. Every action is a section that the methods of
-- web-ui/server/app/domain/call_service.py run under the call's lock, or a write of another process.
-- The row that `asks` works on was selected before, so it is any row. Deletions are in Pruned.
use ray_me.Base.{ℕ, Bool, Option, List, [], ◌∷◌, String}
use ray_me.Calls.Types.{TurnState, CallTurn, MessageKind, Role, World}
use ray_me.Calls.Reserve.{
  TaskDone, Request, Commit, reserve_call_turn, call_turn_status, insert_turn,
}
use ray_me.Calls.Record.{
  record_reserved_user_speech, SpeechTurnTerminal, admit_completion, gate_completion,
  commit_completion, Settle, finish_call_turn,
}
use ray_me.Calls.End.{
  CallEvent, record_event, set_muted, attach_session, register_active_turn, unregister_active_turn,
  forget_tasks, begin_end, cancel_turns, close_call, reconcile_orphan, append_message, plain_draft,
}

pub data Action : Type 0 where
  reserves : ℕ → Request → Commit → Action
  asks : ℕ → ℕ → Option CallTurn → ℕ → Action
  hears : ℕ → String → Option ℕ → ℕ → ℕ → Bool → Action
  admits : ℕ → SpeechTurnTerminal → Option ℕ → Action
  gates : ℕ → Option ℕ → Action
  speaks : ℕ → Option ℕ → String → ℕ → ℕ → Settle → Action
  finishes : ℕ → TurnState → Option ℕ → ℕ → Bool → Action
  records : CallEvent → ℕ → ℕ → Action
  mutes : Bool → Action
  attaches : ℕ → Action
  registers : ℕ → Action
  unregisters : ℕ → Option ℕ → Option ℕ → Action
  forgets : List ℕ → Action
  ends : ℕ → Action
  cancels : List ℕ → Action
  closes : ℕ → ℕ → Action
  -- Another process inserts a turn, repairs one, or adds a message to some thread.
  inserts : CallTurn → Action
  reconciles : CallTurn → ℕ → Action
  writes : ℕ → ℕ → String → MessageKind → Role → ℕ → Action

unfoldable pub step : TaskDone → World → Action → World
step done w (reserves now q c) = (reserve_call_turn done now w q c).0
step done w (asks now turn loaded sha) = (call_turn_status done now w turn loaded sha).0
step done w (hears turn text given message now commits) =
    (record_reserved_user_speech w turn text given message now commits).0
step done w (admits turn t given) = (admit_completion w turn t given).0
step done w (gates turn owner) = (gate_completion w turn owner).0
step done w (speaks turn owner text message now how) =
    (commit_completion w turn owner text message now how).0
step done w (finishes turn state given now commits) =
    (finish_call_turn w turn state given now commits).0
step done w (records e id now) = (record_event w e id now).0
step done w (mutes b) = set_muted w b
step done w (attaches session) = attach_session w session
step done w (registers task) = (register_active_turn w task).0
step done w (unregisters task turn owner) = unregister_active_turn w task turn owner
step done w (forgets tasks) = forget_tasks w tasks
step done w (ends now) = (begin_end w now).0
step done w (cancels tasks) = cancel_turns w tasks
step done w (closes message now) = (close_call w message now).0
step done w (inserts r) = record w { db = insert_turn w.db r }
step done w (reconciles r now) = record w { db = (reconcile_orphan w.db r now).0 }
step done w (writes thread id text kind role now) =
    (append_message w thread (plain_draft id text kind role) now).0

-- What the tasks' handles say may change from one action to the next.
unfoldable pub run : World → List (TaskDone × Action) → World
run w [] = w
run w ((done, a) ∷ rest) = run (step done w a) rest
