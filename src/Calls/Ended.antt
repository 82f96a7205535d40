-- ===== src/Calls/Ended.antt =====
-- A call that has ended (`begin_end` of web-ui/server/app/domain/call_service.py) gets no answer any
-- more, whatever its unfinished tasks still do.
use ray_me.Base.{
  ℕ, Bool, true, false, ◌≡◌, refl, ◌∙◌, ap, inl, inr, Option, none, arith, Bool-cases, String, List,
  [], ◌∷◌, is_some, some,
}
use ray_me.Calls.Types.{TurnState, CallTurn, Message, Db, World, Result, ok, err, call_end, event}
use ray_me.Calls.Rows.{Draft, stage_message}
use ray_me.Calls.Reserve.{
  TaskDone, terminalize_stale, reserve_call_turn, call_turn_status, Request, Commit,
}
use ray_me.Calls.Record.{
  record_reserved_user_speech, admit_completion, gate_completion, commit_completion, after_refusal,
  is_flush_refused, ai_draft, Settle, SpeechTurnTerminal, finish_call_turn, decide_completion,
}
use ray_me.Calls.End.{
  append_message, plain_draft, record_event, user_event, ai_event, other_event, set_muted,
  attach_session, register_active_turn, unregister_active_turn, forget_tasks, begin_end,
  cancel_turns, close_call, closed_db, reconcile_orphan,
}
use ray_me.Calls.Steps.{
  Action, reserves, asks, hears, admits, gates, speaks, finishes, records, mutes, attaches,
  registers, unregisters, forgets, ends, cancels, closes, inserts, reconciles, writes, step, run,
}
use ray_me.Calls.Safety.Rows.{spoken_count, spoken_count-append, stage_message_lem}

-- The call stays ended and itself, and no message of the new database speaks for a turn that did not before.
record Silent (w u : World) : Type 0 where
  ended : is_some u.call.ended_at ≡ true
  same_call : u.call.call_id ≡ w.call.call_id
  unspoken : (c t : ℕ) → spoken_count c t u.db.messages ≡ spoken_count c t w.db.messages

Silent-messages :
    (w u : World)
    → is_some u.call.ended_at ≡ true
    → u.call.call_id ≡ w.call.call_id
    → u.db.messages ≡ w.db.messages
    → Silent w u
Silent-messages w u e i m = record {
  ended = e;
  same_call = i;
  unspoken = λ c t. ap (spoken_count c t) m;
}

silent_plain :
    (a b : Db) (thread now : ℕ) (d : Draft) (m : Message)
    → d.call_id ≡ none
    → stage_message a thread d now ≡ ok (m, b)
    → (c t : ℕ) → spoken_count c t b.messages ≡ spoken_count c t a.messages
unfolding spoken_count
silent_plain a b thread now d m n e c t =
    let (same, msgs, rows) = stage_message_lem a b thread now d m e in
    rw (msgs, same, spoken_count-append) (ground arith)

terminalize_stale-keeps :
    (done : TaskDone) (now : ℕ) (w : World) (turn : CallTurn)
    → ((terminalize_stale done now w turn).db.messages ≡ w.db.messages)
      × ((terminalize_stale done now w turn).call.ended_at ≡ w.call.ended_at)
      × ((terminalize_stale done now w turn).call.call_id ≡ w.call.call_id)
unfolding terminalize_stale
terminalize_stale-keeps done now w turn = ground arith

status-Silent :
    (done : TaskDone) (w : World) (now turn : ℕ) (loaded : Option CallTurn) (sha : ℕ)
    → is_some w.call.ended_at ≡ true
    → Silent w (call_turn_status done now w turn loaded sha).0
unfolding call_turn_status
status-Silent done w now turn none sha e = Silent-messages w w e refl refl
status-Silent done w now turn (some r) sha e =
    let (msgs, kept, same) = terminalize_stale-keeps done now w r in
    Silent-messages w _ (ap is_some kept ∙ e) same msgs

append-Silent :
    (w : World) (thread : ℕ) (d : Draft) (now : ℕ)
    → d.call_id ≡ none
    → is_some w.call.ended_at ≡ true
    → Silent w (append_message w thread d now).0
unfolding append_message
append-Silent w thread d now n e = go (stage_message w.db thread d now) refl
  where
    go :
        (s : Result (Message × Db))
        → stage_message w.db thread d now ≡ s
        → Silent w (append_message w thread d now).0
    go (err x) q = rw (q, append_message) (Silent-messages w w e refl refl)
    go (ok (m, b)) q =
        rw (q, append_message)
          (record {
            ended = e;
            same_call = refl;
            unspoken = silent_plain w.db b thread now d m n q;
          })

after_refusal-keeps :
    (w : World) (turn : ℕ)
    → ((after_refusal w turn).0.db ≡ w.db)
      × ((after_refusal w turn).0.call.ended_at ≡ w.call.ended_at)
      × ((after_refusal w turn).0.call.call_id ≡ w.call.call_id)
unfolding after_refusal
after_refusal-keeps w turn = ground arith

commit_silent :
    (w : World) (turn : ℕ) (owner : Option ℕ) (text : String) (message now : ℕ) (how : Settle)
    → is_some w.call.ended_at ≡ true
    → ((commit_completion w turn owner text message now how).0.db ≡ w.db)
      × ((commit_completion w turn owner text message now how).0.call.ended_at ≡ w.call.ended_at)
      × ((commit_completion w turn owner text message now how).0.call.call_id ≡ w.call.call_id)
unfolding commit_completion
commit_silent w turn owner text message now how e =
    go (stage_message w.db w.call.thread_id (ai_draft message w.call.call_id turn text) now) refl
  where
    go :
        (s : Result (Message × Db))
        → stage_message w.db w.call.thread_id (ai_draft message w.call.call_id turn text) now ≡ s
        → ((commit_completion w turn owner text message now how).0.db ≡ w.db)
          × ((commit_completion w turn owner text message now how).0.call.ended_at
              ≡ w.call.ended_at)
          × ((commit_completion w turn owner text message now how).0.call.call_id ≡ w.call.call_id)
    go (err x) q = rw (q, commit_completion, decide_completion) (refl, refl, refl)
    go (ok p) q = elim (Bool-cases (is_flush_refused how)) [
      | inl f ↦ rw (q, f, commit_completion) (after_refusal-keeps w turn)
      | inr f ↦ rw (q, f, e, commit_completion) (refl, refl, refl)
    ]

finish-Silent :
    (w : World) (turn : ℕ) (state : TurnState) (given : Option ℕ) (now : ℕ) (commits : Bool)
    → is_some w.call.ended_at ≡ true
    → Silent w (finish_call_turn w turn state given now commits).0
unfolding finish_call_turn
finish-Silent w turn state given now commits e =
    Silent-messages w _ (ground arith) (ground arith) (ground arith)

close-Silent :
    (w : World) (message now : ℕ)
    → is_some w.call.ended_at ≡ true
    → Silent w (close_call w message now).0
unfolding close_call
close-Silent w message now e = elim (Bool-cases w.call.end_message_recorded) [
  | inl g ↦ simp g (Silent-messages w w e refl refl)
  | inr g ↦
      go g
        (stage_message (closed_db w now) w.call.thread_id
          (plain_draft message "Call ended" call_end event) now)
        refl
]
  where
    go :
        w.call.end_message_recorded ≡ false
        → (s : Result (Message × Db))
        → stage_message
            (closed_db w now)
            w.call.thread_id
            (plain_draft message "Call ended" call_end event)
            now
          ≡ s
        → Silent w (close_call w message now).0
    go g (err x) q = simp (g, q) (Silent-messages w w e refl refl)
    go g (ok (m, b)) q =
        simp (g, q)
          (record {
            ended = e;
            same_call = refl;
            unspoken = silent_plain (closed_db w now) b w.call.thread_id now _ m refl q;
          })

reserve_ended :
    (done : TaskDone) (now : ℕ) (w : World) (q : Request) (c : Commit)
    → is_some w.call.ended_at ≡ true
    → (reserve_call_turn done now w q c).0 ≡ w
unfolding reserve_call_turn
reserve_ended done now w q c e = rw (e, reserve_call_turn) refl

hear_ended :
    (w : World) (turn : ℕ) (text : String) (given : Option ℕ) (message now : ℕ) (commits : Bool)
    → is_some w.call.ended_at ≡ true
    → (record_reserved_user_speech w turn text given message now commits).0 ≡ w
unfolding record_reserved_user_speech
hear_ended w turn text given message now commits e = rw (e, record_reserved_user_speech) refl

admit_ended :
    (w : World) (turn : ℕ) (t : SpeechTurnTerminal) (given : Option ℕ)
    → is_some w.call.ended_at ≡ true
    → (admit_completion w turn t given).0 ≡ w
unfolding admit_completion
admit_ended w turn t given e = ground arith

gate_keeps :
    (w : World) (turn : ℕ) (owner : Option ℕ)
    → ((gate_completion w turn owner).0.db ≡ w.db)
      × ((gate_completion w turn owner).0.call.ended_at ≡ w.call.ended_at)
      × ((gate_completion w turn owner).0.call.call_id ≡ w.call.call_id)
unfolding gate_completion
gate_keeps w turn owner = ground arith

register_ended :
    (w : World) (task : ℕ) → is_some w.call.ended_at ≡ true → (register_active_turn w task).0 ≡ w
unfolding register_active_turn
register_ended w task e = ground arith

step-Silent :
    (done : TaskDone) (w : World) (a : Action)
    → is_some w.call.ended_at ≡ true
    → Silent w (step done w a)
unfolding step set_muted attach_session unregister_active_turn forget_tasks begin_end cancel_turns
    record_event reconcile_orphan
step-Silent done w (reserves now q c) e =
    rw (reserve_ended done now w q c e) (Silent-messages w w e refl refl)
step-Silent done w (asks now turn loaded sha) e = status-Silent done w now turn loaded sha e
step-Silent done w (hears turn text given message now commits) e =
    rw (hear_ended w turn text given message now commits e) (Silent-messages w w e refl refl)
step-Silent done w (admits turn t given) e =
    rw (admit_ended w turn t given e) (Silent-messages w w e refl refl)
step-Silent done w (gates turn owner) e =
    let (same, kept, call) = gate_keeps w turn owner in
    Silent-messages w _ (ap is_some kept ∙ e) call (ap (λ (db : Db). db.messages) same)
step-Silent done w (speaks turn owner text message now how) e =
    let (same, kept, call) = commit_silent w turn owner text message now how e in
    Silent-messages w _ (ap is_some kept ∙ e) call (ap (λ (db : Db). db.messages) same)
step-Silent done w (finishes turn state given now commits) e =
    finish-Silent w turn state given now commits e
step-Silent done w (records (user_event text) id now) e =
    append-Silent w w.call.thread_id _ now refl e
step-Silent done w (records (ai_event text) id now) e =
    append-Silent w w.call.thread_id _ now refl e
step-Silent done w (records other_event id now) e = Silent-messages w w e refl refl
step-Silent done w (mutes b) e = Silent-messages w _ e refl refl
step-Silent done w (attaches session) e = Silent-messages w _ e refl refl
step-Silent done w (registers task) e =
    rw (register_ended w task e) (Silent-messages w w e refl refl)
step-Silent done w (unregisters task turn owner) e =
    Silent-messages w _ (ground arith) (ground arith) refl
step-Silent done w (forgets tasks) e = Silent-messages w _ e refl refl
step-Silent done w (ends now) e = Silent-messages w _ (ground arith) refl refl
step-Silent done w (cancels tasks) e = Silent-messages w _ e refl refl
step-Silent done w (closes message now) e = close-Silent w message now e
step-Silent done w (inserts r) e = Silent-messages w _ e refl refl
step-Silent done w (reconciles r now) e = Silent-messages w _ e refl refl
step-Silent done w (writes thread id text kind role now) e = append-Silent w thread _ now refl e

-- Once the call is ended it stays ended, and no interleaving of what its tasks and other processes
-- still do adds a message that speaks for a turn of any call.
pub run_ended :
    (w : World) (acts : List (TaskDone × Action))
    → is_some w.call.ended_at ≡ true
    → (is_some (run w acts).call.ended_at ≡ true)
      × ((c t : ℕ) → spoken_count c t (run w acts).db.messages ≡ spoken_count c t w.db.messages)
unfolding run
run_ended w [] e = (e, λ c t. refl)
run_ended w ((done, a) ∷ rest) e =
    let s = step-Silent done w a e in
    let (ended, quiet) = run_ended (step done w a) rest s.ended in
    (ended, λ c t. quiet c t ∙ s.unspoken c t)
