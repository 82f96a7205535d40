-- ===== src/Calls/Safety/End.antt =====
-- Events, the end of a call and the repair of orphans only let the database evolve.
use ray_me.Base.{ℕ, false, ◌≡◌, refl, inl, inr, none, arith, Bool-cases}
use ray_me.Calls.Types.{
  failed, cancelled, CallTurn, Message, Db, World, Result, ok, err, call_end, event,
}
use ray_me.Calls.Rows.{Draft, stage_message, close}
use ray_me.Calls.End.{
  append_message, open_call, new_call, record_event, CallEvent, user_event, ai_event, other_event,
  close_call, closed_db, active_row, orphan_row, reconcile_orphan, plain_draft,
}
use ray_me.Calls.Safety.Evolves.{Evolves, Evolves-refl, Evolves-trans, Evolves-update_where}
use ray_me.Calls.Safety.Record.{stage_message-Evolves}

pub append_message-Evolves :
    (w : World) (thread : ℕ) (d : Draft) (now : ℕ)
    → d.call_id ≡ none
    → Evolves w.db (append_message w thread d now).0.db
unfolding append_message
append_message-Evolves w thread d now n = go (stage_message w.db thread d now) refl
  where
    go :
        (s : Result (Message × Db))
        → stage_message w.db thread d now ≡ s
        → Evolves w.db (append_message w thread d now).0.db
    go (err e) q = rw (q, append_message) (Evolves-refl w.db)
    go (ok (m, b)) q = rw (q, append_message) (stage_message-Evolves w.db b thread now d m n q)

pub record_event-Evolves :
    (w : World) (e : CallEvent) (id now : ℕ) → Evolves w.db (record_event w e id now).0.db
unfolding record_event
record_event-Evolves w (user_event text) id now =
    append_message-Evolves w w.call.thread_id _ now refl
record_event-Evolves w (ai_event text) id now = append_message-Evolves w w.call.thread_id _ now refl
record_event-Evolves w other_event id now = Evolves-refl w.db

pub open_call-Evolves :
    (db : Db) (call session thread message now : ℕ)
    → Evolves db (open_call db call session thread message now).0.db
unfolding open_call
open_call-Evolves db call session thread message now =
    append_message-Evolves (record { call = new_call call session thread; db = db }) thread _ now
      refl

close_rows : (w : World) (now : ℕ) → Evolves w.db (closed_db w now)
close_rows w now =
    Evolves-update_where w.db (active_row w.call.call_id) (close cancelled now) (λ r. (refl, refl))
      (λ r h. ground arith)

pub close_call-Evolves :
    (w : World) (message now : ℕ) → Evolves w.db (close_call w message now).0.db
unfolding close_call
close_call-Evolves w message now = elim (Bool-cases w.call.end_message_recorded) [
  | inl e ↦ rw (e, close_call) (Evolves-refl w.db)
  | inr e ↦
      go e
        (stage_message (closed_db w now) w.call.thread_id
          (plain_draft message "Call ended" call_end event) now)
        refl
]
  where
    go :
        w.call.end_message_recorded ≡ false
        → (s : Result (Message × Db))
        → stage_message
            (closed_db w now)
            w.call.thread_id
            (plain_draft message "Call ended" call_end event)
            now
          ≡ s
        → Evolves w.db (close_call w message now).0.db
    go e (err x) q = rw (e, q, close_call) (Evolves-refl w.db)
    go e (ok (m, b)) q =
        rw (e, q, close_call)
          (Evolves-trans w.db _ b (close_rows w now)
            (stage_message-Evolves (closed_db w now) b w.call.thread_id now _ m refl q))

pub reconcile_orphan-Evolves :
    (db : Db) (turn : CallTurn) (now : ℕ) → Evolves db (reconcile_orphan db turn now).0
unfolding reconcile_orphan
reconcile_orphan-Evolves db turn now =
    Evolves-update_where db (orphan_row now turn) (close failed now) (λ r. (refl, refl))
      (λ r h. ground arith)
