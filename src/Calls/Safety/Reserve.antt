-- ===== src/Calls/Safety/Reserve.antt =====
-- Reserving and repairing turns only lets the database evolve.
use ray_me.Base.{
  ℕ, Bool, true, false, ◌≡◌, refl, sym, subst, ◌⊎◌, inl, inr, Option, none, some, arith, Bool-cases,
  Option-cases, ◌==◌, is_some, get,
}
use ray_me.Calls.Types.{TurnState, failed, CallTurn, Db, World, ActiveCall}
use ray_me.Calls.Rows.{find_turn, update_where, close, rowcount}
use ray_me.Calls.Reserve.{
  TaskDone, terminalize_stale, existing_turn_reservation, reserve_call_turn, call_turn_status,
  stale_row, owned_row, owner_known_dead, Request, Commit, committed, conflict, broken, create_turn,
  recover, reselect,
}
use ray_me.Calls.Safety.Evolves.{
  Evolves, Evolves-refl, Evolves-trans, Evolves-update_where, Evolves-insert,
}

pub Evolves-of_eq : (a b : Db) → b ≡ a → Evolves a b
Evolves-of_eq a b e = subst (Evolves a) (sym e) (Evolves-refl a)

abbrev repaired_turns : ℕ → Bool → Db → CallTurn → Db
repaired_turns now dead db turn = record db {
  turns = update_where (stale_row now dead turn) (close failed now) db.turns;
}

terminalize_stale-cases :
    (done : TaskDone) (now : ℕ) (w : World) (turn : CallTurn)
    → ((terminalize_stale done now w turn).db ≡ w.db)
      ⊎ ((terminalize_stale done now w turn).db
          ≡ repaired_turns now (owner_known_dead w.call turn) w.db turn)
unfolding terminalize_stale
terminalize_stale-cases done now w turn = ground arith

pub terminalize_stale-Evolves :
    (done : TaskDone) (now : ℕ) (w : World) (turn : CallTurn)
    → Evolves w.db (terminalize_stale done now w turn).db
terminalize_stale-Evolves done now w turn = elim (terminalize_stale-cases done now w turn) [
  | inl e ↦ Evolves-of_eq w.db _ e
  | inr e ↦ subst (Evolves w.db) (sym e) (
      Evolves-update_where w.db (stale_row now (owner_known_dead w.call turn) turn)
        (close failed now) (λ r. (refl, refl)) (λ r h. ground arith))
]

existing_turn_reservation-Evolves :
    (done : TaskDone) (now : ℕ) (w : World) (turn : CallTurn) (sha : ℕ)
    → Evolves w.db (existing_turn_reservation done now w turn sha).0.db
unfolding existing_turn_reservation
existing_turn_reservation-Evolves done now w turn sha = terminalize_stale-Evolves done now w turn

pub call_turn_status-Evolves :
    (done : TaskDone) (now : ℕ) (w : World) (turn : ℕ) (loaded : Option CallTurn) (sha : ℕ)
    → Evolves w.db (call_turn_status done now w turn loaded sha).0.db
unfolding call_turn_status
call_turn_status-Evolves done now w turn none sha = Evolves-refl w.db
call_turn_status-Evolves done now w turn (some r) sha = terminalize_stale-Evolves done now w r

reselect-Evolves :
    (done : TaskDone) (now : ℕ) (w : World) (o : Option CallTurn) (sha : ℕ)
    → Evolves w.db (reselect done now w o sha).0.db
unfolding reselect
reselect-Evolves done now w none sha = Evolves-refl w.db
reselect-Evolves done now w (some r) sha = existing_turn_reservation-Evolves done now w r sha

recover-Evolves :
    (call : ActiveCall) (db : Db) (turn owner : ℕ) (state : TurnState) (now : ℕ) (runs : Bool)
    → Evolves db (recover call db turn owner state now runs).db
unfolding recover
recover-Evolves call db turn owner state now false = Evolves-refl db
recover-Evolves call db turn owner state now true =
    let after =
      Evolves-update_where db (owned_row call.call_id turn owner) (close state now)
        (λ r. (refl, refl)) (λ r h. ground arith) in
    elim (Bool-cases (rowcount (owned_row call.call_id turn owner) db.turns == 1)) [
      | inl e ↦ rw (e, recover) after
      | inr e ↦ rw (e, recover) after
    ]

create_turn-Evolves :
    (done : TaskDone) (now : ℕ) (w : World) (q : Request) (c : Commit)
    → Evolves w.db (create_turn done now w q c).0.db
unfolding create_turn
create_turn-Evolves done now w q committed = Evolves-insert w.db _
create_turn-Evolves done now w q (conflict rival) =
    Evolves-trans w.db _ _ (Evolves-insert w.db rival)
      (reselect-Evolves done now _ _ q.request_sha256)
create_turn-Evolves done now w q (broken e true runs) =
    Evolves-trans w.db _ _ (Evolves-insert w.db _)
      (recover-Evolves _ _ q.turn_id q.owner_token _ now runs)
create_turn-Evolves done now w q (broken e false runs) =
    recover-Evolves _ w.db q.turn_id q.owner_token _ now runs

pub reserve_call_turn-Evolves :
    (done : TaskDone) (now : ℕ) (w : World) (q : Request) (c : Commit)
    → Evolves w.db (reserve_call_turn done now w q c).0.db
unfolding reserve_call_turn
reserve_call_turn-Evolves done now w q c = elim (Bool-cases (is_some w.call.ended_at)) [
  | inl e ↦ rw (e, reserve_call_turn) (Evolves-refl w.db)
  | inr e ↦ elim (Option-cases (find_turn w.call.call_id q.turn_id w.db.turns)) [
    | inr (r, f) ↦
        rw (e, f, reserve_call_turn)
          (existing_turn_reservation-Evolves done now w r q.request_sha256)
    | inl f ↦ elim (Bool-cases (is_some (get w.call.turn_states q.turn_id))) [
      | inl g ↦ rw (e, f, g, reserve_call_turn) (create_turn-Evolves done now _ q c)
      | inr g ↦ rw (e, f, g, reserve_call_turn) (create_turn-Evolves done now w q c)
    ]
  ]
]
