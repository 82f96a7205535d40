-- ===== src/Calls/Duplicates.antt =====
-- Turns that are asked for again, and turns whose owner is gone: `_existing_turn_reservation` and
-- `_terminalize_stale_turn_if_needed` of web-ui/server/app/domain/call_service.py.
use ray_me.Base.{
  ℕ, Bool, true, false, ◌≡◌, refl, ap, sym, subst, inl, inr, Option, none, some, arith, Bool-cases,
  List, [], ◌∷◌, is_some, ◌&&◌, ◌||◌, not, ==_refl, ◌==◌, ◌==?◌, length, if◌then◌else◌, ltb, get,
}
use ray_me.Calls.Types.{failed, CallTurn, Db, World, ActiveCall, ok, CallTurnReservation, is_active}
use ray_me.Calls.Rows.{find_turn, update_where, close, rowcount}
use ray_me.Calls.Reserve.{
  TaskDone, terminalize_stale, turn_owner_is_live, owner_known_dead, lease_runs, stale_row, refresh,
  task_is_live, reserve_call_turn, Request, Commit, turn_reservation,
}
use ray_me.Calls.Safety.Rows.{find_turn-update_where}

pub find_turn_key :
    (c t : ℕ) (rows : List CallTurn) (r : CallTurn)
    → find_turn c t rows ≡ some r
    → (r.call_id ≡ c) × (r.turn_id ≡ t)
unfolding find_turn
find_turn_key c t [] r e = cc
find_turn_key c t (x ∷ rows) r e = ground (arith, find_turn_key c t rows r)

==?_refl : (o : Option ℕ) → (o ==? o) ≡ true
==?_refl none = refl
==?_refl (some a) = ==_refl a

length-update_where :
    (p : CallTurn → Bool) (f : CallTurn → CallTurn) (rows : List CallTurn)
    → length (update_where p f rows) ≡ length rows
unfolding update_where
length-update_where p f [] = refl
length-update_where p f (r ∷ rows) = omega (arith, length-update_where p f rows)

-- Whether the task with which this process registered the owner of a turn is known to be done.
abbrev pub is_done : Option Bool → Bool
is_done none = false
is_done (some b) = b

abbrev pub task_done : TaskDone → Option ℕ → Bool
task_done done none = false
task_done done (some task) = is_done (done task)

-- Whether the lease runs at the time.
abbrev pub is_leased : ℕ → Option ℕ → Bool
is_leased now none = false
is_leased now (some expires) = ltb now expires

-- Whether a row has the owner that this process registered for its turn.
abbrev pub is_known : Option ℕ → Option ℕ → Bool
is_known registered none = false
is_known registered (some owner) = registered ==? some owner

-- Whether an active row is left to its owner: an owner of this process for as long as its task is not
-- known to be done, and any other for as long as its lease runs.
abbrev pub is_kept : TaskDone → ℕ → ActiveCall → CallTurn → Bool
is_kept done now call r =
    if is_known (get call.turn_owners r.turn_id) r.owner_token
    then not (task_done done (get call.turn_owner_tasks r.turn_id))
    else is_leased now r.lease_expires_at

-- An active row as the repair leaves it.
abbrev pub repaired : TaskDone → ℕ → ActiveCall → CallTurn → CallTurn
repaired done now call r =
    if is_active r.state && not (is_kept done now call r) then close failed now r else r

-- The guards of the repair, in its order.
abbrev is_spared : TaskDone → ℕ → ActiveCall → CallTurn → Bool
is_spared done now call r =
    turn_owner_is_live done call r
    || (not (owner_known_dead call r) && lease_runs now r.lease_expires_at)

is_spared-eq-is_kept :
    (done : TaskDone) (now : ℕ) (call : ActiveCall) (r : CallTurn)
    → is_spared done now call r ≡ is_kept done now call r
unfolding turn_owner_is_live
is_spared-eq-is_kept done now call r =
    by_owner r.owner_token (get call.turn_owners r.turn_id) (get call.turn_owner_tasks r.turn_id)
      r.lease_expires_at
  where
    by_owner :
        (token registered task lease : Option ℕ)
        → (is_some token && (registered ==? token) && task_is_live done task)
            || (not (is_some token && (registered ==? token)) && lease_runs now lease)
          ≡ (if is_known registered token then not (task_done done task) else is_leased now lease)
    by_owner none registered task lease = by_lease lease
      where
        by_lease : (lease : Option ℕ) → lease_runs now lease ≡ is_leased now lease
        by_lease none = refl
        by_lease (some t) = refl
    by_owner (some o) registered task lease = ground arith

stale_row_self :
    (done : TaskDone) (now : ℕ) (call : ActiveCall) (r : CallTurn)
    → is_active r.state ≡ true
    → is_kept done now call r ≡ false
    → stale_row now (owner_known_dead call r) r r ≡ true
stale_row_self done now call r a k =
    ground (arith, k, is_spared-eq-is_kept done now call r, ==_refl r.id, ==?_refl r.owner_token)

abbrev repaired_db : TaskDone → ℕ → World → CallTurn → Db
repaired_db done now w r = record w.db {
  turns = update_where (stale_row now (owner_known_dead w.call r) r) (close failed now) w.db.turns;
}

terminalize_stale-db :
    (done : TaskDone) (now : ℕ) (w : World) (r : CallTurn)
    → (terminalize_stale done now w r).db ≡ (
        if is_active r.state && not (is_kept done now w.call r)
        then repaired_db done now w r
        else w.db)
unfolding terminalize_stale
terminalize_stale-db done now w r =
    let spared : (terminalize_stale done now w r).db ≡ (
        if is_active r.state && not (is_spared done now w.call r)
        then repaired_db done now w r
        else w.db) =
      ground arith in
    rw (← is_spared-eq-is_kept done now w.call r) spared

-- The durable row after the repair: an active row stays as it is while the owner that this process
-- registered for it has no task known to be done, and, with any other owner, while its lease runs; else
-- it is failed, with no owner and no lease. A row that is not active stays.
pub terminalize_stale-repaired :
    (done : TaskDone) (now : ℕ) (w : World) (r : CallTurn)
    → find_turn w.call.call_id r.turn_id w.db.turns ≡ some r
    → find_turn w.call.call_id r.turn_id (terminalize_stale done now w r).db.turns
      ≡ some (repaired done now w.call r)
terminalize_stale-repaired done now w r e =
    rw (terminalize_stale-db done now w r)
      (elim (Bool-cases (is_active r.state && not (is_kept done now w.call r))) [
        | inr k ↦ rw k e
        | inl k ↦
            let self = stale_row_self done now w.call r (ground arith) (ground arith) in
            rw
              (
                k,
                find_turn-update_where (stale_row now (owner_known_dead w.call r) r)
                    (close failed now) w.call.call_id r.turn_id w.db.turns (λ x. (refl, refl)),
                e,
                self,
              )
              refl
      ])

terminalize_stale-loaded :
    (done : TaskDone) (now : ℕ) (w : World) (r : CallTurn)
    → (terminalize_stale done now w r).turn ≡ (
        if is_active r.state && not (is_kept done now w.call r)
        then if rowcount (stale_row now (owner_known_dead w.call r) r) w.db.turns == 1
          then record r { state = failed; owner_token = none; lease_expires_at = none }
          else refresh r (find_turn r.call_id r.turn_id (repaired_db done now w r).turns)
        else r)
unfolding terminalize_stale
terminalize_stale-loaded done now w r =
    let spared : (terminalize_stale done now w r).turn ≡ (
        if is_active r.state && not (is_spared done now w.call r)
        then if rowcount (stale_row now (owner_known_dead w.call r) r) w.db.turns == 1
          then record r { state = failed; owner_token = none; lease_expires_at = none }
          else refresh r (find_turn r.call_id r.turn_id (repaired_db done now w r).turns)
        else r) =
      ground arith in
    rw (← is_spared-eq-is_kept done now w.call r) spared

-- The loaded row agrees with the durable one on the state and on everything that a reservation reports.
terminalize_stale-turn :
    (done : TaskDone) (now : ℕ) (w : World) (r : CallTurn)
    → find_turn w.call.call_id r.turn_id w.db.turns ≡ some r
    → let t = (terminalize_stale done now w r).turn in
      (t.state ≡ (repaired done now w.call r).state)
      × (t.request_sha256 ≡ r.request_sha256)
      × (t.assistant_message_id ≡ r.assistant_message_id)
      × (t.turn_id ≡ r.turn_id)
terminalize_stale-turn done now w r e =
    rw (terminalize_stale-loaded done now w r)
      (elim (Bool-cases (is_active r.state && not (is_kept done now w.call r))) [
        | inr k ↦ rw k (refl, refl, refl, refl)
        | inl k ↦
            let p = stale_row now (owner_known_dead w.call r) r in
            let self = stale_row_self done now w.call r (ground arith) (ground arith) in
            let here =
              subst (λ c. find_turn c r.turn_id w.db.turns ≡ some r)
                (sym (find_turn_key w.call.call_id r.turn_id w.db.turns r e).0) e in
            elim (Bool-cases (rowcount p w.db.turns == 1)) [
              | inl one ↦ rw (k, one) (refl, refl, refl, refl)
              | inr many ↦
                  rw
                    (
                      k,
                      many,
                      find_turn-update_where p (close failed now) r.call_id r.turn_id w.db.turns
                          (λ x. (refl, refl)),
                      here,
                      self,
                    )
                    (refl, refl, refl, refl)
            ]
      ])

terminalize_stale-length :
    (done : TaskDone) (now : ℕ) (w : World) (r : CallTurn)
    → length (terminalize_stale done now w r).db.turns ≡ length w.db.turns
terminalize_stale-length done now w r =
    rw (terminalize_stale-db done now w r)
      (elim (Bool-cases (is_active r.state && not (is_kept done now w.call r))) [
        | inr k ↦ rw k refl
        | inl k ↦ rw k (length-update_where _ _ w.db.turns)
      ])

terminalize_stale-messages :
    (done : TaskDone) (now : ℕ) (w : World) (r : CallTurn)
    → (terminalize_stale done now w r).db.messages ≡ w.db.messages
terminalize_stale-messages done now w r = rw (terminalize_stale-db done now w r) (ground arith)

-- Asking again for a turn whose row is there never creates one. The reservation reports the state that
-- the row has after the repair and whether the request is the same, and no row is added.
pub reserve_call_turn_again :
    (done : TaskDone) (now : ℕ) (w : World) (q : Request) (c : Commit) (r : CallTurn)
    → w.call.ended_at ≡ none
    → find_turn w.call.call_id q.turn_id w.db.turns ≡ some r
    → let (w', res) = reserve_call_turn done now w q c in
      ((v : CallTurnReservation) × (res ≡ ok v)
        × (v.created ≡ false)
        × (v.state ≡ (repaired done now w.call r).state)
        × (v.request_matches ≡ r.request_sha256 == q.request_sha256))
      × (find_turn w.call.call_id q.turn_id w'.db.turns ≡ some (repaired done now w.call r))
      × (length w'.db.turns ≡ length w.db.turns)
      × (w'.db.messages ≡ w.db.messages)
unfolding reserve_call_turn
reserve_call_turn_again done now w q c r live e =
    let running : is_some w.call.ended_at ≡ false = ap is_some live in
    let key = (find_turn_key w.call.call_id q.turn_id w.db.turns r e).1 in
    let here = subst (λ t. find_turn w.call.call_id t w.db.turns ≡ some r) (sym key) e in
    let kept = terminalize_stale-repaired done now w r here in
    let (state, sha, answer, id) = terminalize_stale-turn done now w r here in
    rw (running, e, reserve_call_turn)
      (
        (
          turn_reservation (terminalize_stale done now w r).db (terminalize_stale done now w r).turn
              q.request_sha256,
          refl,
          refl,
          state,
          ap (λ x. x == q.request_sha256) sha,
        ),
        subst
            (λ t.
              find_turn w.call.call_id t (terminalize_stale done now w r).db.turns
              ≡ some (repaired done now w.call r))
            key kept,
        terminalize_stale-length done now w r,
        terminalize_stale-messages done now w r,
      )
