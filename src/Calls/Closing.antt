-- ===== src/Calls/Closing.antt =====
-- The end of a call: `begin_end` and `end_call` of web-ui/server/app/domain/call_service.py.
use ray_me.Base.{
  get, get, get, get, get, get, ℕ, true, false, ◌≡◌, refl, inl, inr, some, arith, Bool-cases, List,
  [], ◌∷◌, ◌++◌, is_some, contains-discard_self, contains-discard_ne, get, ==_refl, ==_iff, ◌==◌,
  All, discard, contains, ap, ◌∙◌, ◌⊎◌, Bool, Option, none, if◌then◌else◌,
}
use ray_me.Calls.Types.{
  TurnState, cancelled, CallTurn, Message, Db, World, ok, is_active, call_end, event,
}
use ray_me.Calls.Rows.{
  find_thread, update_where, close, new_message, next_sequence, touch_thread, Draft, find_turn,
}
use ray_me.Calls.End.{
  begin_end, cancel_turns, close_call, closed_db, end_call, active_row, difference, cancel_states,
  plain_draft,
}
use ray_me.Calls.Flow.Owned.{stage_message_succeeds}
use ray_me.Calls.Duplicates.{find_turn_key}
use ray_me.Calls.Safety.Rows.{find_turn-update_where, lookup_map}

-- No turn of the call is reserved or running: not durably, and not in the call's own view, which
-- holds no cancelled task either.
pub record IsClosed (w : World) : Type 0 where
  pub ended : is_some w.call.ended_at ≡ true
  pub rows : All (λ r. active_row w.call.call_id r ≡ false) w.db.turns
  pub states : (t : ℕ) (s : TurnState) → get w.call.turn_states t ≡ some s → is_active s ≡ false
  pub tasks : w.call.active_turn_tasks ≡ []

closed_rows :
    (c now : ℕ) (rows : List CallTurn)
    → All (λ r. active_row c r ≡ false) (update_where (active_row c) (close cancelled now) rows)
unfolding update_where
closed_rows c now [] = tt
closed_rows c now (r ∷ rows) = (ground arith, closed_rows c now rows)

get-cancel_states :
    (m : List (ℕ × TurnState)) (t : ℕ) (s : TurnState)
    → get (cancel_states m) t ≡ some s
    → is_active s ≡ false
unfolding cancel_states
get-cancel_states [] t s e = cc
get-cancel_states ((i, x) ∷ m) t s e = ground (arith, get-cancel_states m t s)

contains-nil : (xs : List ℕ) → ((a : ℕ) → contains xs a ≡ false) → xs ≡ []
contains-nil [] h = refl
contains-nil (x ∷ xs) h = ground (arith, h x, ==_refl x)

difference-nil :
    (xs ys : List ℕ)
    → ((a : ℕ) → contains xs a ≡ true → contains ys a ≡ true)
    → difference xs ys ≡ []
difference-nil xs [] h = contains-nil xs (λ a. ground (arith, h a))
difference-nil xs (y ∷ ys) h = difference-nil (discard y xs) ys (λ a c. elim (Bool-cases (y == a)) [
  | inl e ↦ ground (arith, contains-discard_self y xs, (==_iff y a).0 e)
  | inr e ↦ ground (arith, h a, contains-discard_ne y a xs e)
])

difference_self : (xs : List ℕ) → difference xs xs ≡ []
difference_self xs = difference-nil xs xs (λ a h. h)

get-cancel_states-of :
    (m : List (ℕ × TurnState)) (t : ℕ) (s : TurnState)
    → get m t ≡ some s
    → get (cancel_states m) t ≡ some (if is_active s then cancelled else s)
unfolding cancel_states
get-cancel_states-of [] t s e = cc
get-cancel_states-of ((i, x) ∷ m) t s e = ground (arith, get-cancel_states-of m t s)

-- How the rows of the database and the states of the call's own view follow from those before.
pub record CancelsActive (now : ℕ) (w w' : World) : Type 0 where
  pub open_rows :
      (t : ℕ) (r : CallTurn)
      → find_turn w.call.call_id t w.db.turns ≡ some r
      → is_active r.state ≡ true
      → find_turn w.call.call_id t w'.db.turns
        ≡ some (record r {
          state = cancelled;
          owner_token = none;
          lease_expires_at = none;
          updated_at = now;
        })
  pub other_rows :
      (c t : ℕ) (r : CallTurn)
      → find_turn c t w.db.turns ≡ some r
      → (is_active r.state ≡ false) ⊎ (c == w.call.call_id ≡ false)
      → find_turn c t w'.db.turns ≡ some r
  pub no_rows : (c t : ℕ) → find_turn c t w.db.turns ≡ none → find_turn c t w'.db.turns ≡ none
  pub open_states :
      (t : ℕ) (s : TurnState)
      → get w.call.turn_states t ≡ some s
      → is_active s ≡ true
      → get w'.call.turn_states t ≡ some cancelled
  pub other_states :
      (t : ℕ) (s : TurnState)
      → get w.call.turn_states t ≡ some s
      → is_active s ≡ false
      → get w'.call.turn_states t ≡ some s

find_turn-closed :
    (w : World) (now c t : ℕ) (o : Option CallTurn)
    → find_turn c t w.db.turns ≡ o
    → find_turn c t (closed_db w now).turns
      ≡ lookup_map (λ r. if active_row w.call.call_id r then close cancelled now r else r) o
find_turn-closed w now c t o e =
    find_turn-update_where (active_row w.call.call_id) (close cancelled now) c t w.db.turns
      (λ r. (refl, refl))
    ∙ ap (lookup_map (λ r. if active_row w.call.call_id r then close cancelled now r else r)) e

closed_as :
    (b : Bool) (now : ℕ) (call : ℕ) (r : CallTurn)
    → active_row call r ≡ b
    → lookup_map (λ x. if active_row call x then close cancelled now x else x) (some r)
      ≡ some (if b then close cancelled now r else r)
closed_as b now call r e = ap (λ (x : Bool). some (if x then close cancelled now r else r)) e

closed-CancelsActive :
    (w w' : World) (now : ℕ)
    → w'.db.turns ≡ (closed_db w now).turns
    → w'.call.turn_states ≡ cancel_states w.call.turn_states
    → CancelsActive now w w'
closed-CancelsActive w w' now e s = record {
  open_rows = λ t r h a.
      let key = (find_turn_key w.call.call_id t w.db.turns r h).0 in
      rw e (
        find_turn-closed w now w.call.call_id t (some r) h
        ∙ closed_as true now w.call.call_id r (ground (arith, key, a, ==_refl w.call.call_id)));
  other_rows = λ c t r h o.
      let key = (find_turn_key c t w.db.turns r h).0 in
      rw e (
        find_turn-closed w now c t (some r) h
        ∙ closed_as false now w.call.call_id r (ground (arith, key, o)));
  no_rows = λ c t h. rw e (find_turn-closed w now c t none h);
  open_states = λ t x h a. rw s (
      get-cancel_states-of w.call.turn_states t x h
      ∙ ap (λ (b : Bool). some (if b then cancelled else x)) a);
  other_states = λ t x h a. rw s (
      get-cancel_states-of w.call.turn_states t x h
      ∙ ap (λ (b : Bool). some (if b then cancelled else x)) a);
}

abbrev end_draft : ℕ → Draft
end_draft message = plain_draft message "Call ended" call_end event

close_call_succeeds :
    (w : World) (message now : ℕ)
    → is_some (find_thread w.call.thread_id w.db.threads) ≡ true
    → w.call.end_message_recorded ≡ false
    → (b : Db) × (close_call w message now
        ≡ (record { call = record w.call { end_message_recorded = true }; db = b }, ok tt))
      × (b.turns ≡ (closed_db w now).turns)
      × ((m : Message) × (b.messages ≡ w.db.messages ++ m ∷ []) × (m.message_kind ≡ call_end))
unfolding close_call
close_call_succeeds w message now h n =
    let staged =
      stage_message_succeeds (closed_db w now) w.call.thread_id now (end_draft message) h in
    (
      record (closed_db w now) {
        messages =
            w.db.messages
            ++ new_message (end_draft message) w.call.thread_id now
                (next_sequence w.call.thread_id w.db.messages)
              ∷ [];
        threads = touch_thread w.call.thread_id now w.db.threads;
      },
      simp (n, staged) refl,
      refl,
      (_, refl, refl),
    )

-- Ending a call whose thread is there, and whose end is not recorded yet, cancels each of its turns
-- that is reserved or running, durably with no owner and no lease and in the call's own view, keeps
-- every other row and every other state of that view, leaves no task, and adds one message,
-- "Call ended", behind the others.
pub end_call-IsClosed :
    (w : World) (message now : ℕ)
    → is_some (find_thread w.call.thread_id w.db.threads) ≡ true
    → w.call.end_message_recorded ≡ false
    → let (w', r) = end_call w message now in
      (r ≡ ok tt)
      × IsClosed w'
      × CancelsActive now w w'
      × ((m : Message) × (w'.db.messages ≡ w.db.messages ++ m ∷ []) × (m.message_kind ≡ call_end))
unfolding end_call
end_call-IsClosed w message now h n =
    let u = cancel_turns (begin_end w now).0 w.call.active_turn_tasks in
    let (b, e, rows, message_added) = close_call_succeeds u message now h n in
    rw (e, end_call)
      (
        refl,
        record {
          ended = ground arith;
          rows = rw rows (closed_rows w.call.call_id now w.db.turns);
          states = get-cancel_states w.call.turn_states;
          tasks = difference_self w.call.active_turn_tasks;
        },
        closed-CancelsActive w _ now rows refl,
        message_added,
      )
