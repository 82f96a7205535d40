-- ===== src/Calls/Flow/Owned.antt =====
-- A turn that is reserved and then runs: `reserve_call_turn` and `record_reserved_user_speech` of web-ui/server/app/domain/call_service.py.
use ray_me.Base.{
  ℕ, true, false, ◌≡◌, refl, ap, inl, inr, none, some, arith, Bool-cases, String, List, [], ◌∷◌,
  ◌++◌, is_some, ◌||◌, not, get, put, get-put, contains, ==_refl,
}
use ray_me.Calls.Types.{
  TurnState, CallTurn, Message, Thread, Db, World, ok, is_reserved, reserved, running,
}
use ray_me.Calls.Rows.{
  find_turn, modify_turn, find_thread, touch_thread, Draft, stage_message, new_message,
  next_sequence,
}
use ray_me.Calls.Reserve.{
  TaskDone, reserve_call_turn, create_turn, take_ownership, Request, committed, new_turn, forget,
}
use ray_me.Calls.Record.{
  owns, record_reserved_user_speech, commit_user_speech, start_running, user_draft,
}
use ray_me.Calls.Safety.Rows.{find_turn-append, find_turn-modify_turn, KeepsKey}

-- The turn is in the given state, in the call's view and durably, and `owner` owns it.
pub record Owned (w : World) (state : TurnState) (turn owner : ℕ) (row : CallTurn) : Type 0 where
  pub live : w.call.ended_at ≡ none
  pub known : get w.call.turn_states turn ≡ some state
  pub mine : get w.call.turn_owners turn ≡ some owner
  pub durable : find_turn w.call.call_id turn w.db.turns ≡ some row
  pub row_state : row.state ≡ state
  pub row_owner : row.owner_token ≡ some owner
  pub in_thread : is_some (find_thread w.call.thread_id w.db.threads) ≡ true
  pub not_completed : contains w.call.completed_ai_turn_ids turn ≡ false
  pub not_pending : contains w.call.pending_ai_turn_ids turn ≡ false

-- Nothing is known of the turn, and the call is live in a thread that is there.
pub record Unknown (w : World) (turn : ℕ) : Type 0 where
  pub live : w.call.ended_at ≡ none
  pub absent : find_turn w.call.call_id turn w.db.turns ≡ none
  pub in_thread : is_some (find_thread w.call.thread_id w.db.threads) ≡ true
  pub not_completed : contains w.call.completed_ai_turn_ids turn ≡ false
  pub not_pending : contains w.call.pending_ai_turn_ids turn ≡ false

abbrev pub first_row : ℕ → World → Request → CallTurn
first_row now w q = new_turn q.new_id w.call q.turn_id q.request_sha256 q.owner_token now

find_turn_new :
    (w : World) (q : Request) (now : ℕ)
    → find_turn w.call.call_id q.turn_id (first_row now w q ∷ []) ≡ some (first_row now w q)
unfolding find_turn
find_turn_new w q now = ground (arith, ==_refl w.call.call_id, ==_refl q.turn_id)

create_turn-Owned :
    (done : TaskDone) (now : ℕ) (w : World) (q : Request)
    → Unknown w q.turn_id
    → Owned
        (create_turn done now w q committed).0
        reserved
        q.turn_id
        q.owner_token
        (first_row now w q)
unfolding create_turn take_ownership
create_turn-Owned done now w q u = record {
  live = u.live;
  known = rw (get-put w.call.turn_states q.turn_id q.turn_id reserved, ==_refl q.turn_id) refl;
  mine = rw (get-put w.call.turn_owners q.turn_id q.turn_id q.owner_token, ==_refl q.turn_id) refl;
  durable =
      rw (find_turn-append w.call.call_id q.turn_id w.db.turns (first_row now w q ∷ []), u.absent)
        (find_turn_new w q now);
  row_state = refl;
  row_owner = refl;
  in_thread = u.in_thread;
  not_completed = u.not_completed;
  not_pending = u.not_pending;
}

-- An unknown turn of a live call is reserved for the owner that asks, durably and in the call's view.
pub reserve_call_turn-Owned :
    (done : TaskDone) (now : ℕ) (w : World) (q : Request)
    → Unknown w q.turn_id
    → Owned
        (reserve_call_turn done now w q committed).0
        reserved
        q.turn_id
        q.owner_token
        (first_row now w q)
unfolding reserve_call_turn
reserve_call_turn-Owned done now w q u =
    let e : is_some w.call.ended_at ≡ false = ap is_some u.live in
    elim (Bool-cases (is_some (get w.call.turn_states q.turn_id))) [
      | inl g ↦
          rw (e, u.absent, g, reserve_call_turn)
            (create_turn-Owned done now (record w { call = forget w.call q.turn_id }) q
              (record {
                live = u.live;
                absent = u.absent;
                in_thread = u.in_thread;
                not_completed = u.not_completed;
                not_pending = u.not_pending;
              }))
      | inr g ↦ rw (e, u.absent, g, reserve_call_turn) (create_turn-Owned done now w q u)
    ]

find_thread-touch :
    (k now : ℕ) (ts : List Thread)
    → is_some (find_thread k ts) ≡ true
    → is_some (find_thread k (touch_thread k now ts)) ≡ true
unfolding find_thread touch_thread
find_thread-touch k now [] h = h
find_thread-touch k now (t ∷ ts) h = ground (arith, find_thread-touch k now ts)

-- In a thread that is there a message is staged, and the thread stays there.
pub stage_message_succeeds :
    (db : Db) (thread now : ℕ) (d : Draft)
    → is_some (find_thread thread db.threads) ≡ true
    → stage_message db thread d now
      ≡ ok (
        new_message d thread now (next_sequence thread db.messages),
        record db {
          messages =
              db.messages ++ new_message d thread now (next_sequence thread db.messages) ∷ [];
          threads = touch_thread thread now db.threads;
        },
      )
unfolding stage_message
stage_message_succeeds db thread now d h = ground arith

pub find_turn-modified :
    (c t : ℕ) (f : CallTurn → CallTurn) (rows : List CallTurn) (r : CallTurn)
    → KeepsKey f
    → find_turn c t rows ≡ some r
    → find_turn c t (modify_turn c t f rows) ≡ some (f r)
find_turn-modified c t f rows r k e =
    rw (find_turn-modify_turn c t f c t rows k, ==_refl c, ==_refl t, e) refl

abbrev pub heard : World → ℕ → Message → Db → ℕ → World
heard w turn m b now = record {
  call = record w.call { turn_states = put w.call.turn_states turn running };
  db = record b { turns = modify_turn w.call.call_id turn (start_running m.id now) b.turns };
}

commit_user_speech-heard :
    (w : World) (turn owner : ℕ) (row : CallTurn) (now : ℕ) (m : Message) (b : Db)
    → row.state ≡ reserved
    → row.owner_token ≡ some owner
    → commit_user_speech w turn (some owner) now true (some row) (ok (m, b))
      ≡ (heard w turn m b now, ok (some m))
unfolding commit_user_speech
commit_user_speech-heard w turn owner row now m b s o = ground (arith, ==_refl owner)

pub record_reserved_user_speech-heard :
    (w : World) (turn owner : ℕ) (row : CallTurn) (text : String) (message now : ℕ) (m : Message)
    (b : Db)
    → Owned w reserved turn owner row
    → stage_message w.db w.call.thread_id (user_draft message text) now ≡ ok (m, b)
    → record_reserved_user_speech w turn text (some owner) message now true
      ≡ (heard w turn m b now, ok (some m))
unfolding record_reserved_user_speech
record_reserved_user_speech-heard w turn owner row text message now m b h s =
    let passes : is_some w.call.ended_at || not (owns is_reserved w.call turn (some owner))
        ≡ false =
      rw (h.live, h.known, h.mine, ==_refl owner) refl in
    rw (passes, h.durable, s, record_reserved_user_speech)
      (commit_user_speech-heard w turn owner row now m b h.row_state h.row_owner)

-- The user's words of a reserved turn are recorded, and the turn runs under the same owner.
pub record_reserved_user_speech-Owned :
    (w : World) (turn owner : ℕ) (row : CallTurn) (text : String) (message now : ℕ)
    → Owned w reserved turn owner row
    → Owned
        (record_reserved_user_speech w turn text (some owner) message now true).0
        running
        turn
        owner
        (start_running message now row)
record_reserved_user_speech-Owned w turn owner row text message now h =
    let m =
      new_message (user_draft message text) w.call.thread_id now
        (next_sequence w.call.thread_id w.db.messages) in
    let staged =
      stage_message_succeeds w.db w.call.thread_id now (user_draft message text) h.in_thread in
    rw (record_reserved_user_speech-heard w turn owner row text message now m _ h staged) (record {
      live = h.live;
      known = rw (get-put w.call.turn_states turn turn running, ==_refl turn) refl;
      mine = h.mine;
      durable =
          find_turn-modified w.call.call_id turn (start_running message now) w.db.turns row
            (λ r. (refl, refl)) h.durable;
      row_state = refl;
      row_owner = h.row_owner;
      in_thread = find_thread-touch w.call.thread_id now w.db.threads h.in_thread;
      not_completed = h.not_completed;
      not_pending = h.not_pending;
    })

-- A reservation leaves the call's identity, the messages and the threads alone.
pub create_turn-keeps :
    (done : TaskDone) (now : ℕ) (w : World) (q : Request)
    → Unknown w q.turn_id
    → let w' = (reserve_call_turn done now w q committed).0 in
      (w'.call.call_id ≡ w.call.call_id)
      × (w'.call.thread_id ≡ w.call.thread_id)
      × (w'.db.messages ≡ w.db.messages)
unfolding reserve_call_turn create_turn
create_turn-keeps done now w q u =
    let e : is_some w.call.ended_at ≡ false = ap is_some u.live in
    elim (Bool-cases (is_some (get w.call.turn_states q.turn_id))) [
      | inl g ↦ rw (e, u.absent, g, reserve_call_turn) (refl, refl, refl)
      | inr g ↦ rw (e, u.absent, g, reserve_call_turn) (refl, refl, refl)
    ]
