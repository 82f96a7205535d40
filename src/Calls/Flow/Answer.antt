-- ===== src/Calls/Flow/Answer.antt =====
-- A running turn that is answered: `record_completed_ai_speech` of web-ui/server/app/domain/call_service.py.
use ray_me.Base.{
  max, ℕ, ◌+◌, true, false, ◌≡◌, refl, ap, some, arith, String, List, [], ◌∷◌, ◌++◌, is_some, ◌||◌,
  not, get, put, get-put, contains, ==_refl, ◌==?◌, discard, add,
}
use ray_me.Calls.Types.{CallTurn, Message, Db, World, ok, is_running, reserved, running, completed}
use ray_me.Calls.Rows.{
  find_turn, modify_turn, touch_thread, stage_message, new_message, next_sequence,
}
use ray_me.Calls.Reserve.{TaskDone, reserve_call_turn, Request, committed}
use ray_me.Calls.Record.{
  owns, record_reserved_user_speech, start_running, user_draft, ai_draft, complete_row,
  SpeechTurnTerminal, played_out, admit_completion, gate_completion, commit_completion,
  decide_completion, settled, record_completed_ai_speech,
}
use ray_me.Calls.Flow.Owned.{
  Owned, Unknown, reserve_call_turn-Owned, record_reserved_user_speech-Owned,
  record_reserved_user_speech-heard, stage_message_succeeds, find_turn-modified, first_row,
  create_turn-keeps, heard,
}

abbrev answered : World → ℕ → Message → Db → ℕ → World
answered w turn m b now = record {
  call = record w.call {
    pending_ai_turn_ids = discard turn (add turn w.call.pending_ai_turn_ids);
    completed_ai_turn_ids = add turn w.call.completed_ai_turn_ids;
    turn_states = put w.call.turn_states turn completed;
  };
  db = record b { turns = modify_turn w.call.call_id turn (complete_row m.id now) b.turns };
}

abbrev awaiting : World → ℕ → World
awaiting w turn = record w {
  call = record w.call { pending_ai_turn_ids = add turn w.call.pending_ai_turn_ids };
}

admit_completion-awaiting :
    (w : World) (turn owner : ℕ) (row : CallTurn) (t : SpeechTurnTerminal)
    → Owned w running turn owner row
    → played_out t ≡ true
    → admit_completion w turn t (some owner) ≡ (awaiting w turn, true)
unfolding admit_completion
admit_completion-awaiting w turn owner row t h p =
    let passes : not (played_out t)
          || is_some w.call.ended_at
          || not (owns is_running w.call turn (some owner))
          || contains w.call.completed_ai_turn_ids turn
          || contains w.call.pending_ai_turn_ids turn
        ≡ false =
      rw (p, h.live, h.known, h.mine, ==_refl owner, h.not_completed, h.not_pending) refl in
    rw (passes, admit_completion) refl

gate_completion_opens :
    (w : World) (turn owner : ℕ) (row : CallTurn)
    → Owned w running turn owner row
    → gate_completion (awaiting w turn) turn (some owner) ≡ (awaiting w turn, true)
unfolding gate_completion
gate_completion_opens w turn owner row h =
    let passes : is_some w.call.ended_at || not (get w.call.turn_owners turn ==? some owner)
        ≡ false =
      rw (h.live, h.mine, ==_refl owner) refl in
    rw (passes, gate_completion) refl

decide_completion-answered :
    (w : World) (turn owner : ℕ) (row : CallTurn) (now : ℕ) (m : Message) (b : Db)
    → row.state ≡ running
    → row.owner_token ≡ some owner
    → decide_completion (awaiting w turn) turn (some owner) now settled (some row) (ok (m, b))
      ≡ (answered w turn m b now, ok (some m))
unfolding decide_completion
decide_completion-answered w turn owner row now m b s o = ground (arith, ==_refl owner)

commit_completion-answered :
    (w : World) (turn owner : ℕ) (row : CallTurn) (text : String) (message now : ℕ) (m : Message)
    (b : Db)
    → Owned w running turn owner row
    → stage_message w.db w.call.thread_id (ai_draft message w.call.call_id turn text) now
      ≡ ok (m, b)
    → commit_completion (awaiting w turn) turn (some owner) text message now settled
      ≡ (answered w turn m b now, ok (some m))
unfolding commit_completion
commit_completion-answered w turn owner row text message now m b h s =
    let e : is_some w.call.ended_at ≡ false = ap is_some h.live in
    rw (s, e, h.durable, commit_completion)
      (decide_completion-answered w turn owner row now m b h.row_state h.row_owner)

record_completed_ai_speech-answered :
    (w : World) (turn owner : ℕ) (row : CallTurn) (text : String) (t : SpeechTurnTerminal)
    (message now : ℕ) (m : Message) (b : Db)
    → Owned w running turn owner row
    → played_out t ≡ true
    → stage_message w.db w.call.thread_id (ai_draft message w.call.call_id turn text) now
      ≡ ok (m, b)
    → record_completed_ai_speech w turn text t (some owner) message now settled
      ≡ (answered w turn m b now, ok (some m))
unfolding record_completed_ai_speech
record_completed_ai_speech-answered w turn owner row text t message now m b h p s =
    rw
      (
        admit_completion-awaiting w turn owner row t h p,
        gate_completion_opens w turn owner row h,
        record_completed_ai_speech,
      )
      (commit_completion-answered w turn owner row text message now m b h s)

-- The row that a turn ends with when it is answered.
abbrev pub answered_row : CallTurn → ℕ → ℕ → ℕ → ℕ → CallTurn
answered_row row said spoken heard_at spoken_at =
    complete_row spoken spoken_at (start_running said heard_at row)

next_sequence-append :
    (k : ℕ) (xs ys : List Message)
    → next_sequence k (xs ++ ys) ≡ max (next_sequence k xs) (next_sequence k ys)
unfolding next_sequence
next_sequence-append k [] ys = omega arith
next_sequence-append k (x ∷ xs) ys = ground (arith, next_sequence-append k xs ys)

next_sequence-snoc :
    (k : ℕ) (ms : List Message) (m : Message)
    → m.thread_id ≡ k
    → m.sequence ≡ next_sequence k ms
    → next_sequence k (ms ++ m ∷ []) ≡ m.sequence + 1
unfolding next_sequence
next_sequence-snoc k ms m t e = rw (next_sequence-append k ms (m ∷ [])) (ground (arith, ==_refl k))

-- What a reserved turn comes to, in terms of the world in which it was reserved.
record Answered (w v : World) (turn : ℕ) (row : CallTurn) (words answer : String) : Type 0 where
  completed_row : find_turn w.call.call_id turn v.db.turns ≡ some row
  in_memory : get v.call.turn_states turn ≡ some completed
  spoken :
      (m : Message) × (n : Message) × (v.db.messages ≡ (w.db.messages ++ m ∷ []) ++ n ∷ [])
      × (m.content_text ≡ words)
      × (n.content_text ≡ answer)
      × (n.call_turn_id ≡ some turn)
      × (n.sequence ≡ m.sequence + 1)

reserved-Answered :
    (w : World) (turn owner : ℕ) (row : CallTurn) (words answer : String) (t : SpeechTurnTerminal)
    (said spoken now₂ now₃ : ℕ)
    → Owned w reserved turn owner row
    → played_out t ≡ true
    → let w₂ = (record_reserved_user_speech w turn words (some owner) said now₂ true).0 in
      Answered w
        (record_completed_ai_speech w₂ turn answer t (some owner) spoken now₃ settled).0
        turn
        (answered_row row said spoken now₂ now₃)
        words
        answer
reserved-Answered w turn owner row words answer t said spoken now₂ now₃ h p =
    let m =
      new_message (user_draft said words) w.call.thread_id now₂
        (next_sequence w.call.thread_id w.db.messages) in
    let staged =
      stage_message_succeeds w.db w.call.thread_id now₂ (user_draft said words) h.in_thread in
    let running_turn = record_reserved_user_speech-Owned w turn owner row words said now₂ h in
    let e = record_reserved_user_speech-heard w turn owner row words said now₂ m _ h staged in
    rw e (go (rw e at running_turn))
  where
    b : Db
    b = record w.db {
      messages =
          w.db.messages
          ++ new_message (user_draft said words) w.call.thread_id now₂
              (next_sequence w.call.thread_id w.db.messages)
            ∷ [];
      threads = touch_thread w.call.thread_id now₂ w.db.threads;
    }

    v : World
    v =
        heard w turn
          (new_message (user_draft said words) w.call.thread_id now₂
            (next_sequence w.call.thread_id w.db.messages))
          b now₂

    go :
        Owned v running turn owner (start_running said now₂ row)
        → Answered w
            (record_completed_ai_speech v turn answer t (some owner) spoken now₃ settled).0
            turn
            (answered_row row said spoken now₂ now₃)
            words
            answer
    go o =
        let n =
          new_message (ai_draft spoken v.call.call_id turn answer) v.call.thread_id now₃
            (next_sequence v.call.thread_id v.db.messages) in
        let staged =
          stage_message_succeeds v.db v.call.thread_id now₃
            (ai_draft spoken v.call.call_id turn answer) o.in_thread in
        rw
          (record_completed_ai_speech-answered v turn owner (start_running said now₂ row) answer t
            spoken now₃ n _ o p staged)
          (record {
            completed_row =
                find_turn-modified v.call.call_id turn (complete_row spoken now₃) v.db.turns
                  (start_running said now₂ row) (λ r. (refl, refl)) o.durable;
            in_memory = rw (get-put v.call.turn_states turn turn completed, ==_refl turn) refl;
            spoken = (
              new_message (user_draft said words) w.call.thread_id now₂
                  (next_sequence w.call.thread_id w.db.messages),
              n,
              refl,
              refl,
              refl,
              refl,
              next_sequence-snoc w.call.thread_id w.db.messages _ refl refl,
            );
          })

-- Reserving an unknown turn of a live call, recording the user's words, and recording the answer
-- after its completed playout, all under one owner and with commits that succeed, leaves the thread
-- with the two messages behind its old ones, the answer in the place after the words, and the turn
-- completed with both message ids, no owner and no lease.
pub answer_flow :
    (done : TaskDone) (w : World) (q : Request) (words answer : String) (t : SpeechTurnTerminal)
    (said spoken now₁ now₂ now₃ : ℕ)
    → Unknown w q.turn_id
    → played_out t ≡ true
    → let w₁ = (reserve_call_turn done now₁ w q committed).0 in
      let w₂ =
        (record_reserved_user_speech w₁ q.turn_id words (some q.owner_token) said now₂ true).0 in
      let w₃ =
        (record_completed_ai_speech w₂ q.turn_id answer t
          (some q.owner_token)
          spoken
          now₃
          settled).0 in
      (find_turn w.call.call_id q.turn_id w₃.db.turns
        ≡ some (answered_row (first_row now₁ w q) said spoken now₂ now₃))
      × (get w₃.call.turn_states q.turn_id ≡ some completed)
      × ((m : Message) × (n : Message) × (w₃.db.messages ≡ (w.db.messages ++ m ∷ []) ++ n ∷ [])
          × (m.content_text ≡ words)
          × (n.content_text ≡ answer)
          × (n.call_turn_id ≡ some q.turn_id)
          × (n.sequence ≡ m.sequence + 1))
answer_flow done w q words answer t said spoken now₁ now₂ now₃ u p =
    let (call, thread, messages) = create_turn-keeps done now₁ w q u in
    let a =
      reserved-Answered (reserve_call_turn done now₁ w q committed).0 q.turn_id q.owner_token
        (first_row now₁ w q) words answer t said spoken now₂ now₃
        (reserve_call_turn-Owned done now₁ w q u) p in
    (rw call at a.completed_row, a.in_memory, rw messages at a.spoken)
