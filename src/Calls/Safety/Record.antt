-- ===== src/Calls/Safety/Record.antt =====
-- The writers of a turn only let the database evolve.
use ray_me.Base.{
  ℕ, Bool, true, not, ◌≡◌, refl, sym, subst, inl, inr, Option, none, some, arith, ap, Bool-cases,
  is_some, String, ◌&&◌, ◌||◌,
}
use ray_me.Calls.Types.{
  TurnState, is_active, is_reserved, is_running, CallTurn, Message, Db, World, Result, ok, err,
}
use ray_me.Calls.Rows.{find_turn, modify_turn, close, Draft, stage_message}
use ray_me.Calls.Record.{
  row_owned, commit_user_speech, record_reserved_user_speech, resolved_owner, owns, user_draft,
  start_running, SpeechTurnTerminal, admit_completion, gate_completion, Settle, settled,
  flush_refused, refused, failing, settle_completion, after_refusal, decide_completion,
  commit_completion, ai_draft, complete_row, is_staged, is_flush_refused, finish_row,
  finish_call_turn,
}
use ray_me.Calls.Safety.Rows.{KeepsKey, stage_message_lem}
use ray_me.Calls.Safety.Evolves.{
  Evolves, Evolves-refl, Evolves-trans, Evolves-modify_turn, Evolves-message, Evolves-completion,
}

-- Staging a message that speaks for no turn.
pub stage_message-Evolves :
    (a b : Db) (thread now : ℕ) (d : Draft) (m : Message)
    → d.call_id ≡ none
    → stage_message a thread d now ≡ ok (m, b)
    → Evolves a b
stage_message-Evolves a b thread now d m n e =
    let (same, msgs, rows) = stage_message_lem a b thread now d m e in
    Evolves-message a b m (rw same) (rw same n) msgs rows

-- A row that is changed in a database with the same turns.
modify_staged :
    (a b : Db) (c t : ℕ) (f : CallTurn → CallTurn) (r : CallTurn)
    → Evolves a b
    → b.turns ≡ a.turns
    → KeepsKey f
    → find_turn c t a.turns ≡ some r
    → is_active r.state ≡ true
    → Evolves a (record b { turns = modify_turn c t f b.turns })
modify_staged a b c t f r s e k found act =
    Evolves-trans a b _ s (Evolves-modify_turn b c t f r k (rw e found) act)

commit_user_speech-Evolves :
    (w : World) (turn : ℕ) (owner : Option ℕ) (now message : ℕ) (text : String) (commits : Bool)
    (found : Option CallTurn) (staged : Result (Message × Db))
    → find_turn w.call.call_id turn w.db.turns ≡ found
    → stage_message w.db w.call.thread_id (user_draft message text) now ≡ staged
    → Evolves w.db (commit_user_speech w turn owner now commits found staged).0.db
unfolding commit_user_speech
commit_user_speech-Evolves w turn owner now message text commits found (err e) f s =
    Evolves-refl w.db
commit_user_speech-Evolves w turn owner now message text commits none (ok p) f s = Evolves-refl w.db
commit_user_speech-Evolves w turn owner now message text commits (some r) (ok (m, b)) f s =
    elim (Bool-cases (row_owned is_reserved owner r)) [
      | inr e ↦ rw (e, commit_user_speech) (Evolves-refl w.db)
      | inl e ↦ elim (Bool-cases commits) [
        | inr g ↦ rw (e, g, commit_user_speech) (Evolves-refl w.db)
        | inl g ↦
            rw (e, g, commit_user_speech)
              (modify_staged w.db b w.call.call_id turn (start_running m.id now) r
                (stage_message-Evolves w.db b w.call.thread_id now (user_draft message text) m refl
                  s)
                (stage_message_lem w.db b w.call.thread_id now (user_draft message text) m s).2
                (λ x. (refl, refl)) f (ground arith))
      ]
    ]

pub record_reserved_user_speech-Evolves :
    (w : World) (turn : ℕ) (text : String) (given : Option ℕ) (message now : ℕ) (commits : Bool)
    → Evolves w.db (record_reserved_user_speech w turn text given message now commits).0.db
unfolding record_reserved_user_speech
record_reserved_user_speech-Evolves w turn text given message now commits =
    let owner = resolved_owner w.call turn given in
    elim (Bool-cases (is_some w.call.ended_at || not (owns is_reserved w.call turn owner))) [
      | inl e ↦ rw (e, record_reserved_user_speech) (Evolves-refl w.db)
      | inr e ↦
          rw (e, record_reserved_user_speech)
            (commit_user_speech-Evolves w turn owner now message text commits _ _ refl refl)
    ]

after_refusal-db : (w : World) (turn : ℕ) → (after_refusal w turn).0.db ≡ w.db
unfolding after_refusal
after_refusal-db w turn = ground arith

unchanged : (w : World) (b : Db) → b ≡ w.db → Evolves w.db b
unchanged w b e = subst (Evolves w.db) (sym e) (Evolves-refl w.db)

settle_completion-Evolves :
    (w : World) (turn now message : ℕ) (text : String) (how : Settle) (r : CallTurn) (m : Message)
    (b : Db)
    → find_turn w.call.call_id turn w.db.turns ≡ some r
    → is_active r.state ≡ true
    → stage_message w.db w.call.thread_id (ai_draft message w.call.call_id turn text) now
      ≡ ok (m, b)
    → Evolves w.db (settle_completion w turn now how m b).0.db
unfolding settle_completion
settle_completion-Evolves w turn now message text settled r m b f act s =
    let draft = ai_draft message w.call.call_id turn text in
    let (same, msgs, rows) = stage_message_lem w.db b w.call.thread_id now draft m s in
    Evolves-completion w.db _ m w.call.call_id turn (complete_row m.id now) r (rw same) (rw same)
      (rw same) (λ x. (refl, refl)) refl f act msgs
      (ap (modify_turn w.call.call_id turn (complete_row m.id now)) rows)
settle_completion-Evolves w turn now message text flush_refused r m b f act s =
    unchanged w _ (after_refusal-db w turn)
settle_completion-Evolves w turn now message text refused r m b f act s =
    unchanged w _ (after_refusal-db w turn)
settle_completion-Evolves w turn now message text (failing e) r m b f act s = Evolves-refl w.db

decide_completion-Evolves :
    (w : World) (turn : ℕ) (owner : Option ℕ) (now message : ℕ) (text : String) (how : Settle)
    (found : Option CallTurn) (staged : Result (Message × Db))
    → find_turn w.call.call_id turn w.db.turns ≡ found
    → stage_message w.db w.call.thread_id (ai_draft message w.call.call_id turn text) now ≡ staged
    → Evolves w.db (decide_completion w turn owner now how found staged).0.db
unfolding decide_completion
decide_completion-Evolves w turn owner now message text how found (err e) f s = Evolves-refl w.db
decide_completion-Evolves w turn owner now message text how none (ok p) f s = Evolves-refl w.db
decide_completion-Evolves w turn owner now message text how (some r) (ok (m, b)) f s =
    elim (Bool-cases (row_owned is_running owner r)) [
      | inr e ↦ rw (e, decide_completion) (Evolves-refl w.db)
      | inl e ↦
          rw (e, decide_completion)
            (settle_completion-Evolves w turn now message text how r m b f (ground arith) s)
    ]

pub commit_completion-Evolves :
    (w : World) (turn : ℕ) (owner : Option ℕ) (text : String) (message now : ℕ) (how : Settle)
    → Evolves w.db (commit_completion w turn owner text message now how).0.db
unfolding commit_completion
commit_completion-Evolves w turn owner text message now how =
    let s = stage_message w.db w.call.thread_id (ai_draft message w.call.call_id turn text) now in
    elim (Bool-cases (is_staged s && is_flush_refused how)) [
      | inl e ↦ rw (e, commit_completion) (unchanged w _ (after_refusal-db w turn))
      | inr e ↦ elim (Bool-cases (is_staged s && is_some w.call.ended_at)) [
        | inl g ↦ rw (e, g, commit_completion) (Evolves-refl w.db)
        | inr g ↦
            rw (e, g, commit_completion)
              (decide_completion-Evolves w turn owner now message text how _ _ refl refl)
      ]
    ]

pub admit_completion-db :
    (w : World) (turn : ℕ) (t : SpeechTurnTerminal) (given : Option ℕ)
    → (admit_completion w turn t given).0.db ≡ w.db
unfolding admit_completion
admit_completion-db w turn t given = ground arith

pub gate_completion-db :
    (w : World) (turn : ℕ) (owner : Option ℕ) → (gate_completion w turn owner).0.db ≡ w.db
unfolding gate_completion
gate_completion-db w turn owner = ground arith

finish_row-Evolves :
    (w : World) (turn : ℕ) (state : TurnState) (owner : Option ℕ) (now : ℕ) (commits : Bool)
    (found : Option CallTurn)
    → find_turn w.call.call_id turn w.db.turns ≡ found
    → Evolves w.db (finish_row w turn state owner now commits found).0.db
unfolding finish_row
finish_row-Evolves w turn state owner now commits none f = Evolves-refl w.db
finish_row-Evolves w turn state owner now commits (some r) f =
    elim (Bool-cases (row_owned is_active owner r)) [
      | inr e ↦ rw (e, finish_row) (Evolves-refl w.db)
      | inl e ↦ elim (Bool-cases commits) [
        | inr g ↦ rw (e, g, finish_row) (Evolves-refl w.db)
        | inl g ↦
            rw (e, g, finish_row)
              (Evolves-modify_turn w.db w.call.call_id turn (close state now) r (λ x. (refl, refl))
                f (ground arith))
      ]
    ]

pub finish_call_turn-Evolves :
    (w : World) (turn : ℕ) (state : TurnState) (given : Option ℕ) (now : ℕ) (commits : Bool)
    → Evolves w.db (finish_call_turn w turn state given now commits).0.db
unfolding finish_call_turn
finish_call_turn-Evolves w turn state given now commits =
    let owner = resolved_owner w.call turn given in
    elim (Bool-cases (owns is_active w.call turn owner)) [
      | inr e ↦ rw (e, finish_call_turn) (Evolves-refl w.db)
      | inl e ↦ rw (e, finish_call_turn) (finish_row-Evolves w turn state owner now commits _ refl)
    ]
