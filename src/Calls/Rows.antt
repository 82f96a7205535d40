-- ===== src/Calls/Rows.antt =====
-- The tables that web-ui/server/app/domain/call_service.py works on: selecting and updating turns,
-- and staging a message at the end of a thread.
use ray_me.Base.{
  ℕ, ◌+◌, max, Bool, true, false, ◌&&◌, String, Option, none, some, List, [], ◌∷◌, ◌++◌, ◌==◌,
  if◌then◌else◌,
}
use ray_me.Calls.Types.{
  TurnState, CallTurn, MessageKind, Role, Message, Thread, Db, Result, ok, err, thread_not_found,
}

abbrev pub same_turn : ℕ → ℕ → CallTurn → Bool
same_turn call turn r = r.call_id == call && r.turn_id == turn

-- `select(CallTurn).where(call_id == call, turn_id == turn)`.
unfoldable pub find_turn : ℕ → ℕ → List CallTurn → Option CallTurn
find_turn call turn [] = none
find_turn call turn (r ∷ rows) = if same_turn call turn r then some r else find_turn call turn rows

-- Assignments to the attributes of the row that `find_turn` gave.
unfoldable pub modify_turn : ℕ → ℕ → (CallTurn → CallTurn) → List CallTurn → List CallTurn
modify_turn call turn f [] = []
modify_turn call turn f (r ∷ rows) =
    if same_turn call turn r then f r ∷ rows else r ∷ modify_turn call turn f rows

-- `update(CallTurn).where(p).values(...)`, and the number of rows that it matches.
unfoldable pub update_where :
    (CallTurn → Bool) → (CallTurn → CallTurn) → List CallTurn → List CallTurn
update_where p f [] = []
update_where p f (r ∷ rows) = (if p r then f r else r) ∷ update_where p f rows

unfoldable pub rowcount : (CallTurn → Bool) → List CallTurn → ℕ
rowcount p [] = 0
rowcount p (r ∷ rows) = (if p r then 1 else 0) + rowcount p rows

-- The values that end a turn: no owner and no lease are left.
abbrev pub close : TurnState → ℕ → CallTurn → CallTurn
close state now r = record r {
  state = state;
  owner_token = none;
  lease_expires_at = none;
  updated_at = now;
}

abbrev is_open : Option ℕ → Bool
is_open none = true
is_open (some t) = false

-- A thread that is not deleted.
unfoldable pub find_thread : ℕ → List Thread → Option Thread
find_thread k [] = none
find_thread k (t ∷ ts) = if t.id == k && is_open t.deleted_at then some t else find_thread k ts

unfoldable pub touch_thread : ℕ → ℕ → List Thread → List Thread
touch_thread k now [] = []
touch_thread k now (t ∷ ts) =
    (if t.id == k then record t { last_message_at = now; updated_at = now } else t)
    ∷ touch_thread k now ts

-- One more than the largest sequence of the thread, and 0 in an empty one.
unfoldable pub next_sequence : ℕ → List Message → ℕ
next_sequence k [] = 0
next_sequence k (m ∷ ms) =
    let rest = next_sequence k ms in if m.thread_id == k then max (m.sequence + 1) rest else rest

pub record Draft : Type 0 where
  pub id : ℕ
  pub content_text : String
  pub message_kind : MessageKind
  pub role : Role
  pub call_id : Option ℕ
  pub call_turn_id : Option ℕ

abbrev pub new_message : Draft → ℕ → ℕ → ℕ → Message
new_message d thread now sequence = record {
  id = d.id;
  thread_id = thread;
  call_id = d.call_id;
  call_turn_id = d.call_turn_id;
  message_kind = d.message_kind;
  role = d.role;
  sequence = sequence;
  content_text = d.content_text;
  created_at = now;
  updated_at = now;
}

-- The message is last in the table until the transaction commits or is rolled back.
unfoldable pub stage_message : Db → ℕ → Draft → ℕ → Result (Message × Db)
stage_message db thread d now = elim (find_thread thread db.threads) [
  | none ↦ err thread_not_found
  | some _ ↦
      let m = new_message d thread now (next_sequence thread db.messages) in
      ok (
        m,
        record db {
          messages = db.messages ++ m ∷ [];
          threads = touch_thread thread now db.threads;
        },
      )
]

unfoldable pub find_message : ℕ → List Message → Option Message
find_message k [] = none
find_message k (m ∷ ms) = if m.id == k then some m else find_message k ms
