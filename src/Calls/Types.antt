-- ===== src/Calls/Types.antt =====
-- The rows and in-memory records of a live call: web-ui/server/app/storage/models.py and the
-- data classes of web-ui/server/app/domain/call_service.py. Identifiers, owner tokens, digests and
-- task handles are compared and never inspected, so they are numbers; times are seconds.
use ray_me.Base.{ℕ, Bool, true, false, String, Option, List}

pub data TurnState : Type 0 where
  reserved running completed failed cancelled : TurnState

abbrev pub is_active : TurnState → Bool
is_active reserved = true
is_active running = true
is_active _ = false

abbrev pub is_reserved : TurnState → Bool
is_reserved reserved = true
is_reserved _ = false

abbrev pub is_running : TurnState → Bool
is_running running = true
is_running _ = false

abbrev pub is_completed : TurnState → Bool
is_completed completed = true
is_completed _ = false

pub record CallTurn : Type 0 where
  pub id : ℕ
  pub call_id : ℕ
  pub turn_id : ℕ
  pub thread_id : ℕ
  pub request_sha256 : ℕ
  pub state : TurnState
  pub owner_token : Option ℕ
  pub lease_expires_at : Option ℕ
  pub user_message_id : Option ℕ
  pub assistant_message_id : Option ℕ
  pub created_at : ℕ
  pub updated_at : ℕ

pub data MessageKind : Type 0 where
  user_text ai_text user_speech ai_speech call_start call_end : MessageKind

pub data Role : Type 0 where
  user assistant system event : Role

pub record Message : Type 0 where
  pub id : ℕ
  pub thread_id : ℕ
  pub call_id : Option ℕ
  pub call_turn_id : Option ℕ
  pub message_kind : MessageKind
  pub role : Role
  pub sequence : ℕ
  pub content_text : String
  pub created_at : ℕ
  pub updated_at : ℕ

pub record Thread : Type 0 where
  pub id : ℕ
  pub deleted_at : Option ℕ
  pub last_message_at : ℕ
  pub updated_at : ℕ

pub record Db : Type 0 where
  pub threads : List Thread
  pub messages : List Message
  pub turns : List CallTurn

pub record ActiveCall : Type 0 where
  pub call_id : ℕ
  pub session_id : ℕ
  pub thread_id : ℕ
  pub ended_at : Option ℕ
  pub muted : Bool
  pub completed_ai_turn_ids : List ℕ
  pub pending_ai_turn_ids : List ℕ
  pub active_turn_tasks : List ℕ
  pub turn_states : List (ℕ × TurnState)
  pub turn_owners : List (ℕ × ℕ)
  pub turn_owner_tasks : List (ℕ × ℕ)
  pub end_message_recorded : Bool

pub record CallTurnReservation : Type 0 where
  pub created : Bool
  pub state : TurnState
  pub request_matches : Bool
  pub assistant_message : Option Message
  pub owner_token : Option ℕ

-- The errors that leave a method.
pub data CallError : Type 0 where
  session_not_found thread_not_found integrity commit_failed task_cancelled : CallError

pub data Result {ℓ} (A : Type ℓ) : Type ℓ where
  ok : A → Result A
  err : CallError → Result A

-- One live call and the database that it writes to.
pub record World : Type 0 where
  pub call : ActiveCall
  pub db : Db
