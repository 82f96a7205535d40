-- ===== src/Messages/Rows.antt =====
-- The rows of web-ui/server/app/storage/models.py that
-- web-ui/server/app/domain/message_actions.py writes, and its queries. Texts are only copied, so
-- they are numbers.
use ray_me.Base.{
  ℕ, ◌+◌, max, Bool, not, ◌&&◌, Option, none, some, List, [], ◌∷◌, ◌==◌, if◌then◌else◌,
}

pub data SourceAction : Type 0 where
  regenerate swipe continuation : SourceAction

-- `is_ai` is a role of "assistant" with a kind that starts with "ai_".
pub record ChatMessage : Type 0 where
  pub id : ℕ
  pub thread_id : ℕ
  pub sequence : ℕ
  pub is_user : Bool
  pub is_ai : Bool
  pub content_text : ℕ
  pub selected_alternate_id : Option ℕ
  pub stale_after_edit : Bool
  pub updated_at : ℕ

pub record Alternate : Type 0 where
  pub id : ℕ
  pub message_id : ℕ
  pub alternate_index : ℕ
  pub content_text : ℕ
  pub source_action : SourceAction
  pub branch_root_id : ℕ
  pub created_at : ℕ
  pub updated_at : ℕ

pub record ChatThread : Type 0 where
  pub id : ℕ
  pub is_deleted : Bool
  pub updated_at : ℕ
  pub last_message_at : ℕ

pub record Chat : Type 0 where
  pub messages : List ChatMessage
  pub alternates : List Alternate
  pub threads : List ChatThread

abbrev pub find_message : ℕ → List ChatMessage → Option ChatMessage
find_message i [] = none
find_message i (x ∷ xs) = if x.id == i then some x else find_message i xs

abbrev pub update_messages :
    (ChatMessage → Bool) → (ChatMessage → ChatMessage) → List ChatMessage → List ChatMessage
update_messages p f [] = []
update_messages p f (x ∷ xs) = (if p x then f x else x) ∷ update_messages p f xs

abbrev pub delete_messages : (ChatMessage → Bool) → List ChatMessage → List ChatMessage
delete_messages p [] = []
delete_messages p (x ∷ xs) = let rest = delete_messages p xs in if p x then rest else x ∷ rest

abbrev pub next_alternate_index : ℕ → List Alternate → ℕ
next_alternate_index i [] = 0
next_alternate_index i (a ∷ rows) =
    let rest = next_alternate_index i rows in
    if a.message_id == i then max (a.alternate_index + 1) rest else rest

abbrev pub find_live : ℕ → List ChatThread → Option ChatThread
find_live i [] = none
find_live i (t ∷ ts) = if t.id == i && not t.is_deleted then some t else find_live i ts

abbrev pub touched : ℕ → ℕ → List ChatThread → List ChatThread
touched i now [] = []
touched i now (t ∷ ts) =
    (if t.id == i then record t { updated_at = now; last_message_at = now } else t)
    ∷ touched i now ts
