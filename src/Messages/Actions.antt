-- ===== src/Messages/Actions.antt =====
-- `SqlAlchemyMessageActionRepository` of web-ui/server/app/domain/message_actions.py. A method that
-- raises before its commit leaves the database as it was. The shape that a method returns is read
-- from the new rows and is left out.
use ray_me.Base.{
  is_some, ℕ, Bool, true, false, ◌&&◌, ◌||◌, Option, none, some, List, [], ◌∷◌, ltb, ◌==◌, ◌==?◌,
  if◌then◌else◌,
}
use ray_me.Messages.Rows.{
  Chat, ChatMessage, Alternate, find_message, update_messages, delete_messages, find_live, touched,
}

pub data ActionError : Type 0 where
  message_not_found alternate_not_found not_ai_message thread_not_found : ActionError

pub data ActionResult : Type 0 where
  committed : Chat → ActionResult
  raised : ActionError → ActionResult

-- `_touch_thread`, then the commit.
unfoldable pub touch_thread : ℕ → ℕ → Chat → ActionResult
touch_thread thread now c =
    if is_some (find_live thread c.threads)
    then committed (record c { threads = touched thread now c.threads })
    else raised thread_not_found

abbrev pub is_downstream : ChatMessage → ChatMessage → Bool
is_downstream m x = x.thread_id == m.thread_id && ltb m.sequence x.sequence

abbrev pub mark_stale : ℕ → ChatMessage → ChatMessage
mark_stale now x = record x { stale_after_edit = true; updated_at = now }

abbrev pub edited : ChatMessage → ℕ → ℕ → ChatMessage → ChatMessage
edited m text now x = record x {
  content_text = text;
  updated_at = now;
  stale_after_edit = if m.is_user then false else x.stale_after_edit;
}

abbrev pub edit_row : ChatMessage → ℕ → ℕ → List ChatMessage → List ChatMessage
edit_row m text now xs = update_messages (λ x. x.id == m.id) (edited m text now) xs

-- The selected alternate takes the text when it belongs to the message.
abbrev pub edit_alternates : ChatMessage → ℕ → ℕ → List Alternate → List Alternate
edit_alternates m text now [] = []
edit_alternates m text now (a ∷ rows) =
    (if (m.selected_alternate_id ==? some a.id) && a.message_id == m.id
      then record a { content_text = text; updated_at = now }
      else a)
    ∷ edit_alternates m text now rows

abbrev pub edit_rows : ChatMessage → ℕ → ℕ → List ChatMessage → List ChatMessage
edit_rows m text now xs =
    if m.is_user
    then update_messages (is_downstream m) (mark_stale now) (edit_row m text now xs)
    else edit_row m text now xs

unfoldable pub edit_from : Option ChatMessage → Chat → ℕ → ℕ → ActionResult
unfolding touch_thread
edit_from none c text now = raised message_not_found
edit_from (some m) c text now = touch_thread m.thread_id now record c {
  messages = edit_rows m text now c.messages;
  alternates = edit_alternates m text now c.alternates;
}

unfoldable pub edit_message_and_mark_downstream_stale : Chat → ℕ → ℕ → ℕ → ActionResult
unfolding edit_from
edit_message_and_mark_downstream_stale c i text now =
    edit_from (find_message i c.messages) c text now

abbrev pub is_removed : ChatMessage → ChatMessage → Bool
is_removed m x = is_downstream m x && x.stale_after_edit

-- The identifier is one of the removed messages.
abbrev pub removes : ChatMessage → List ChatMessage → ℕ → Bool
removes m [] i = false
removes m (x ∷ xs) i = is_removed m x && x.id == i || removes m xs i

abbrev pub delete_alternates : (ℕ → Bool) → List Alternate → List Alternate
delete_alternates p [] = []
delete_alternates p (a ∷ rows) =
    let rest = delete_alternates p rows in if p a.message_id then rest else a ∷ rest

unfoldable pub truncate_from : Option ChatMessage → Chat → ℕ → ActionResult
unfolding touch_thread
truncate_from none c now = raised message_not_found
truncate_from (some m) c now = touch_thread m.thread_id now record c {
  messages = delete_messages (is_removed m) c.messages;
  alternates = delete_alternates (removes m c.messages) c.alternates;
}

unfoldable pub truncate_stale_after : Chat → ℕ → ℕ → ActionResult
unfolding truncate_from
truncate_stale_after c i now = truncate_from (find_message i c.messages) c now
