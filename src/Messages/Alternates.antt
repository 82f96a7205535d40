-- ===== src/Messages/Alternates.antt =====
-- The alternates of an AI message: `replace_selected_ai_response`, `add_selected_alternate` and
-- `select_alternate` of web-ui/server/app/domain/message_actions.py.
use ray_me.Base.{
  ℕ, Bool, false, ◌&&◌, ◌||◌, Option, none, some, List, [], ◌∷◌, ◌++◌, ◌==◌, if◌then◌else◌,
}
use ray_me.Messages.Rows.{
  Chat, SourceAction, ChatMessage, Alternate, find_message, update_messages, next_alternate_index,
}
use ray_me.Messages.Actions.{
  message_not_found, alternate_not_found, not_ai_message, ActionResult, raised, touch_thread,
}

abbrev pub new_alternate : ChatMessage → Chat → ℕ → ℕ → SourceAction → ℕ → Alternate
new_alternate m c fresh text how now = record {
  id = fresh;
  message_id = m.id;
  alternate_index = next_alternate_index m.id c.alternates;
  content_text = text;
  source_action = how;
  branch_root_id = m.id;
  created_at = now;
  updated_at = now;
}

abbrev pub with_message : Chat → ℕ → (ChatMessage → ChatMessage) → Chat
with_message c i f = record c { messages = update_messages (λ x. x.id == i) f c.messages }

abbrev pub replaced : ℕ → ℕ → ℕ → ChatMessage → ChatMessage
replaced fresh text now x = record x {
  content_text = text;
  selected_alternate_id = some fresh;
  stale_after_edit = false;
  updated_at = now;
}

abbrev pub reselected : ℕ → ℕ → ChatMessage → ChatMessage
reselected alternate now x = record x { selected_alternate_id = some alternate; updated_at = now }

-- `_get_ai_message` in front of an action.
unfoldable pub for_ai_message : Option ChatMessage → (ChatMessage → ActionResult) → ActionResult
for_ai_message none act = raised message_not_found
for_ai_message (some m) act = if m.is_ai then act m else raised not_ai_message

-- The new alternate and the change of the message.
unfoldable pub add_and_touch :
    Chat → ℕ → ℕ → SourceAction → ℕ → (ChatMessage → ChatMessage) → ChatMessage → ActionResult
unfolding touch_thread
add_and_touch c fresh text how now f m =
    touch_thread m.thread_id now record (with_message c m.id f) {
      alternates = c.alternates ++ new_alternate m c fresh text how now ∷ [];
    }

unfoldable pub replace_selected_ai_response : Chat → ℕ → ℕ → ℕ → SourceAction → ℕ → ActionResult
unfolding for_ai_message add_and_touch
replace_selected_ai_response c i fresh text how now =
    for_ai_message (find_message i c.messages)
      (add_and_touch c fresh text how now (replaced fresh text now))

unfoldable pub add_selected_alternate : Chat → ℕ → ℕ → ℕ → SourceAction → ℕ → ActionResult
unfolding for_ai_message add_and_touch
add_selected_alternate c i fresh text how now =
    for_ai_message (find_message i c.messages)
      (add_and_touch c fresh text how now (reselected fresh now))

abbrev pub belongs : ℕ → ℕ → List Alternate → Bool
belongs i alternate [] = false
belongs i alternate (a ∷ rows) = a.message_id == i && a.id == alternate || belongs i alternate rows

unfoldable pub select_of : Chat → ℕ → ℕ → ChatMessage → ActionResult
unfolding touch_thread
select_of c alternate now m =
    if belongs m.id alternate c.alternates
    then touch_thread m.thread_id now (with_message c m.id (reselected alternate now))
    else raised alternate_not_found

unfoldable pub select_alternate : Chat → ℕ → ℕ → ℕ → ActionResult
unfolding for_ai_message select_of
select_alternate c i alternate now =
    for_ai_message (find_message i c.messages) (select_of c alternate now)
