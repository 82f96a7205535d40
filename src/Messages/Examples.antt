-- ===== src/Messages/Examples.antt =====
-- A thread with three messages whose first one is edited.
use ray_me.Base.{◌≡◌, refl, true, false, none, some, [], ◌∷◌}
use ray_me.Messages.Rows.{Chat, swipe, ChatMessage, delete_messages, regenerate}
use ray_me.Messages.Actions.{
  touch_thread, is_downstream, edit_row, edit_from, edit_message_and_mark_downstream_stale,
  truncate_from, truncate_stale_after,
}
use ray_me.Messages.Alternates.{
  select_alternate, replace_selected_ai_response, add_selected_alternate,
}
use ray_me.Messages.Numbering.{actions-LeavesNumbered, LeavesNumbered}
use ray_me.Messages.Editing.{edit_then_truncate, then_truncate, rows_of}

abbrev question : ChatMessage
question = record {
  id = 10;
  thread_id = 1;
  sequence = 1;
  is_user = true;
  is_ai = false;
  content_text = 100;
  selected_alternate_id = none;
  stale_after_edit = false;
  updated_at = 0;
}

abbrev answer : ChatMessage
answer = record question {
  id = 11;
  sequence = 2;
  is_user = false;
  is_ai = true;
  content_text = 101;
  selected_alternate_id = some 5;
}

-- A message of another thread.
abbrev elsewhere : ChatMessage
elsewhere = record answer { id = 12; thread_id = 2; selected_alternate_id = none }

abbrev chat : Chat
chat = record {
  messages = question ∷ answer ∷ elsewhere ∷ [];
  alternates =
      record {
        id = 5;
        message_id = 11;
        alternate_index = 0;
        content_text = 101;
        source_action = swipe;
        branch_root_id = 11;
        created_at = 0;
        updated_at = 0;
      }
      ∷ [];
  threads = record { id = 1; is_deleted = false; updated_at = 0; last_message_at = 0 } ∷ [];
}

edit_then_truncate_example :
    rows_of (then_truncate (edit_message_and_mark_downstream_stale chat 10 200 7) 10 8)
    ≡ some (edit_row question 200 7 (delete_messages (is_downstream question) chat.messages))
edit_then_truncate_example = edit_then_truncate chat 10 200 7 8 question refl refl refl

edited_rows :
    rows_of (then_truncate (edit_message_and_mark_downstream_stale chat 10 200 7) 10 8)
    ≡ some (record question { content_text = 200; updated_at = 7 } ∷ elsewhere ∷ [])
unfolding edit_message_and_mark_downstream_stale edit_from truncate_stale_after truncate_from
    touch_thread
edited_rows = refl

actions-LeavesNumbered_example :
    LeavesNumbered (replace_selected_ai_response chat 11 6 102 regenerate 9)
    × LeavesNumbered (add_selected_alternate chat 11 6 102 regenerate 9)
    × LeavesNumbered (select_alternate chat 11 6 9)
actions-LeavesNumbered_example = actions-LeavesNumbered chat 11 6 102 regenerate 9 (tt, tt)
