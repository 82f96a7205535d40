-- ===== src/Messages/Editing.antt =====
-- An edit of a user message and the removal of what it made stale, in
-- web-ui/server/app/domain/message_actions.py.
use ray_me.Base.{
  is_some, ℕ, ◌≡◌, true, List, [], ◌∷◌, arith, refl, subst, Option, none, some, ◌==◌, ap, ◌∙◌, Bool,
}
use ray_me.Messages.Rows.{
  ChatMessage, delete_messages, ChatThread, Chat, find_message, find_live, touched,
}
use ray_me.Messages.Actions.{
  is_downstream, edit_row, edit_rows, is_removed, ActionResult, committed, raised, touch_thread,
  edited, edit_from, edit_message_and_mark_downstream_stale, truncate_from, truncate_stale_after,
  edit_alternates,
}

-- Every message after the edited one is stale then, and the others are not deleted.
delete-edit_rows :
    (m : ChatMessage) (text now : ℕ) (xs : List ChatMessage)
    → m.is_user ≡ true
    → delete_messages (is_removed m) (edit_rows m text now xs)
      ≡ edit_row m text now (delete_messages (is_downstream m) xs)
delete-edit_rows m text now [] u = ground (arith, u)
delete-edit_rows m text now (x ∷ xs) u = ground (arith, u, delete-edit_rows m text now xs u)

abbrev has_id : ℕ → Option ChatMessage → Bool
has_id i none = true
has_id i (some m) = m.id == i

find_message-has_id : (i : ℕ) (xs : List ChatMessage) → has_id i (find_message i xs) ≡ true
find_message-has_id i [] = refl
find_message-has_id i (x ∷ xs) = ground (arith, find_message-has_id i xs)

find_message-id :
    (i : ℕ) (xs : List ChatMessage) (m : ChatMessage)
    → find_message i xs ≡ some m
    → (m.id == i) ≡ true
find_message-id i xs m e = subst (λ o. has_id i o ≡ true) e (find_message-has_id i xs)

-- The edited message is found, with its thread and its place.
find_message-edit_rows :
    (i text now : ℕ) (m : ChatMessage) (xs : List ChatMessage)
    → (m.id == i) ≡ true
    → find_message i xs ≡ some m
    → find_message i (edit_rows m text now xs) ≡ some (edited m text now m)
find_message-edit_rows i text now m [] k e = ground (arith, e)
find_message-edit_rows i text now m (x ∷ xs) k e =
    ground (arith, k, e, find_message-edit_rows i text now m xs k)

find_live-touched :
    (i now : ℕ) (ts : List ChatThread)
    → is_some (find_live i ts) ≡ true
    → is_some (find_live i (touched i now ts)) ≡ true
find_live-touched i now [] h = h
find_live-touched i now (t ∷ ts) h = ground (arith, h, find_live-touched i now ts)

-- The same message is truncated behind, when the first action is committed.
abbrev pub then_truncate : ActionResult → ℕ → ℕ → ActionResult
then_truncate (committed c) i now = truncate_stale_after c i now
then_truncate (raised e) i now = raised e

abbrev pub rows_of : ActionResult → Option (List ChatMessage)
rows_of (committed c) = some c.messages
rows_of (raised e) = none

touch_thread-committed :
    (thread now : ℕ) (c : Chat)
    → is_some (find_live thread c.threads) ≡ true
    → touch_thread thread now c ≡ committed (record c { threads = touched thread now c.threads })
unfolding touch_thread
touch_thread-committed thread now c h = rw h refl

truncate_from-rows :
    (m : ChatMessage) (c : Chat) (now : ℕ)
    → is_some (find_live m.thread_id c.threads) ≡ true
    → rows_of (truncate_from (some m) c now) ≡ some (delete_messages (is_removed m) c.messages)
unfolding truncate_from touch_thread
truncate_from-rows m c now h = rw h refl

abbrev rows_edited : Chat → ChatMessage → ℕ → ℕ → Chat
rows_edited c m text now = record c {
  messages = edit_rows m text now c.messages;
  alternates = edit_alternates m text now c.alternates;
}

abbrev after_edit : Chat → ChatMessage → ℕ → ℕ → Chat
after_edit c m text now = record (rows_edited c m text now) {
  threads = touched m.thread_id now c.threads;
}

-- When a user message of a live thread is edited and what is stale behind it is then removed, exactly
-- the messages of the thread that come after it are gone, and the edited one has the new text.
pub edit_then_truncate :
    (c : Chat) (i text now later : ℕ) (m : ChatMessage)
    → find_message i c.messages ≡ some m
    → m.is_user ≡ true
    → is_some (find_live m.thread_id c.threads) ≡ true
    → rows_of (then_truncate (edit_message_and_mark_downstream_stale c i text now) i later)
      ≡ some (edit_row m text now (delete_messages (is_downstream m) c.messages))
unfolding edit_message_and_mark_downstream_stale edit_from truncate_stale_after
edit_then_truncate c i text now later m e u h =
    let k = find_message-id i c.messages m e in
    let live = find_live-touched m.thread_id now c.threads h in
    ap (λ o. rows_of (then_truncate (edit_from o c text now) i later)) e
    ∙ ap (λ r. rows_of (then_truncate r i later))
        (touch_thread-committed m.thread_id now (rows_edited c m text now) h)
    ∙ ap (λ o. rows_of (truncate_from o (after_edit c m text now) later))
        (find_message-edit_rows i text now m c.messages k e)
    ∙ truncate_from-rows (edited m text now m) (after_edit c m text now) later live
    ∙ ap some (delete-edit_rows m text now c.messages u)
