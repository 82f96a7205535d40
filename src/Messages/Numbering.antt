-- ===== src/Messages/Numbering.antt =====
-- The indices of the alternates of web-ui/server/app/domain/message_actions.py.
use ray_me.Base.{
  is_some, if_either, All, ℕ, ◌≤◌, ◌≡◌, Bool, true, not, ◌||◌, Option, none, some, List, [], ◌∷◌,
  ◌++◌, arith, ltb, ◌==◌,
}
use ray_me.Messages.Rows.{
  Chat, SourceAction, ChatMessage, Alternate, find_message, next_alternate_index, find_live,
}
use ray_me.Messages.Actions.{committed, ActionResult, raised, touch_thread}
use ray_me.Messages.Alternates.{
  add_and_touch, new_alternate, with_message, replaced, reselected, for_ai_message,
  replace_selected_ai_response, add_selected_alternate, belongs, select_of, select_alternate,
}

-- An alternate has a lower index than a later one of the same message.
abbrev precedes : Alternate → Alternate → Bool
precedes a b = not (a.message_id == b.message_id) || ltb a.alternate_index b.alternate_index

abbrev pub IsNumbered : List Alternate → Type 0
IsNumbered [] = Unit {0}
IsNumbered (a ∷ rows) = All (λ b. precedes a b ≡ true) rows × IsNumbered rows

abbrev pub LeavesNumbered : ActionResult → Type 0
LeavesNumbered (committed c) = IsNumbered c.alternates
LeavesNumbered (raised e) = Unit {0}

All-precedes :
    (a b : Alternate) (rows : List Alternate)
    → All (λ x. precedes a x ≡ true) rows
    → precedes a b ≡ true
    → All (λ x. precedes a x ≡ true) (rows ++ b ∷ [])
All-precedes a b [] h k = (k, tt)
All-precedes a b (x ∷ rows) h k = (h.0, All-precedes a b rows h.1 k)

-- An alternate whose index is not below the next one of its message can be appended.
IsNumbered-append :
    (b : Alternate) (rows : List Alternate)
    → next_alternate_index b.message_id rows ≤ b.alternate_index
    → IsNumbered rows
    → IsNumbered (rows ++ b ∷ [])
IsNumbered-append b [] k h = (tt, tt)
IsNumbered-append b (a ∷ rows) k h = (
  All-precedes a b rows h.0 (ground (arith, k)),
  IsNumbered-append b rows (ground (arith, k)) h.1,
)

touch_thread-LeavesNumbered :
    (thread now : ℕ) (c : Chat)
    → IsNumbered c.alternates
    → LeavesNumbered (touch_thread thread now c)
unfolding touch_thread
touch_thread-LeavesNumbered thread now c h =
    if_either LeavesNumbered (is_some (find_live thread c.threads)) (λ t. h) (λ t. tt)

for_ai_message-LeavesNumbered :
    (o : Option ChatMessage) (act : ChatMessage → ActionResult)
    → ((m : ChatMessage) → LeavesNumbered (act m))
    → LeavesNumbered (for_ai_message o act)
unfolding for_ai_message
for_ai_message-LeavesNumbered none act k = tt
for_ai_message-LeavesNumbered (some m) act k = if_either LeavesNumbered m.is_ai (λ h. k m) (λ h. tt)

add_and_touch-LeavesNumbered :
    (c : Chat) (fresh text : ℕ) (how : SourceAction) (now : ℕ) (f : ChatMessage → ChatMessage)
    (m : ChatMessage)
    → IsNumbered c.alternates
    → LeavesNumbered (add_and_touch c fresh text how now f m)
unfolding add_and_touch
add_and_touch-LeavesNumbered c fresh text how now f m h =
    touch_thread-LeavesNumbered m.thread_id now
      record (with_message c m.id f) {
        alternates = c.alternates ++ new_alternate m c fresh text how now ∷ [];
      }
      (IsNumbered-append (new_alternate m c fresh text how now) c.alternates (omega arith) h)

-- A regenerated answer, a swipe and a selection keep the alternates of every message numbered upwards
-- in the order of their making, so no two alternates of one message share an index.
pub actions-LeavesNumbered :
    (c : Chat) (i fresh text : ℕ) (how : SourceAction) (now : ℕ)
    → IsNumbered c.alternates
    → LeavesNumbered (replace_selected_ai_response c i fresh text how now)
      × LeavesNumbered (add_selected_alternate c i fresh text how now)
      × LeavesNumbered (select_alternate c i fresh now)
unfolding replace_selected_ai_response add_selected_alternate select_alternate select_of
actions-LeavesNumbered c i fresh text how now h = (
  for_ai_message-LeavesNumbered (find_message i c.messages)
      (add_and_touch c fresh text how now (replaced fresh text now))
      (λ m. add_and_touch-LeavesNumbered c fresh text how now (replaced fresh text now) m h),
  for_ai_message-LeavesNumbered (find_message i c.messages)
      (add_and_touch c fresh text how now (reselected fresh now))
      (λ m. add_and_touch-LeavesNumbered c fresh text how now (reselected fresh now) m h),
  for_ai_message-LeavesNumbered (find_message i c.messages) (select_of c fresh now) (λ m.
      if_either LeavesNumbered (belongs m.id fresh c.alternates)
        (λ t.
          touch_thread-LeavesNumbered m.thread_id now (with_message c m.id (reselected fresh now))
            h)
        (λ t. tt)),
)
