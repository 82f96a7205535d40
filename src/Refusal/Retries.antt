-- ===== src/Refusal/Retries.antt =====
-- `_messages_for_attempt` of web-ui/server/app/domain/llm_stream.py: the messages of the first attempt
-- and of a retry. Contents are numbers, and the correction of a retry is one of them.
use ray_me.Base.{
  ℕ, Bool, true, false, not, ◌&&◌, Option, none, some, List, [], ◌∷◌, ◌++◌, ltb, if◌then◌else◌,
  is_empty,
}

pub data SpeakerRole : Type 0 where
  system_message user_message assistant_message : SpeakerRole

pub record PromptMessage : Type 0 where
  pub role : SpeakerRole
  pub content : ℕ

abbrev pub is_system : SpeakerRole → Bool
is_system system_message = true
is_system user_message = false
is_system assistant_message = false

abbrev pub is_user_role : SpeakerRole → Bool
is_user_role system_message = false
is_user_role user_message = true
is_user_role assistant_message = false

abbrev pub is_assistant : SpeakerRole → Bool
is_assistant system_message = false
is_assistant user_message = false
is_assistant assistant_message = true

abbrev pub prefill_or :
    PromptMessage → List PromptMessage → List PromptMessage × Option PromptMessage
prefill_or x [] = if is_assistant x.role then ([], some x) else (x ∷ [], none)
prefill_or x (y ∷ ys) = let p = prefill_or y ys in (x ∷ p.0, p.1)

-- The last message is taken off when it is the assistant's.
abbrev pub take_prefill : List PromptMessage → List PromptMessage × Option PromptMessage
take_prefill [] = ([], none)
take_prefill (x ∷ xs) = prefill_or x xs

pub record UserSplit : Type 0 where
  pub before : List PromptMessage
  pub user : PromptMessage
  pub after : List PromptMessage

abbrev pub split_or : PromptMessage → List PromptMessage → Option UserSplit → Option UserSplit
split_or x xs (some s) = some record s { before = x ∷ s.before }
split_or x xs none =
    if is_user_role x.role then some record { before = []; user = x; after = xs } else none

-- Around the last message of the user.
abbrev pub split_user : List PromptMessage → Option UserSplit
split_user [] = none
split_user (x ∷ xs) = split_or x xs (split_user xs)

abbrev pub all_system : List PromptMessage → Bool
all_system [] = true
all_system (x ∷ xs) = is_system x.role && all_system xs

-- System messages behind the last one of the user go in front of it.
abbrev pub late_system : List PromptMessage → Option UserSplit → List PromptMessage
late_system xs none = xs
late_system xs (some s) =
    if not (is_empty s.after) && all_system s.after
    then s.before ++ (s.after ++ s.user ∷ [])
    else xs

abbrev pub correction_of : ℕ → ℕ → List PromptMessage
correction_of correction attempt =
    if ltb 1 attempt then record { role = user_message; content = correction } ∷ [] else []

abbrev pub prefill_of : Option PromptMessage → List PromptMessage
prefill_of none = []
prefill_of (some x) = x ∷ []

unfoldable pub messages_for_attempt : ℕ → List PromptMessage → ℕ → List PromptMessage
messages_for_attempt correction messages attempt =
    let p = take_prefill messages in
    late_system p.0 (split_user p.0) ++ (correction_of correction attempt ++ prefill_of p.1)
