-- ===== src/Refusal/Preserved.antt =====
-- What the messages of an attempt in web-ui/server/app/domain/llm_stream.py keep of those of the prompt.
use ray_me.Base.{
  Bool, true, false, ◌&&◌, Option, none, some, List, [], ◌∷◌, ◌++◌, if◌then◌else◌, ◌≡◌,
}
use ray_me.Refusal.Retries.{
  PromptMessage, SpeakerRole, system_message, user_message, is_user_role, is_assistant, UserSplit,
}

-- The messages of a speaker, in their order.
abbrev pub said_by : (SpeakerRole → Bool) → List PromptMessage → List PromptMessage
said_by p [] = []
said_by p (x ∷ xs) = if p x.role then x ∷ said_by p xs else said_by p xs

-- Whether the last message is the assistant's.
abbrev pub ends_by_assistant : List PromptMessage → Bool
ends_by_assistant [] = false
ends_by_assistant (x ∷ []) = is_assistant x.role
ends_by_assistant (x ∷ y ∷ ys) = ends_by_assistant (y ∷ ys)

-- The prompt is the body and then the prefill, which is the assistant's last message.
abbrev pub IsPrefill : List PromptMessage → Option PromptMessage → Type 0
IsPrefill body none = ends_by_assistant body ≡ false
IsPrefill body (some x) = is_assistant x.role ≡ true

abbrev IsSplit : List PromptMessage → Option UserSplit → Type 0
IsSplit xs none = Unit
IsSplit xs (some s) = s.before ++ s.user ∷ s.after ≡ xs × is_user_role s.user.role ≡ true

-- A speaker's predicate that the user and the system messages do not both satisfy.
abbrev pub IsApart : (SpeakerRole → Bool) → Type 0
IsApart p = p system_message && p user_message ≡ false
