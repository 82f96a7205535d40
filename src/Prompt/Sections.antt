-- ===== src/Prompt/Sections.antt =====
-- Sections of a prompt in web-ui/server/app/domain/prompt_builder.py. A text is the list of its code
-- points, and the length of its UTF-8 form is a parameter. Names of sections are numbers.
use ray_me.Base.{
  ℕ, ◌+◌, ◌/◌, Bool, false, ◌||◌, List, [], ◌∷◌, length, ltb, if◌then◌else◌, is_empty,
}

abbrev pub Content : Type 0
Content = List ℕ

pub data PromptRole : Type 0 where
  system_role user_role assistant_role : PromptRole

pub record PromptSection : Type 0 where
  pub section_id : ℕ
  pub logical_role : PromptRole
  pub content : Content
  pub mandatory : Bool
  pub estimated_tokens : ℕ

-- `math.ceil(n / 3) + 6`
abbrev pub estimate_prompt_tokens : (Content → ℕ) → Content → ℕ
estimate_prompt_tokens utf8_length content =
    if is_empty content then 0 else (utf8_length content + 2) / 3 + 6

abbrev pub make_section : (Content → ℕ) → ℕ → PromptRole → Content → Bool → PromptSection
make_section utf8_length id role content mandatory = record {
  section_id = id;
  logical_role = role;
  content = content;
  mandatory = mandatory;
  estimated_tokens = estimate_prompt_tokens utf8_length content;
}

abbrev pub estimated_total : List PromptSection → ℕ
estimated_total [] = 0
estimated_total (x ∷ xs) = x.estimated_tokens + estimated_total xs

pub record PromptMessageCandidate : Type 0 where
  pub role : PromptRole
  pub content : Content
  pub section_ids : List ℕ

abbrev pub message_candidates : List PromptSection → List PromptMessageCandidate
message_candidates [] = []
message_candidates (x ∷ xs) =
    let rest = message_candidates xs in
    if is_empty x.content
    then rest
    else record { role = x.logical_role; content = x.content; section_ids = x.section_id ∷ [] }
      ∷ rest

-- `CALL_OFFER_MAX_CONTENT_LENGTH`
abbrev pub any_too_long : List PromptMessageCandidate → Bool
any_too_long [] = false
any_too_long (x ∷ xs) = ltb 20000 (length x.content) || any_too_long xs

-- `CALL_OFFER_MAX_MESSAGES`
abbrev pub violates_offer_constraints : List PromptSection → Bool
violates_offer_constraints xs =
    ltb 48 (length (message_candidates xs)) || any_too_long (message_candidates xs)
