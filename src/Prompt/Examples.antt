-- ===== src/Prompt/Examples.antt =====
-- Prompts that fit and that do not, where a code point takes three bytes and the margin is 256.
use ray_me.Base.{ℕ, Bool, true, false, [], ◌∷◌, length, ◌*◌, some, ◌+◌, ◌≡◌, refl, Option, none}
use ray_me.Prompt.Sections.{system_role, user_role, make_section}
use ray_me.Prompt.Compose.{
  compose_prompt, other_action, PromptHistoryEntry, PromptNames, PromptBuildInput, fit, Composed,
  composed, budget_exceeded, offer_exceeded,
}
use ray_me.Prompt.Mandatory.{compose_prompt-IsComposed, IsComposed}

abbrev names : PromptNames
names = record {
  utf8_length = λ t. length t * 3;
  twentieth = λ n. 0;
  history_name = λ n. n + 100;
  composer_user = 90;
  continue_instruction = 91;
  late_phi = 92;
  assistant_prefill = 93;
  instruction = 1 ∷ 2 ∷ [];
}

abbrev said : ℕ → Bool → PromptHistoryEntry
said n user = record { entry_id = n; sequence = n; is_user = user; content = n ∷ n ∷ [] }

-- Each section of the history takes eight tokens, and so does the one of the character.
abbrev input : ℕ → PromptBuildInput
input limit = record {
  action = other_action;
  composer_text = 5 ∷ 6 ∷ [];
  history = said 1 true ∷ said 2 false ∷ [];
  base_sections = make_section names.utf8_length 0 system_role (1 ∷ 1 ∷ []) true ∷ [];
  example_sections = (make_section names.utf8_length 1 user_role (1 ∷ 1 ∷ []) false ∷ []) ∷ [];
  phi_content = [];
  context_limit = limit;
  max_tokens = 10;
}

abbrev left : Option Composed → Option (ℕ × ℕ)
left (some (composed d)) = some (d.dropped_history_count, d.dropped_example_group_count)
left (some (budget_exceeded t)) = none
left (some (offer_exceeded t)) = none
left none = none

fits_whole : left (compose_prompt names (input 306)) ≡ some (0, 0)
unfolding compose_prompt fit
fits_whole = refl

fits_without_oldest : left (compose_prompt names (input 300)) ≡ some (1, 0)
unfolding compose_prompt fit
fits_without_oldest = refl

fits_mandatory : left (compose_prompt names (input 282)) ≡ some (2, 1)
unfolding compose_prompt fit
fits_mandatory = refl

does_not_fit : compose_prompt names (input 281) ≡ some (budget_exceeded 16)
unfolding compose_prompt fit
does_not_fit = refl

compose_prompt-IsComposed_example : IsComposed names (input 300) (compose_prompt names (input 300))
compose_prompt-IsComposed_example = compose_prompt-IsComposed names (input 300)
