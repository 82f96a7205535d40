-- ===== src/Prompt/Compose.antt =====
-- `compose_prompt` of web-ui/server/app/domain/prompt_builder.py: which sections stay. The sections of
-- the character and the groups of examples are given as they were built, and the history in the order
-- of `_ordered_history`; both loops run on fuel. The product of the context limit with 0.05 is a float,
-- so its ceiling is a parameter.
use ray_me.Base.{
  ℕ, zero, suc, ◌+◌, Bool, true, false, not, ◌&&◌, Option, none, some, List, [], ◌∷◌, ◌++◌, length,
  ltb, ◌==◌, if◌then◌else◌, is_empty, max,
}
use ray_me.Prompt.Sections.{
  PromptSection, Content, PromptRole, system_role, user_role, assistant_role, make_section,
  estimated_total, violates_offer_constraints,
}

pub data PromptAction : Type 0 where
  continue_prompt call_offer other_action : PromptAction

abbrev pub is_continue : PromptAction → Bool
is_continue continue_prompt = true
is_continue call_offer = false
is_continue other_action = false

abbrev pub is_call_offer : PromptAction → Bool
is_call_offer continue_prompt = false
is_call_offer call_offer = true
is_call_offer other_action = false

pub record PromptHistoryEntry : Type 0 where
  pub entry_id : ℕ
  pub sequence : ℕ
  pub is_user : Bool
  pub content : Content

-- The identifiers "composer-user" and "continue-instruction", the names of the late and the prefill
-- section, and the instruction of a continue.
pub record PromptNames : Type 0 where
  pub utf8_length : Content → ℕ
  pub twentieth : ℕ → ℕ
  pub history_name : ℕ → ℕ
  pub composer_user : ℕ
  pub continue_instruction : ℕ
  pub late_phi : ℕ
  pub assistant_prefill : ℕ
  pub instruction : Content

pub record PromptBuildInput : Type 0 where
  pub action : PromptAction
  pub composer_text : Content
  pub history : List PromptHistoryEntry
  pub base_sections : List PromptSection
  pub example_sections : List (List PromptSection)
  pub phi_content : Content
  pub context_limit : ℕ
  pub max_tokens : ℕ

-- One more than the highest sequence, or 0.
abbrev pub next_sequence : List PromptHistoryEntry → ℕ
next_sequence [] = 0
next_sequence (e ∷ es) = max (e.sequence + 1) (next_sequence es)

abbrev pub user_entry : ℕ → Content → List PromptHistoryEntry → PromptHistoryEntry
user_entry id content history = record {
  entry_id = id;
  sequence = next_sequence history;
  is_user = true;
  content = content;
}

abbrev pub with_user : ℕ → Content → List PromptHistoryEntry → List PromptHistoryEntry
with_user id content history = history ++ user_entry id content history ∷ []

abbrev pub full_history : PromptNames → PromptBuildInput → List PromptHistoryEntry
full_history n b =
    if is_continue b.action
    then (if is_empty b.composer_text
        then with_user n.continue_instruction n.instruction b.history
        else b.history)
    else if is_empty b.composer_text
    then b.history
    else with_user n.composer_user b.composer_text b.history

-- The last entry of the user.
abbrev pub newest_user_id : List PromptHistoryEntry → Option ℕ → Option ℕ
newest_user_id [] newest = newest
newest_user_id (e ∷ es) newest = newest_user_id es (if e.is_user then some e.entry_id else newest)

abbrev pub is_newest : Option ℕ → ℕ → Bool
is_newest none id = false
is_newest (some i) id = i == id

abbrev pub entry_role : Bool → PromptRole
entry_role true = user_role
entry_role false = assistant_role

abbrev pub history_sections : PromptNames → Option ℕ → List PromptHistoryEntry → List PromptSection
history_sections n newest [] = []
history_sections n newest (e ∷ es) =
    make_section n.utf8_length (n.history_name e.entry_id) (entry_role e.is_user) e.content
      (is_newest newest e.entry_id)
    ∷ history_sections n newest es

-- What stays while the prompt is made to fit.
pub record PromptDraft : Type 0 where
  pub base : List PromptSection
  pub retained_examples : List (List PromptSection)
  pub retained_history : List PromptSection
  pub late : List PromptSection
  pub dropped_history_count : ℕ
  pub dropped_example_group_count : ℕ

abbrev pub concat : List (List PromptSection) → List PromptSection
concat [] = []
concat (g ∷ gs) = g ++ concat gs

abbrev pub assembled : PromptDraft → List PromptSection
assembled d = d.base ++ (concat d.retained_examples ++ (d.retained_history ++ d.late))

abbrev pub keep_entry : PromptSection → Option (List PromptSection) → Option (List PromptSection)
keep_entry x none = none
keep_entry x (some xs) = some (x ∷ xs)

-- `pop` of the first section that is not mandatory.
abbrev pub remove_optional : List PromptSection → Option (List PromptSection)
remove_optional [] = none
remove_optional (x ∷ xs) =
    let rest = keep_entry x (remove_optional xs) in if x.mandatory then rest else some xs

abbrev pub drop_examples : PromptDraft → List (List PromptSection) → Option PromptDraft
drop_examples d [] = none
drop_examples d (g ∷ gs) = some record d {
  retained_examples = gs;
  dropped_example_group_count = d.dropped_example_group_count + 1;
}

abbrev pub drop_history : PromptDraft → Option (List PromptSection) → Option PromptDraft
drop_history d none = drop_examples d d.retained_examples
drop_history d (some xs) =
    some record d { retained_history = xs; dropped_history_count = d.dropped_history_count + 1 }

-- What one round of either loop gives up.
abbrev pub give_up_one : PromptDraft → Option PromptDraft
give_up_one d = drop_history d (remove_optional d.retained_history)

pub data Fit : Type 0 where
  fitted exceeded : PromptDraft → Fit

abbrev pub next_round : PromptDraft → Option PromptDraft → (PromptDraft → Option Fit) → Option Fit
next_round d none more = some (exceeded d)
next_round d (some e) more = more e

-- `while violates(assembled())`: `none` is that the fuel is used up.
unfoldable pub fit : (List PromptSection → Bool) → ℕ → PromptDraft → Option Fit
fit violates zero d = none
fit violates (suc n) d =
    let rest = next_round d (give_up_one d) (λ e. fit violates n e) in
    if violates (assembled d) then rest else some (fitted d)

-- What the context must hold besides the prompt.
abbrev pub reserved_tokens : PromptNames → PromptBuildInput → ℕ
reserved_tokens n b = b.max_tokens + max 256 (n.twentieth b.context_limit)

-- `tokens > input_budget`, where the budget may be negative.
abbrev pub is_over_budget : PromptNames → PromptBuildInput → ℕ → Bool
is_over_budget n b tokens = ltb b.context_limit (tokens + reserved_tokens n b)

abbrev pub late_sections : PromptNames → PromptBuildInput → List PromptSection
late_sections n b =
    make_section n.utf8_length n.late_phi system_role b.phi_content true
    ∷ (if is_continue b.action && not (is_empty b.composer_text)
        then make_section n.utf8_length n.assistant_prefill assistant_role b.composer_text true ∷ []
        else [])

abbrev pub first_draft : PromptNames → PromptBuildInput → PromptDraft
first_draft n b =
    let history = full_history n b in
    record {
      base = b.base_sections;
      retained_examples = b.example_sections;
      retained_history = history_sections n (newest_user_id history none) history;
      late = late_sections n b;
      dropped_history_count = 0;
      dropped_example_group_count = 0;
    }

abbrev pub only_mandatory : List PromptSection → List PromptSection
only_mandatory [] = []
only_mandatory (x ∷ xs) = if x.mandatory then x ∷ only_mandatory xs else only_mandatory xs

abbrev pub mandatory_sections : PromptDraft → List PromptSection
mandatory_sections d = d.base ++ (only_mandatory d.retained_history ++ d.late)

-- The budget that was exceeded, or the draft that fits.
pub data Composed : Type 0 where
  composed : PromptDraft → Composed
  budget_exceeded offer_exceeded : ℕ → Composed

abbrev pub rounds : PromptDraft → ℕ
rounds d = length d.retained_history + length d.retained_examples + 1

abbrev pub after_offer : Option Fit → Option Composed
after_offer none = none
after_offer (some (fitted d)) = some (composed d)
after_offer (some (exceeded d)) = some (offer_exceeded (estimated_total (assembled d)))

abbrev pub after_budget : PromptBuildInput → Option Fit → Option Composed
after_budget b none = none
after_budget b (some (exceeded d)) = some (budget_exceeded (estimated_total (assembled d)))
after_budget b (some (fitted d)) =
    if is_call_offer b.action
    then after_offer (fit violates_offer_constraints (rounds d) d)
    else some (composed d)

unfoldable pub compose_prompt : PromptNames → PromptBuildInput → Option Composed
unfolding fit
compose_prompt n b =
    let d = first_draft n b in
    let tokens = estimated_total (mandatory_sections d) in
    if is_over_budget n b tokens
    then some (budget_exceeded tokens)
    else after_budget b (fit (λ xs. is_over_budget n b (estimated_total xs)) (rounds d) d)
