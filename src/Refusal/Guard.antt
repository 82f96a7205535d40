-- ===== src/Refusal/Guard.antt =====
-- `PrefixRefusalGuard` of web-ui/server/app/domain/refusal_guard.py. A text is the list of its code
-- points. The regular expressions are Boolean parameters, since matching them is the work of
-- Python's `re`; so are Unicode normalisation and `str.isspace`. The clock of the decision is left
-- out.
use ray_me.Base.{
  is_some, ℕ, ◌+◌, ◌/◌, Bool, true, false, not, ◌&&◌, ◌||◌, Option, none, some, List, [], ◌∷◌, ◌++◌,
  leb, length, if◌then◌else◌,
}

abbrev pub Text : Type 0
Text = List ℕ

pub record Patterns : Type 0 where
  pub comparison_view : Text → Text
  pub is_space : ℕ → Bool
  pub sentence_boundary : Text → Bool
  pub direct_request : Text → Bool
  pub direct_request_at_end : Text → Bool
  pub direct_description : Text → Bool
  pub direct_description_at_end : Text → Bool
  pub identity_disclaimer : Text → Bool
  pub refusal_verb : Text → Bool
  pub meta_policy : Text → Bool
  pub identity : Text → Bool
  pub policy : Text → Bool
  pub apology : Text → Bool
  pub redirect : Text → Bool
  pub warning : Text → Bool

pub data ReasonCode : Type 0 where
  generic_identity policy_or_safety apologetic redirected warned : ReasonCode
  safe_prefix upstream_complete : ReasonCode

pub data GuardState : Type 0 where
  holding passthrough refused finished : GuardState

pub record Guard : Type 0 where
  pub max_characters : ℕ
  pub max_estimated_tokens : ℕ
  pub min_visible_characters : ℕ
  pub chunks : List Text
  pub prefix : Text
  pub state : GuardState
  pub reason_code : Option ReasonCode

-- `PrefixRefusalGuard()` with the limits of the module.
abbrev pub new_guard : Guard
new_guard = record {
  max_characters = 384;
  max_estimated_tokens = 96;
  min_visible_characters = 24;
  chunks = [];
  prefix = [];
  state = holding;
  reason_code = none;
}

pub record Decision : Type 0 where
  pub state : GuardState
  pub released_text : List Text
  pub refused : Bool
  pub reason_code : Option ReasonCode
  pub prefix_characters : ℕ
  pub prefix_estimated_tokens : ℕ

abbrev pub estimated_tokens : Text → ℕ
estimated_tokens t = (length t + 3) / 4

abbrev pub decision : Guard → List Text → Bool → Decision
decision g released is_refused = record {
  state = g.state;
  released_text = released;
  refused = is_refused;
  reason_code = g.reason_code;
  prefix_characters = length g.prefix;
  prefix_estimated_tokens = estimated_tokens g.prefix;
}

abbrev pub secondary_reason : Patterns → Text → Option ReasonCode
secondary_reason p normalized =
    if p.identity normalized
    then some generic_identity
    else if p.policy normalized
    then some policy_or_safety
    else if p.apology normalized
    then some apologetic
    else if p.redirect normalized
    then some redirected
    else if p.warning normalized
    then some warned
    else none

abbrev reason_in : Patterns → Bool → Text → Option ReasonCode
reason_in p complete normalized =
    if p.direct_request normalized || complete && p.direct_request_at_end normalized
    then some policy_or_safety
    else if p.direct_description normalized || complete && p.direct_description_at_end normalized
    then some policy_or_safety
    else if p.identity_disclaimer normalized
    then some generic_identity
    else if p.refusal_verb normalized
    then secondary_reason p normalized
    else if p.meta_policy normalized
    then some policy_or_safety
    else none

unfoldable pub refusal_reason : Patterns → Bool → Text → Option ReasonCode
refusal_reason p complete t = reason_in p complete (p.comparison_view t)

abbrev pub count_visible : Patterns → Text → ℕ
count_visible p [] = 0
count_visible p (c ∷ t) = (if p.is_space c then 0 else 1) + count_visible p t

abbrev pub is_safe_sentence : Patterns → Guard → Bool
is_safe_sentence p g =
    leb g.min_visible_characters (count_visible p g.prefix)
    && p.sentence_boundary g.prefix
    && not (is_some (secondary_reason p (p.comparison_view g.prefix)))
    && not (p.refusal_verb (p.comparison_view g.prefix))

abbrev pub is_ceiling_reached : Guard → Bool
is_ceiling_reached g =
    leb g.max_characters (length g.prefix) || leb g.max_estimated_tokens (estimated_tokens g.prefix)

unfoldable pub should_release : Patterns → Guard → Bool
should_release p g = is_safe_sentence p g || is_ceiling_reached g

-- The chunk is appended and the prefix is looked at.
abbrev pub hold : Guard → Text → Guard
hold g t = record g { chunks = g.chunks ++ t ∷ []; prefix = g.prefix ++ t }

-- The guard decides: the chunks are cleared.
abbrev pub decided : Guard → GuardState → ReasonCode → Guard
decided g state reason = record g { chunks = []; state = state; reason_code = some reason }

unfoldable pub judge : Patterns → Guard → Option ReasonCode → Guard × Decision
unfolding should_release
judge p g (some reason) = let h = decided g refused reason in (h, decision h [] true)
judge p g none =
    if should_release p g
    then (let h = decided g passthrough safe_prefix in (h, decision h g.chunks false))
    else (g, decision g [] false)

abbrev pub is_blank : Text → Bool
is_blank [] = true
is_blank (c ∷ t) = false

unfoldable pub feed_in : GuardState → Patterns → Guard → Text → Option (Guard × Decision)
unfolding judge refusal_reason
feed_in refused p g t = none
feed_in finished p g t = none
feed_in passthrough p g t = some (g, decision g (if is_blank t then [] else t ∷ []) false)
feed_in holding p g t =
    if is_blank t
    then some (g, decision g [] false)
    else some (judge p (hold g t) (refusal_reason p false (hold g t).prefix))

-- `RuntimeError` is `none`.
unfoldable pub feed : Patterns → Guard → Text → Option (Guard × Decision)
unfolding feed_in
feed p g t = feed_in g.state p g t

unfoldable pub conclude : Guard → Option ReasonCode → Guard × Decision
conclude g (some reason) = let h = decided g finished reason in (h, decision h [] true)
conclude g none = let h = decided g finished upstream_complete in (h, decision h g.chunks false)

unfoldable pub finish_in : GuardState → Patterns → Guard → Guard × Decision
unfolding conclude refusal_reason
finish_in finished p g = (g, decision g [] false)
finish_in refused p g = let h = record g { state = finished } in (h, decision h [] true)
finish_in passthrough p g = let h = record g { state = finished } in (h, decision h [] false)
finish_in holding p g = conclude g (refusal_reason p true g.prefix)

unfoldable pub finish : Patterns → Guard → Guard × Decision
unfolding finish_in
finish p g = finish_in g.state p g
