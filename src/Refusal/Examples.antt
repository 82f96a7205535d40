-- ===== src/Refusal/Examples.antt =====
-- A stream whose first attempt is refused, under patterns that look at the length.
use ray_me.Base.{◌≤◌, ◌≡◌, refl, Bool, true, false, some, List, [], ◌∷◌, ◌==◌, length}
use ray_me.Refusal.Guard.{
  Guard, Text, Patterns, new_guard, refusal_reason, should_release, judge, feed_in, feed, conclude,
  finish_in, finish,
}
use ray_me.Refusal.Attempts.{attempt_from, completed, stream_text_tokens}
use ray_me.Refusal.Released.{attempt-IsFaithful, join, IsFaithful}
use ray_me.Refusal.Streams.{stream_text_tokens-IsOneAnswer, IsOneAnswer}
use ray_me.Refusal.Held.{feed_all-bounded, feed_all}

abbrev never : Text → Bool
never t = false

-- A text of three code points is a refusal.
abbrev is_three : Text → Bool
is_three t = length t == 3

abbrev patterns : Patterns
patterns = record {
  comparison_view = λ t. t;
  is_space = λ c. c == 32;
  sentence_boundary = never;
  direct_request = is_three;
  direct_request_at_end = never;
  direct_description = never;
  direct_description_at_end = never;
  identity_disclaimer = never;
  refusal_verb = never;
  meta_policy = never;
  identity = never;
  policy = never;
  apology = never;
  redirect = never;
  warning = never;
}

abbrev refused_answer : List Text
refused_answer = (73 ∷ 32 ∷ []) ∷ (99 ∷ []) ∷ (98 ∷ []) ∷ []

abbrev good_answer : List Text
good_answer = (72 ∷ 105 ∷ []) ∷ []

attempt-IsFaithful_example :
    IsFaithful (join refused_answer) (attempt_from patterns refused_answer new_guard)
attempt-IsFaithful_example = attempt-IsFaithful patterns refused_answer

refused_answer-yield : attempt_from patterns refused_answer new_guard ≡ some ([], true)
unfolding attempt_from feed finish feed_in finish_in judge conclude refusal_reason should_release
refused_answer-yield = refl

stream_text_tokens-IsOneAnswer_example :
    IsOneAnswer patterns
      (refused_answer ∷ good_answer ∷ good_answer ∷ [])
      (stream_text_tokens patterns (refused_answer ∷ good_answer ∷ good_answer ∷ []))
stream_text_tokens-IsOneAnswer_example =
    stream_text_tokens-IsOneAnswer patterns (refused_answer ∷ good_answer ∷ good_answer ∷ [])

good_answer-completed :
    stream_text_tokens patterns (refused_answer ∷ good_answer ∷ good_answer ∷ [])
    ≡ some (good_answer, completed)
unfolding stream_text_tokens attempt_from feed finish feed_in finish_in judge conclude
    refusal_reason should_release
good_answer-completed = refl

abbrev held : Guard
held = record new_guard { chunks = good_answer; prefix = 72 ∷ 105 ∷ [] }

held-fed : feed_all patterns new_guard good_answer ≡ some held
unfolding feed_all feed feed_in judge refusal_reason should_release
held-fed = refl

feed_all-bounded_example : length held.prefix ≤ 380
feed_all-bounded_example = feed_all-bounded patterns good_answer held held-fed refl
