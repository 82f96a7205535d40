-- ===== src/Refusal/Streams.antt =====
-- What `_stream_text_tokens` of web-ui/server/app/domain/llm_stream.py yields over its attempts.
use ray_me.Base.{
  Bool, if_either, ◌≡◌, refl, ◌⊎◌, inl, inr, true, false, Option, none, some, List, [], ◌∷◌, sym,
  subst,
}
use ray_me.Refusal.Guard.{Text, Patterns, new_guard}
use ray_me.Refusal.Attempts.{
  Yield, attempt_from, StreamEnd, completed, empty_output, refusal_exhausted, any_nonblank,
  after_attempt, stream_text_tokens,
}
use ray_me.Refusal.Released.{join, IsFaithful, attempt-IsFaithful}

-- Whether the guard of an attempt refuses the answer.
abbrev pub is_refusal : Yield → Bool
is_refusal none = false
is_refusal (some (us, b)) = b

unfoldable pub is_refused : Patterns → List Text → Bool
is_refused p ts = is_refusal (attempt_from p ts new_guard)

abbrev pub AllRefused : Patterns → List (List Text) → Type 0
AllRefused p [] = Unit {0}
AllRefused p (ts ∷ answers) = (is_refused p ts ≡ true) × AllRefused p answers

-- The text is the one of the first answer that is not refused.
abbrev pub IsFirst : Patterns → Text → List (List Text) → Type 0
IsFirst p x [] = true ≡ false
IsFirst p x (ts ∷ answers) =
    ((is_refused p ts ≡ false) × (x ≡ join ts)) ⊎ ((is_refused p ts ≡ true) × IsFirst p x answers)

-- How the stream ends, and what it has yielded by then.
abbrev pub IsOneAnswer : Patterns → List (List Text) → Option (List Text × StreamEnd) → Type 0
IsOneAnswer p answers none = true ≡ false
IsOneAnswer p answers (some (us, refusal_exhausted)) = (us ≡ []) × AllRefused p answers
IsOneAnswer p answers (some (us, completed)) =
    (any_nonblank p us ≡ true) × IsFirst p (join us) answers
IsOneAnswer p answers (some (us, empty_output)) =
    (any_nonblank p us ≡ false) × IsFirst p (join us) answers

later :
    (p : Patterns) (ts : List Text) (answers : List (List Text))
    (r : Option (List Text × StreamEnd))
    → is_refused p ts ≡ true
    → IsOneAnswer p answers r
    → IsOneAnswer p (ts ∷ answers) (after_attempt p (some ([], true)) r)
later p ts answers none q h = h
later p ts answers (some (vs, refusal_exhausted)) q h = (h.0, (q, h.1))
later p ts answers (some (vs, completed)) q h = (h.0, inr (q, h.1))
later p ts answers (some (vs, empty_output)) q h = (h.0, inr (q, h.1))

after_attempt-IsOneAnswer :
    (p : Patterns) (ts : List Text) (answers : List (List Text)) (y : Yield)
    (r : Option (List Text × StreamEnd))
    → is_refused p ts ≡ is_refusal y
    → IsFaithful (join ts) y
    → IsOneAnswer p answers r
    → IsOneAnswer p (ts ∷ answers) (after_attempt p y r)
after_attempt-IsOneAnswer p ts answers none r q f h = f
after_attempt-IsOneAnswer p ts answers (some (us, false)) r q f h =
    if_either (λ e. IsOneAnswer p (ts ∷ answers) (some (us, e))) (any_nonblank p us)
      (λ b. (b, inl (q, f))) (λ b. (b, inl (q, f)))
after_attempt-IsOneAnswer p ts answers (some (us, true)) r q f h =
    subst (λ v. IsOneAnswer p (ts ∷ answers) (after_attempt p (some (v, true)) r)) (sym f)
      (later p ts answers r q h)

-- Whatever the patterns and the answers are, the stream ends without `RuntimeError`, and attempts are
-- given up only behind a refusal: it is exhausted with no text yielded exactly behind answers that are
-- all refused, and else the text yielded is the text of the first answer that its guard does not
-- refuse, completed when that text has a visible character and empty output when it has none.
pub stream_text_tokens-IsOneAnswer :
    (p : Patterns) (answers : List (List Text))
    → IsOneAnswer p answers (stream_text_tokens p answers)
unfolding stream_text_tokens is_refused
stream_text_tokens-IsOneAnswer p [] = (refl, tt)
stream_text_tokens-IsOneAnswer p (ts ∷ answers) =
    after_attempt-IsOneAnswer p ts answers (attempt_from p ts new_guard)
      (stream_text_tokens p answers) refl (attempt-IsFaithful p ts)
      (stream_text_tokens-IsOneAnswer p answers)
