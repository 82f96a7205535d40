-- ===== src/Refusal/Attempts.antt =====
-- `_stream_text_tokens` of web-ui/server/app/domain/llm_stream.py: at most three attempts, each with
-- a guard of its own. What upstream answers to an attempt is a list of tokens.
use ray_me.Base.{
  Bool, true, false, not, ◌||◌, Option, none, some, List, [], ◌∷◌, ◌++◌, if◌then◌else◌,
}
use ray_me.Refusal.Guard.{Guard, Text, Patterns, new_guard, Decision, feed, finish}

-- What an attempt yields, and whether it is refused; `RuntimeError` is `none`.
abbrev pub Yield : Type 0
Yield = Option (List Text × Bool)

abbrev pub yield_first : List Text → Yield → Yield
yield_first released none = none
yield_first released (some (ts, b)) = some (released ++ ts, b)

-- The text of the decision is yielded, unless it is a refusal, and then the rest is not read.
abbrev pub after_feed : (Guard → Yield) → Option (Guard × Decision) → Yield
after_feed rest none = none
after_feed rest (some (g, d)) =
    if d.refused then some ([], true) else yield_first d.released_text (rest g)

unfoldable pub attempt_from : Patterns → List Text → Guard → Yield
unfolding feed finish
attempt_from p [] g = some ((finish p g).1.released_text, (finish p g).1.refused)
attempt_from p (t ∷ ts) g = after_feed (attempt_from p ts) (feed p g t)

pub data StreamEnd : Type 0 where
  completed empty_output refusal_exhausted : StreamEnd

abbrev any_visible : Patterns → Text → Bool
any_visible p [] = false
any_visible p (c ∷ t) = not (p.is_space c) || any_visible p t

abbrev pub any_nonblank : Patterns → List Text → Bool
any_nonblank p [] = false
any_nonblank p (t ∷ ts) = any_visible p t || any_nonblank p ts

abbrev pub after_attempt :
    Patterns → Yield → Option (List Text × StreamEnd) → Option (List Text × StreamEnd)
after_attempt p none rest = none
after_attempt p (some (ts, false)) rest =
    some (ts, (if any_nonblank p ts then completed else empty_output))
after_attempt p (some (ts, true)) none = none
after_attempt p (some (ts, true)) (some (us, e)) = some (ts ++ us, e)

-- The answers of upstream to the attempts in order: the caller gives three.
unfoldable pub stream_text_tokens : Patterns → List (List Text) → Option (List Text × StreamEnd)
unfolding attempt_from
stream_text_tokens p [] = some ([], refusal_exhausted)
stream_text_tokens p (ts ∷ answers) =
    let rest = stream_text_tokens p answers in after_attempt p (attempt_from p ts new_guard) rest
