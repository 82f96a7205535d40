-- ===== src/Refusal/Released.antt =====
-- What an attempt of web-ui/server/app/domain/llm_stream.py yields under its guard: everything or
-- nothing.
use ray_me.Base.{
  if_either, ◌≡◌, refl, sym, ap, ◌∙◌, subst, true, false, Option, none, some, List, [], ◌∷◌, ◌++◌,
  append-nil, append_assoc, arith, if◌then◌else◌,
}
use ray_me.Refusal.Guard.{
  Guard, Text, Patterns, ReasonCode, safe_prefix, holding, passthrough, new_guard, refusal_reason,
  should_release, hold, decided, judge, is_blank, feed_in, feed, conclude, finish_in, finish,
}
use ray_me.Refusal.Attempts.{Yield, yield_first, after_feed, attempt_from}

abbrev pub join : List Text → Text
join [] = []
join (t ∷ ts) = t ++ join ts

join-append : (ts us : List Text) → join (ts ++ us) ≡ join ts ++ join us
join-append [] us = refl
join-append (t ∷ ts) us =
    ap (λ x. t ++ x) (join-append ts us) ∙ sym (append_assoc t (join ts) (join us))

-- A refused attempt yields nothing, another one yields the text.
abbrev pub IsFaithful : Text → Yield → Type 0
IsFaithful x none = true ≡ false
IsFaithful x (some (ts, false)) = join ts ≡ x
IsFaithful x (some (ts, true)) = ts ≡ []

-- An attempt that is not refused any more.
abbrev Passes : Text → Yield → Type 0
Passes x none = true ≡ false
Passes x (some (ts, false)) = join ts ≡ x
Passes x (some (ts, true)) = true ≡ false

Passes-IsFaithful : (x : Text) (y : Yield) → Passes x y → IsFaithful x y
Passes-IsFaithful x none h = h
Passes-IsFaithful x (some (ts, false)) h = h
Passes-IsFaithful x (some (ts, true)) h = ground (arith, h)

yield_first-Passes :
    (ts : List Text) (x : Text) (y : Yield) → Passes x y → Passes (join ts ++ x) (yield_first ts y)
yield_first-Passes ts x none h = h
yield_first-Passes ts x (some (us, false)) h = join-append ts us ∙ ap (λ z. join ts ++ z) h
yield_first-Passes ts x (some (us, true)) h = h

join-chunk : (t : Text) → join (if is_blank t then [] else t ∷ []) ≡ t
join-chunk [] = refl
join-chunk (c ∷ t) = append-nil (c ∷ t)

attempt_from-Passes :
    (p : Patterns) (ts : List Text) (g : Guard)
    → g.state ≡ passthrough
    → Passes (join ts) (attempt_from p ts g)
unfolding attempt_from feed finish feed_in finish_in
attempt_from-Passes p [] g e =
    subst (λ s. Passes [] (some ((finish_in s p g).1.released_text, (finish_in s p g).1.refused)))
      (sym e) refl
attempt_from-Passes p (t ∷ ts) g e =
    let rest = attempt_from-Passes p ts g e in
    subst (λ s. Passes (t ++ join ts) (after_feed (attempt_from p ts) (feed_in s p g t))) (sym e)
      (subst
        (λ x.
          Passes (x ++ join ts)
            (yield_first (if is_blank t then [] else t ∷ []) (attempt_from p ts g)))
        (join-chunk t)
        (yield_first-Passes (if is_blank t then [] else t ∷ []) (join ts) (attempt_from p ts g)
          rest))

-- The chunks held are the prefix.
pub IsHolding : Guard → Type 0
IsHolding g = g.state ≡ holding × join g.chunks ≡ g.prefix

hold-chunks :
    (g : Guard) (t : Text) → join g.chunks ≡ g.prefix → join (hold g t).chunks ≡ (hold g t).prefix
hold-chunks g t h =
    join-append g.chunks (t ∷ []) ∙ ap (λ x. join g.chunks ++ x) (append-nil t) ∙ ap (λ x. x ++ t) h

nothing_first : (x : Text) (y : Yield) → IsFaithful x y → IsFaithful x (yield_first [] y)
nothing_first x none h = h
nothing_first x (some (us, false)) h = h
nothing_first x (some (us, true)) h = h

judge-IsFaithful :
    (p : Patterns) (g : Guard) (r : Option ReasonCode) (ts : List Text)
    → join g.chunks ≡ g.prefix
    → IsFaithful (g.prefix ++ join ts) (attempt_from p ts g)
    → IsFaithful (g.prefix ++ join ts) (after_feed (attempt_from p ts) (some (judge p g r)))
unfolding judge
judge-IsFaithful p g (some reason) ts h k = refl
judge-IsFaithful p g none ts h k =
    if_either (λ q. IsFaithful (g.prefix ++ join ts) (after_feed (attempt_from p ts) (some q)))
      (should_release p g)
      (λ t.
        Passes-IsFaithful (g.prefix ++ join ts)
          (yield_first g.chunks (attempt_from p ts (decided g passthrough safe_prefix)))
          (subst
            (λ x.
              Passes (x ++ join ts)
                (yield_first g.chunks (attempt_from p ts (decided g passthrough safe_prefix))))
            h
            (yield_first-Passes g.chunks (join ts)
              (attempt_from p ts (decided g passthrough safe_prefix))
              (attempt_from-Passes p ts (decided g passthrough safe_prefix) refl))))
      (λ t. nothing_first (g.prefix ++ join ts) (attempt_from p ts g) k)

conclude-IsFaithful :
    (g : Guard) (r : Option ReasonCode)
    → join g.chunks ≡ g.prefix
    → IsFaithful (g.prefix ++ []) (some ((conclude g r).1.released_text, (conclude g r).1.refused))
unfolding conclude
conclude-IsFaithful g none h = h ∙ sym (append-nil g.prefix)
conclude-IsFaithful g (some reason) h = refl

attempt_from-IsFaithful :
    (p : Patterns) (ts : List Text) (g : Guard)
    → IsHolding g
    → IsFaithful (g.prefix ++ join ts) (attempt_from p ts g)
unfolding IsHolding attempt_from feed finish feed_in finish_in
attempt_from-IsFaithful p [] g (e, h) =
    subst
      (λ s.
        IsFaithful (g.prefix ++ [])
          (some ((finish_in s p g).1.released_text, (finish_in s p g).1.refused)))
      (sym e) (conclude-IsFaithful g (refusal_reason p true g.prefix) h)
attempt_from-IsFaithful p ([] ∷ ts) g (e, h) =
    subst
      (λ s. IsFaithful (g.prefix ++ join ts) (after_feed (attempt_from p ts) (feed_in s p g [])))
      (sym e)
      (nothing_first (g.prefix ++ join ts) (attempt_from p ts g)
        (attempt_from-IsFaithful p ts g (e, h)))
attempt_from-IsFaithful p ((c ∷ t) ∷ ts) g (e, h) =
    let rest = attempt_from-IsFaithful p ts (hold g (c ∷ t)) (e, hold-chunks g (c ∷ t) h) in
    subst
      (λ s.
        IsFaithful (g.prefix ++ ((c ∷ t) ++ join ts))
          (after_feed (attempt_from p ts) (feed_in s p g (c ∷ t))))
      (sym e)
      (subst (λ x. IsFaithful x (after_feed (attempt_from p ts) (feed_in holding p g (c ∷ t))))
        (append_assoc g.prefix (c ∷ t) (join ts))
        (judge-IsFaithful p (hold g (c ∷ t)) (refusal_reason p false (hold g (c ∷ t)).prefix) ts
          (hold-chunks g (c ∷ t) h) rest))

new_guard-IsHolding : IsHolding new_guard
unfolding IsHolding
new_guard-IsHolding = (refl, refl)

-- Whatever the patterns and the tokens are, an attempt that is refused at any point has yielded no
-- text at all, and one that is not refused yields exactly the text of its tokens.
pub attempt-IsFaithful :
    (p : Patterns) (ts : List Text) → IsFaithful (join ts) (attempt_from p ts new_guard)
attempt-IsFaithful p ts = attempt_from-IsFaithful p ts new_guard new_guard-IsHolding
