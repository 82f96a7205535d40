-- ===== src/Refusal/Held.antt =====
-- How much text `PrefixRefusalGuard` of web-ui/server/app/domain/refusal_guard.py holds back.
use ray_me.Base.{
  if_either, ◌≡◌, false, Option, none, some, List, [], ◌∷◌, arith, ◌≤◌, refl, subst, length,
}
use ray_me.Refusal.Guard.{
  Guard, Text, Patterns, ReasonCode, GuardState, holding, passthrough, refused, finished,
  refusal_reason, is_ceiling_reached, should_release, hold, judge, is_blank, feed_in, feed,
  new_guard, Decision,
}

-- The guard after a list of chunks.
unfoldable pub feed_all : Patterns → Guard → List Text → Option Guard
unfolding feed
feed_all p g [] = some g
feed_all p g (t ∷ ts) = elim (feed p g t) as (λ _. Option Guard) [
  | none ↦ none
  | some q ↦ feed_all p q.0 ts
]

-- A guard that still holds has not reached its ceilings, which stay as they are.
abbrev IsWithin : Guard → Type 0
IsWithin g = g.max_estimated_tokens ≡ 96 × (g.state ≡ holding → is_ceiling_reached g ≡ false)

abbrev AreWithin : Option (Guard × Decision) → Type 0
AreWithin none = Unit {0}
AreWithin (some (g, d)) = IsWithin g

judge-IsWithin :
    (p : Patterns) (g : Guard) (r : Option ReasonCode)
    → g.max_estimated_tokens ≡ 96
    → IsWithin (judge p g r).0
unfolding judge should_release
judge-IsWithin p g none m =
    if_either (λ (q : Guard × Decision). IsWithin q.0) (should_release p g)
      (λ h. (m, λ e. ground (arith, e))) (λ h. (m, λ e. ground (arith, h)))
judge-IsWithin p g (some reason) m = (m, λ e. ground (arith, e))

feed_in-IsWithin :
    (s : GuardState) (p : Patterns) (g : Guard) (t : Text)
    → IsWithin g
    → AreWithin (feed_in s p g t)
unfolding feed_in
feed_in-IsWithin refused p g t h = tt
feed_in-IsWithin finished p g t h = tt
feed_in-IsWithin passthrough p g t h = h
feed_in-IsWithin holding p g t h =
    if_either AreWithin (is_blank t) (λ b. h)
      (λ b. judge-IsWithin p (hold g t) (refusal_reason p false (hold g t).prefix) h.0)

feed_all-IsWithin :
    (p : Patterns) (ts : List Text) (g h : Guard)
    → IsWithin g
    → feed_all p g ts ≡ some h
    → IsWithin h
unfolding feed_all feed
feed_all-IsWithin p [] g h w e =
    subst (λ o. elim o as (λ _. Type 0) [ none ↦ Unit {0} | some x ↦ IsWithin x ]) e w
feed_all-IsWithin p (t ∷ ts) g h w e =
    go (feed_in g.state p g t) (λ x k f. feed_all-IsWithin p ts x h k f)
      (feed_in-IsWithin g.state p g t w) e
  where
    go :
        (o : Option (Guard × Decision))
        → ((x : Guard) → IsWithin x → feed_all p x ts ≡ some h → IsWithin h)
        → AreWithin o
        → (elim o as (λ _. Option Guard) [ none ↦ none | some q ↦ feed_all p q.0 ts ]) ≡ some h
        → IsWithin h
    go none rest k f = ground (arith, f)
    go (some (x, d)) rest k f = rest x k f

ceiling :
    (g : Guard) → g.max_estimated_tokens ≡ 96 → is_ceiling_reached g ≡ false → length g.prefix ≤ 380
ceiling g m h = ground (arith, m, h)

-- Whatever the patterns are, a guard that still holds after some chunks holds at most 380 characters:
-- the ceiling of 96 estimated tokens is reached before the one of 384 characters.
pub feed_all-bounded :
    (p : Patterns) (ts : List Text) (h : Guard)
    → feed_all p new_guard ts ≡ some h
    → h.state ≡ holding
    → length h.prefix ≤ 380
feed_all-bounded p ts h e k =
    let w = feed_all-IsWithin p ts new_guard h (refl, λ s. refl) e in ceiling h w.0 (w.1 k)
