-- ===== src/Session/Outbox.antt =====
-- Events of a call keep their places: the outbox of ai-backend/app/call/session.py and what was taken
-- from it.
use ray_me.Base.{
  ℕ, ◌+◌, Bool, true, false, not, ◌||◌, Option, none, some, is_some, List, [], ◌∷◌, ◌++◌, if_either,
  ◌≡◌, refl, ◌&&◌, arith, ◌==◌,
}
use ray_me.Session.Life.{OutboxEntry, Outcome, Event, resolve_in}

-- The entries have the places behind `a` up to `b`, one by one.
abbrev pub Counts : ℕ → List OutboxEntry → ℕ → Type 0
Counts a [] b = a ≡ b
Counts a (x ∷ xs) b = x.sequence ≡ a + 1 × Counts (a + 1) xs b

abbrev pub is_place : Option Outcome → ℕ → Bool
is_place none n = false
is_place (some o) n = o.sequence == n

-- Only the entry of the outcome may still lack its payload.
abbrev pub AreReadyBut : Option Outcome → List OutboxEntry → Type 0
AreReadyBut o [] = Unit
AreReadyBut o (x ∷ xs) = is_some x.event || is_place o x.sequence ≡ true × AreReadyBut o xs

abbrev pub AreReady : List OutboxEntry → Type 0
AreReady [] = Unit
AreReady (x ∷ xs) = is_some x.event ≡ true × AreReady xs

pub Counts-append :
    (a b c : ℕ) (xs : List OutboxEntry) (x : OutboxEntry)
    → Counts a xs b
    → x.sequence ≡ b + 1
    → c ≡ b + 1
    → Counts a (xs ++ x ∷ []) c
Counts-append a b c [] x p q r = (omega (arith, p, q), omega (arith, p, r))
Counts-append a b c (y ∷ ys) x p q r = (p.0, Counts-append (a + 1) b c ys x p.1 q r)

pub Counts-resolve_in :
    (a b n : ℕ) (e : Event) (xs : List OutboxEntry) → Counts a xs b → Counts a (resolve_in n e xs) b
Counts-resolve_in a b n e [] p = p
Counts-resolve_in a b n e (x ∷ xs) p = (
  if_either (λ (y : OutboxEntry). y.sequence ≡ a + 1) (x.sequence == n && not (is_some x.event))
      (λ _. p.0) (λ _. p.0),
  Counts-resolve_in (a + 1) b n e xs p.1,
)

pub AreReadyBut-append :
    (o : Option Outcome) (xs : List OutboxEntry) (x : OutboxEntry)
    → AreReadyBut o xs
    → is_some x.event || is_place o x.sequence ≡ true
    → AreReadyBut o (xs ++ x ∷ [])
AreReadyBut-append o [] x p q = (q, tt)
AreReadyBut-append o (y ∷ ys) x p q = (p.0, AreReadyBut-append o ys x p.1 q)

pub AreReady-AreReadyBut :
    (o : Option Outcome) (xs : List OutboxEntry) → AreReadyBut none xs → AreReadyBut o xs
AreReady-AreReadyBut o [] p = tt
AreReady-AreReadyBut o (x ∷ xs) p = (ground (arith, p.0), AreReady-AreReadyBut o xs p.1)

pub AreReady-resolve_in :
    (o : Outcome) (e : Event) (xs : List OutboxEntry)
    → AreReadyBut (some o) xs
    → AreReady (resolve_in o.sequence e xs)
AreReady-resolve_in o e [] p = tt
AreReady-resolve_in o e (x ∷ xs) p = (
  if_either (λ (y : OutboxEntry). is_some y.event ≡ true)
      (x.sequence == o.sequence && not (is_some x.event)) (λ _. refl) (λ h. ground (arith, h, p.0)),
  AreReady-resolve_in o e xs p.1,
)

pub AreReadyBut-resolve_in :
    (o : Option Outcome) (n : ℕ) (e : Event) (xs : List OutboxEntry)
    → AreReadyBut o xs
    → AreReadyBut o (resolve_in n e xs)
AreReadyBut-resolve_in o n e [] p = tt
AreReadyBut-resolve_in o n e (x ∷ xs) p = (
  if_either (λ (y : OutboxEntry). (is_some y.event || is_place o y.sequence) ≡ true)
      (x.sequence == n && not (is_some x.event)) (λ _. refl) (λ _. p.0),
  AreReadyBut-resolve_in o n e xs p.1,
)

pub AreReadyBut-none-AreReady : (xs : List OutboxEntry) → AreReadyBut none xs → AreReady xs
AreReadyBut-none-AreReady [] p = tt
AreReadyBut-none-AreReady (x ∷ xs) p = (ground (arith, p.0), AreReadyBut-none-AreReady xs p.1)
