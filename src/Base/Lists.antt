-- ===== src/Base/Lists.antt =====
-- Lists measured by native numbers, predicates on lists, and sets of identifiers kept as lists.
use Prim.Native.Nat.{ℕ, suc, ◌+◌}
use mathlib.Core.Path.{◌≡◌, refl}
use mathlib.Core.Bool.{Bool, true, false, ◌||◌}
use mathlib.Core.List.{List, [], ◌∷◌, ◌++◌}
use native.Mathlib.Omega.{arith}
use ray_me.Base.Tests.{◌==◌, if◌then◌else◌}

module _ {ℓ} {A : Type ℓ} where
  abbrev pub length : List A → ℕ
  length [] = 0
  length (x ∷ xs) = suc (length xs)

  abbrev pub is_empty : List A → Bool
  is_empty [] = true
  is_empty (x ∷ xs) = false

  pub length-append : (xs ys : List A) → length (xs ++ ys) ≡ length xs + length ys
  length-append [] ys = omega arith
  length-append (x ∷ xs) ys = omega (arith, length-append xs ys)

  abbrev pub All {κ} : (A → Type κ) → List A → Type κ
  All P [] = Unit
  All P (x ∷ xs) = P x × All P xs

-- A Python set of identifiers: `in`, `add`, `discard`.
abbrev pub contains : List ℕ → ℕ → Bool
contains [] a = false
contains (x ∷ xs) a = x == a || contains xs a

abbrev pub add : ℕ → List ℕ → List ℕ
add a xs = if contains xs a then xs else a ∷ xs

abbrev pub discard : ℕ → List ℕ → List ℕ
discard a [] = []
discard a (x ∷ xs) = if x == a then discard a xs else x ∷ discard a xs

pub contains-discard_self : (a : ℕ) (xs : List ℕ) → contains (discard a xs) a ≡ false
contains-discard_self a [] = refl
contains-discard_self a (x ∷ xs) = ground (arith, contains-discard_self a xs)

pub contains-discard_ne :
    (a b : ℕ) (xs : List ℕ) → (a == b) ≡ false → contains (discard a xs) b ≡ contains xs b
contains-discard_ne a b [] h = refl
contains-discard_ne a b (x ∷ xs) h = ground (arith, contains-discard_ne a b xs h)

pub contains-add_self : (a : ℕ) (xs : List ℕ) → contains (add a xs) a ≡ true
contains-add_self a xs = ground arith

pub contains-add_ne : (a b : ℕ) (xs : List ℕ) → contains xs b ≡ true → contains (add a xs) b ≡ true
contains-add_ne a b xs h = ground (arith, h)
