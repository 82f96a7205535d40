-- ===== src/Base/Dict.antt =====
-- Python dictionaries with identifiers for keys, as association lists: `get`, item assignment and
-- `pop`.
use ray_me.Base.Tests.{◌==◌, if◌then◌else◌}
use Prim.Native.Nat.{ℕ}
use mathlib.Core.Path.{◌≡◌, refl}
use mathlib.Core.Option.{Option, none, some}
use mathlib.Core.List.{List, [], ◌∷◌}
use native.Mathlib.Omega.{arith}

module _ {ℓ} {V : Type ℓ} where
  abbrev pub get : List (ℕ × V) → ℕ → Option V
  get [] k = none
  get ((j, v) ∷ m) k = if j == k then some v else get m k

  abbrev pub put : List (ℕ × V) → ℕ → V → List (ℕ × V)
  put [] k v = (k, v) ∷ []
  put ((j, w) ∷ m) k v = if j == k then (k, v) ∷ m else (j, w) ∷ put m k v

  abbrev pub pop : List (ℕ × V) → ℕ → List (ℕ × V)
  pop [] k = []
  pop ((j, w) ∷ m) k = let rest = pop m k in if j == k then rest else (j, w) ∷ rest

  abbrev pub map_some : (V → V) → Option V → Option V
  map_some f none = none
  map_some f (some v) = some (f v)

  pub get-put :
      (m : List (ℕ × V)) (k j : ℕ) (v : V)
      → get (put m k v) j ≡ (if k == j then some v else get m j)
  get-put [] k j v = refl
  get-put ((i, w) ∷ m) k j v = ground (arith, get-put m k j v)

  pub get-pop : (m : List (ℕ × V)) (k j : ℕ) → get (pop m k) j ≡ (if k == j then none else get m j)
  get-pop [] k j = ground arith
  get-pop ((i, w) ∷ m) k j = ground (arith, get-pop m k j)
