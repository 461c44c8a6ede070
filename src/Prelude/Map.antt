-- ===== src/Prelude/Map.antt =====
-- A Go map as an association list with each key once. Keys are compared by the function given.
pub mod Keys
use mathlib.Core.Path.{◌≡◌, refl}
use mathlib.Core.Logic.{◌↔◌}
use mathlib.Core.Bool.{Bool, true}
use mathlib.Core.Option.{Option, none, some}
use mathlib.Core.List.{List, [], ◌∷◌}
use native.Mathlib.Omega.{arith}
use qsp.Prelude.Tests.{if◌then◌else◌}

module _ {K V : Type 0} (eq : K → K → Bool) where
  -- `m[k]`, with the second result as the constructor.
  unfoldable pub lookup : List (K × V) → K → Option V
  lookup [] k = none
  lookup ((j, v) ∷ m) k = if eq j k then some v else lookup m k

  -- `m[k] = v`.
  unfoldable pub put : List (K × V) → K → V → List (K × V)
  put [] k v = (k, v) ∷ []
  put ((j, w) ∷ m) k v = if eq j k then (j, v) ∷ m else (j, w) ∷ put m k v

  -- `delete(m, k)`.
  unfoldable pub delete : List (K × V) → K → List (K × V)
  delete [] k = []
  delete ((j, w) ∷ m) k = let rest = delete m k in if eq j k then rest else (j, w) ∷ rest

  module _ (eq_iff : (a b : K) → (eq a b ≡ true) ↔ (a ≡ b)) where
    pub lookup-put :
        (m : List (K × V)) (k j : K) (v : V)
        → lookup (put m k v) j ≡ (if eq k j then some v else lookup m j)
    unfolding lookup put
    lookup-put [] k j v = refl
    lookup-put ((i, w) ∷ m) k j v =
        ground (arith, eq_iff i k, eq_iff i j, eq_iff k j, lookup-put m k j v)

    pub lookup-delete :
        (m : List (K × V)) (k j : K) → lookup (delete m k) j ≡ (if eq k j then none else lookup m j)
    unfolding lookup delete
    lookup-delete [] k j = ground arith
    lookup-delete ((i, w) ∷ m) k j =
        ground (arith, eq_iff i k, eq_iff i j, eq_iff k j, lookup-delete m k j)
