-- ===== src/StdMap.antt =====
-- `std::map<string, V>`: an association list in the order of its keys.
pub mod Laws
use kierki_sik.Prelude.{List, [], ◌∷◌, Option, none, some, Bytes, same, before, if◌then◌else◌}

module _ {ℓ} {V : Type ℓ} where
  -- `find`.
  unfoldable pub lookup : Bytes → List (Bytes × V) → Option V
  lookup k [] = none
  lookup k ((j, v) ∷ m) = if same j k then some v else lookup k m

  -- `m[k]` read: a missing key has the value `d` that the map's `operator[]` gives it.
  unfoldable pub at_or : V → Bytes → List (Bytes × V) → V
  unfolding lookup
  at_or d k m = elim (lookup k m) [ none ↦ d | some v ↦ v ]

  -- `m[k] = v`: a new key goes to its place in the order.
  unfoldable pub assign : Bytes → V → List (Bytes × V) → List (Bytes × V)
  assign k v [] = (k, v) ∷ []
  assign k v ((j, w) ∷ m) =
      if same j k
      then (k, v) ∷ m
      else if before k j
      then (k, v) ∷ (j, w) ∷ m
      else (j, w) ∷ assign k v m
