-- ===== src/StdMap/Laws.antt =====
-- Reading a map after a write.
use kierki_sik.Prelude.{◌≡◌, refl, List, [], ◌∷◌, some, Bytes, same, same_iff, if◌then◌else◌, arith}
use kierki_sik.StdMap.{lookup, at_or, assign}

module _ {ℓ} {V : Type ℓ} where
  pub lookup-assign :
      (k j : Bytes) (v : V) (m : List (Bytes × V))
      → lookup j (assign k v m) ≡ (if same k j then some v else lookup j m)
  unfolding lookup assign
  lookup-assign k j v [] = refl
  lookup-assign k j v ((i, w) ∷ m) =
      ground (arith, same_iff i k, same_iff i j, same_iff k j, lookup-assign k j v m)

  pub at_or-assign :
      (d : V) (k j : Bytes) (v : V) (m : List (Bytes × V))
      → at_or d j (assign k v m) ≡ (if same k j then v else at_or d j m)
  unfolding at_or
  at_or-assign d k j v m = ground (arith, lookup-assign k j v m)
