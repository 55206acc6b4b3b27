-- ===== src/Prelude/Maps.antt =====
-- `std::map<int, V>` and `std::multimap<int, V>` as lists of entries in the order of their keys.
use mathlib.Core.Path.{◌≡◌}
use mathlib.Core.List.{List, [], ◌∷◌}
use mathlib.Core.Option.{Option, none, some}
use native.Mathlib.Omega.{arith}
use quisp.Prelude.Tests.{if◌then◌else◌}
use quisp.Prelude.Ints.{ℤ, ◌==ℤ◌, ltb_ℤ}

module _ {ℓ} {V : Type ℓ} where
  -- `find`
  unfoldable pub lookup : ℤ → List (ℤ × V) → Option V
  lookup k [] = none
  lookup k ((j, v) ∷ m) = if j ==ℤ k then some v else lookup k m

  -- `it->second = v` where `it` is the entry at `k`
  unfoldable pub assign : ℤ → V → List (ℤ × V) → List (ℤ × V)
  assign k v [] = []
  assign k v ((j, w) ∷ m) = if j ==ℤ k then (j, v) ∷ m else (j, w) ∷ assign k v m

  -- `insert` of a map: an entry that is there stays as it is.
  unfoldable pub insert_new : ℤ → V → List (ℤ × V) → List (ℤ × V)
  insert_new k v [] = (k, v) ∷ []
  insert_new k v ((j, w) ∷ m) =
      if j ==ℤ k
      then (j, w) ∷ m
      else if ltb_ℤ k j
      then (k, v) ∷ (j, w) ∷ m
      else (j, w) ∷ insert_new k v m

  -- `insert` of a multimap: behind the entries with the same key.
  unfoldable pub insert_multi : ℤ → V → List (ℤ × V) → List (ℤ × V)
  insert_multi k v [] = (k, v) ∷ []
  insert_multi k v ((j, w) ∷ m) =
      if ltb_ℤ k j then (k, v) ∷ (j, w) ∷ m else (j, w) ∷ insert_multi k v m

  pub lookup-assign :
      (k j : ℤ) (v w : V) (m : List (ℤ × V))
      → lookup k m ≡ some w
      → lookup j (assign k v m) ≡ (if k ==ℤ j then some v else lookup j m)
  unfolding lookup assign
  lookup-assign k j v w [] h = cc
  lookup-assign k j v w ((i, u) ∷ m) h = ground (arith, lookup-assign k j v w m)
