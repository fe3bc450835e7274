-- ===== src/Blockchain/Sorting.antt =====
-- blockchain/crypto.go: the exchange sort in which `ComputeStateRoot` and `ComputeStorageRoot` bring
-- the keys of a map; the entries carry their values along.
pub mod Sorted
use august.Base.{ℕ, zero, suc, Bool, true, false, List, [], ◌∷◌, if◌then◌else◌}

module _ {K V : Type 0} (gt : K → K → Bool) where
  -- The inner loop: the entry in front changes places with each smaller one after it.
  unfoldable pub pass : K × V → List (K × V) → (K × V) × List (K × V)
  pass x [] = (x, [])
  pass x (y ∷ ys) =
      let (least, rest) = pass (if gt x.0 y.0 then y else x) ys in
      (least, (if gt x.0 y.0 then x else y) ∷ rest)

  -- The outer loop, once for each entry.
  unfoldable pub sort_entries : ℕ → List (K × V) → List (K × V)
  unfolding pass
  sort_entries zero es = es
  sort_entries (suc n) [] = []
  sort_entries (suc n) (e ∷ es) = let (x, rest) = pass e es in x ∷ sort_entries n rest
