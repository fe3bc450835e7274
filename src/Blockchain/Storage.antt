-- ===== src/Blockchain/Storage.antt =====
-- blockchain/crypto.go: `ComputeStorageRoot`.
pub mod Root
use august.Base.{
  ℕ, zero, suc, Bool, true, false, Option, none, some, List, [], ◌∷◌, ◌++◌, ltb, ◌==◌,
  if◌then◌else◌, map, length,
}
use august.Base.Bytes.{Bytes}
use august.Base.Dict.{Dict}
use august.Blockchain.Primitives.{Crypto}
use august.Blockchain.Sorting.{sort_entries}
use august.Blockchain.Merkle.{merkle_root}

-- `>` on strings
unfoldable pub bytes_gt : Bytes → Bytes → Bool
bytes_gt [] ys = false
bytes_gt (x ∷ xs) [] = true
bytes_gt (x ∷ xs) (y ∷ ys) =
    let rest = bytes_gt xs ys in if ltb y x then true else if x == y then rest else false

abbrev Entry : Type 0
Entry = Bytes × Bytes

unfoldable pub entry_hash : Crypto → Entry → ℕ
entry_hash c (k, v) = c.sha256 (k ++ v)

abbrev pub or_zero : Option ℕ → ℕ
or_zero none = 0
or_zero (some r) = r

-- On the fuel of `merkle_root` see Blockchain/Merkle/Levels.antt; `none` would be a lack of it.
unfoldable pub compute_storage_root : Crypto → Dict Bytes Bytes → ℕ
unfolding merkle_root bytes_gt entry_hash
compute_storage_root c d =
    or_zero (merkle_root c (map (entry_hash c) (sort_entries bytes_gt (length d) d)))
