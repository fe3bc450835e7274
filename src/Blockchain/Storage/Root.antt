-- ===== src/Blockchain/Storage/Root.antt =====
-- blockchain/crypto.go: the storage root does not depend on the order in which the map is visited.
use mathlib.Core.List.{Perm}
use august.Base.{◌≡◌, refl, ap, true, false, [], ◌∷◌, arith}
use august.Base.Bytes.{Bytes}
use august.Base.Dict.{Dict}
use august.Blockchain.Primitives.{Crypto}
use august.Blockchain.Merkle.{merkle_root}
use august.Blockchain.Sorting.Sorted.{Order, IsMap, sort_entries-perm}
use august.Blockchain.Storage.{bytes_gt, entry_hash, or_zero, compute_storage_root}

bytes_gt_asym : (a b : Bytes) → bytes_gt a b ≡ true → bytes_gt b a ≡ false
unfolding bytes_gt
bytes_gt_asym [] b h = absurd (cc)
bytes_gt_asym (x ∷ a) [] h = refl
bytes_gt_asym (x ∷ a) (y ∷ b) h = ground (arith, bytes_gt_asym a b)

bytes_gt_trans :
    (a b c : Bytes) → bytes_gt a b ≡ false → bytes_gt b c ≡ false → bytes_gt a c ≡ false
unfolding bytes_gt
bytes_gt_trans [] b c h k = refl
bytes_gt_trans (x ∷ a) [] c h k = absurd (cc)
bytes_gt_trans (x ∷ a) (y ∷ b) [] h k = absurd (cc)
bytes_gt_trans (x ∷ a) (y ∷ b) (z ∷ c) h k = ground (arith, bytes_gt_trans a b c)

bytes_gt_antisym : (a b : Bytes) → bytes_gt a b ≡ false → bytes_gt b a ≡ false → a ≡ b
unfolding bytes_gt
bytes_gt_antisym [] [] h k = refl
bytes_gt_antisym [] (y ∷ b) h k = absurd (cc)
bytes_gt_antisym (x ∷ a) [] h k = absurd (cc)
bytes_gt_antisym (x ∷ a) (y ∷ b) h k = ground (arith, bytes_gt_antisym a b)

bytes_gt-Order : Order bytes_gt
bytes_gt-Order = record { asym = bytes_gt_asym; trans = bytes_gt_trans; antisym = bytes_gt_antisym }

-- `ComputeStorageRoot` gives one root for a map, in whatever order its entries are visited.
pub compute_storage_root-perm :
    (c : Crypto) (d d' : Dict Bytes Bytes)
    → Perm d d'
    → IsMap d
    → compute_storage_root c d ≡ compute_storage_root c d'
unfolding compute_storage_root
compute_storage_root-perm c d d' p m =
    ap (λ hs. or_zero (merkle_root c hs))
      (sort_entries-perm bytes_gt bytes_gt-Order (entry_hash c) d d' p m)
