-- ===== src/Blockchain/StateRoot/Root.antt =====
-- blockchain/crypto.go: the state root does not depend on the order in which the map is visited.
use mathlib.Core.List.{Perm}
use august.Base.{◌≡◌, ap, arith}
use august.Blockchain.Primitives.{Crypto}
use august.Blockchain.Account.{States}
use august.Blockchain.Merkle.{merkle_root}
use august.Blockchain.Sorting.Sorted.{Order, IsMap, sort_entries-perm}
use august.Blockchain.Storage.{or_zero}
use august.Blockchain.StateRoot.{key_gt, state_hash, compute_state_root}

key_gt-Order : Order key_gt
key_gt-Order = record {
  asym = λ a b h. ground arith;
  trans = λ a b c h k. ground arith;
  antisym = λ a b h k. ground arith;
}

-- `ComputeStateRoot` gives one root for a map of accounts, in whatever order it is visited.
pub compute_state_root-perm :
    (c : Crypto) (states states' : States)
    → Perm states states'
    → IsMap states
    → compute_state_root c states ≡ compute_state_root c states'
unfolding compute_state_root
compute_state_root-perm c states states' p m =
    ap (λ hs. or_zero (merkle_root c hs))
      (sort_entries-perm key_gt key_gt-Order (state_hash c) states states' p m)
