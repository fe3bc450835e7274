-- ===== src/Blockchain/Block.antt =====
-- blockchain/block.go and chain.go: blocks and the chain that holds them.
use august.Base.{
  ℕ, suc, ◌-◌, ◌%◌, Bool, true, Option, none, some, List, [], ◌∷◌, ◌++◌, ltb, ◌==◌, if◌then◌else◌,
  length, get_elem?, set, replicate,
}
use august.Base.Dict.{Dict, insert, nat_eq}
use august.Config.{target_compact, recalculation_frequency}
use august.Utils.Compact.{big_to_compact}
use august.Blockchain.Primitives.{Crypto}
use august.Blockchain.Account.{States}
use august.Blockchain.Transaction.{Transaction}
use august.Blockchain.Header.{BlockHeader, header_hash, clamped_timespan, next_target}

pub record Block : Type 0 where
  pub header : BlockHeader
  pub transactions : List Transaction

-- `Chain`, its mutexes aside. An entry of `blocks` that was never filled is nil.
pub record Chain : Type 0 where
  pub blocks : List (Option Block)
  pub block_index : Dict ℕ Block
  pub headers : Dict ℕ BlockHeader
  pub account_states : States
  pub tip : Option Block

-- `Block.GetHash`
abbrev pub block_hash : Crypto → Block → ℕ
block_hash c b = header_hash c b.header

-- The slice made long enough, then the write.
unfoldable pub place_at : List (Option Block) → ℕ → Block → List (Option Block)
place_at blocks height b =
    set (blocks ++ replicate (suc height - length blocks) none) height (some b)

abbrev pub is_higher : Block → Option Block → Bool
is_higher b none = true
is_higher b (some tip) = ltb tip.header.height b.header.height

-- `AddHeader`
unfoldable pub add_header : Crypto → BlockHeader → Chain → Chain
unfolding header_hash insert
add_header c h chain = record chain { headers = insert (header_hash c h) h chain.headers }

-- `AddBlock`
unfoldable pub add_block : Crypto → Block → Chain → Chain
unfolding header_hash insert place_at
add_block c b chain = record chain {
  block_index = insert (block_hash c b) b chain.block_index;
  headers = insert (block_hash c b) b.header chain.headers;
  blocks = place_at chain.blocks b.header.height b;
  tip = if is_higher b chain.tip then some b else chain.tip;
}

-- `NewChain`: the genesis block is indexed, and is neither in `blocks` nor the tip.
unfoldable pub new_chain : Crypto → Block → Chain
unfolding header_hash
new_chain c genesis = record {
  blocks = [];
  block_index = (block_hash c genesis, genesis) ∷ [];
  headers = (block_hash c genesis, genesis.header) ∷ [];
  account_states = [];
  tip = none;
}

abbrev entry : Option (Option Block) → Option Block
entry none = none
entry (some o) = o

abbrev retarget : Option Block → Option Block → Option ℕ
retarget (some first) (some last) = some (
    big_to_compact (
      next_target last.header.bits (clamped_timespan first.header.timestamp last.header.timestamp)))
retarget _ _ = none

abbrev bits_of : Option Block → Option ℕ
bits_of none = none
bits_of (some b) = some b.header.bits

-- `GetTargetBits` at the height that is the number of blocks, as its only caller uses it. `none`
-- is the panic on an entry that is nil.
unfoldable pub target_bits : List (Option Block) → Option ℕ
unfolding next_target clamped_timespan big_to_compact
target_bits blocks =
    let n = length blocks in
    if n == 0
    then some target_compact
    else if n % recalculation_frequency == 0
    then retarget (entry (get_elem? blocks (n - recalculation_frequency)))
        (entry (get_elem? blocks (n - 1)))
    else bits_of (entry (get_elem? blocks (n - 1)))
