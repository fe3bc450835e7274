-- ===== src/Blockchain/Getters.antt =====
-- blockchain/chain.go: what is read from a chain, and its accounts.
pub mod AfterAdd
use august.Base.{
  ℕ, Bool, true, false, Option, none, some, List, [], ◌∷◌, leb, length, get_elem?, if◌then◌else◌,
}
use august.Base.Dict.{lookup, nat_eq}
use august.Blockchain.Primitives.{Crypto}
use august.Blockchain.Account.{States}
use august.Blockchain.Header.{BlockHeader}
use august.Blockchain.Block.{Block, Chain, block_hash}

-- `GetBlock`
abbrev pub get_block : ℕ → Chain → Option Block
get_block hash chain = lookup hash chain.block_index

-- `GetHeader`
abbrev pub get_header : ℕ → Chain → Option BlockHeader
get_header hash chain = lookup hash chain.headers

abbrev pub flatten : Option (Option Block) → Option Block
flatten none = none
flatten (some o) = o

-- `GetBlockAtHeight`
unfoldable pub get_block_at_height : ℕ → Chain → Option Block
get_block_at_height height chain =
    if leb (length chain.blocks) height then none else flatten (get_elem? chain.blocks height)

abbrev hash_of : Crypto → Option Block → ℕ
hash_of c none = 0
hash_of c (some b) = block_hash c b

-- `GetTipHash`
unfoldable pub get_tip_hash : Crypto → Chain → ℕ
get_tip_hash c chain = hash_of c chain.tip

-- `SetAccountStates`
abbrev pub set_account_states : States → Chain → Chain
set_account_states states chain = record chain { account_states = states }
