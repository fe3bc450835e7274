-- ===== src/Node/Queries.antt =====
-- node/getters.go: what is read from a node.
use august.Base.{ℕ, Option, none, some, List, [], ◌∷◌, ◌==◌, if◌then◌else◌}
use august.Base.Bytes.{Bytes, ascii}
use august.Base.Dict.{Dict, lookup, nat_eq}
use august.Blockchain.Header.{BlockHeader, header_hash}
use august.Blockchain.Block.{Block, Chain, block_hash, new_chain}
use august.Blockchain.Getters.{get_block_at_height}
use august.Blockchain.ValidateBlock.{World}
use august.Node.State.{NodeState, current_chain}

abbrev pub tip_of : Option Chain → Option Block
tip_of none = none
tip_of (some chain) = chain.tip

-- `GetCurrentChain`
unfoldable pub get_current_chain : NodeState → Option Block
get_current_chain s = if s.current_tip == 0 then none else tip_of (current_chain s)

abbrev pub or_else : {A : Type 0} → Option A → Option A → Option A
or_else none b = b
or_else (some a) b = some a

-- `Node.GetBlock`
unfoldable pub find_block : ℕ → NodeState → Option Block
find_block hash s = or_else (lookup hash s.submitted) (lookup hash s.blocks_map)

abbrev cons_some : {A : Type 0} → Option A → List A → List A
cons_some none rest = rest
cons_some (some a) rest = a ∷ rest

-- `GetBlocks`
unfoldable pub find_blocks : List ℕ → NodeState → List Block
unfolding find_block
find_blocks [] s = []
find_blocks (hash ∷ hashes) s = cons_some (find_block hash s) (find_blocks hashes s)

-- `Node.GetHeader`
abbrev pub find_header : ℕ → NodeState → Option BlockHeader
find_header hash s = lookup hash s.headers_map

-- `GetHeaders`
unfoldable pub find_headers : List ℕ → NodeState → List BlockHeader
find_headers [] s = []
find_headers (hash ∷ hashes) s = cons_some (find_header hash s) (find_headers hashes s)

abbrev at_height : ℕ → Option Chain → Option Block
at_height height none = none
at_height height (some chain) = get_block_at_height height chain

-- `Node.GetBlockAtHeight`
unfoldable pub find_block_at_height : ℕ → NodeState → Option Block
unfolding get_block_at_height
find_block_at_height height s =
    if s.current_tip == 0 then none else at_height height (current_chain s)

-- `ChainHead`
pub record ChainHead : Type 0 where
  pub height : ℕ
  pub hash : ℕ
  pub total_work : Bytes

abbrev pub empty_head : ChainHead
empty_head = record { height = 0; hash = 0; total_work = ascii "0" }

abbrev pub head_of : World → Option Block → ChainHead
head_of w none = empty_head
head_of w (some b) = record {
  height = b.header.height;
  hash = block_hash w.crypto b;
  total_work = b.header.total_work;
}

-- `GetChainHead`
unfoldable pub get_chain_head : World → NodeState → ChainHead
unfolding header_hash
get_chain_head w s = if s.current_tip == 0 then empty_head else head_of w (tip_of (current_chain s))

abbrev pub or_new : World → Option Chain → Chain
or_new w none = new_chain w.crypto w.genesis
or_new w (some chain) = chain

-- `GetChain`, whose copy is the same value.
unfoldable pub get_chain : World → NodeState → Chain
unfolding new_chain
get_chain w s =
    if s.current_tip == 0 then new_chain w.crypto w.genesis else or_new w (current_chain s)

-- `GetCandidateChains`: the copy of a map is the same map.
unfoldable pub get_candidate_chains : NodeState → Dict ℕ ℕ
get_candidate_chains s = s.chains
