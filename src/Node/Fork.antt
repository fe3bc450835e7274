-- ===== src/Node/Fork.antt =====
-- node/header_processing.go: the chain that a header extends, and the making of a new chain from a
-- block that the node has.
use august.Base.{
  ℕ, zero, suc, Bool, true, false, Option, none, some, List, [], ◌∷◌, ◌++◌, ◌==◌, ◌||◌, length,
  if◌then◌else◌,
}
use august.Base.Dict.{Dict, insert, nat_eq}
use august.Blockchain.Account.{States}
use august.Blockchain.Header.{BlockHeader, header_hash}
use august.Blockchain.Block.{Block, Chain, block_hash, add_block, new_chain}
use august.Blockchain.Getters.{get_block, get_header, set_account_states}
use august.Blockchain.HeaderChain.{HeaderError, validate_header_total_work}
use august.Blockchain.ValidateBlock.{
  World, BlockError, Validated, valid, invalid, crashed, validate_block,
}
use august.Node.State.{NodeState, fetch_missing, put_chain, spawn, try_connect_orphan_children}
use august.Node.Queries.{find_block, find_header, or_else}

abbrev pub is_there : {A : Type 0} → Option A → Bool
is_there none = false
is_there (some a) = true

-- `checkHeaderExists`, over the chains in the order of a visit.
unfoldable pub check_header_exists : ℕ → Dict ℕ ℕ → (ℕ → Chain) → Bool
check_header_exists hash [] memory = false
check_header_exists hash ((tip, r) ∷ rest) memory =
    is_there (get_header hash (memory r)) || check_header_exists hash rest memory

-- `parentChainResult`: the pointer of the chain and its tip.
pub record ParentChain : Type 0 where
  pub chain : ℕ
  pub tip : ℕ

abbrev pub if_work_fits : ParentChain → Option HeaderError → Option ParentChain
if_work_fits found none = some found
if_work_fits found (some e) = none

abbrev pub check_parent_header :
    World → BlockHeader → ParentChain → Option BlockHeader → Option ParentChain → Option ParentChain
check_parent_header w h found none rest = rest
check_parent_header w h found (some parent) rest =
    if_work_fits found
      (validate_header_total_work w.crypto (block_hash w.crypto w.genesis) h parent.total_work)

-- `findParentChain`, over the chains in the order of a visit.
unfoldable pub find_parent_chain : World → BlockHeader → Dict ℕ ℕ → (ℕ → Chain) → Option ParentChain
find_parent_chain w h [] memory = none
find_parent_chain w h ((tip, r) ∷ rest) memory =
    if tip == h.previous_hash
    then check_parent_header w h (record { chain = r; tip = tip })
        (get_header h.previous_hash (memory r)) (find_parent_chain w h rest memory)
    else find_parent_chain w h rest memory

-- `parentBlockResult`
pub record ParentBlock : Type 0 where
  pub block : Block
  pub source : ℕ

abbrev with_source : ℕ → Option Block → Option ParentBlock
with_source r none = none
with_source r (some b) = some (record { block = b; source = r })

-- `findParentBlock`, over the chains in the order of a visit.
unfoldable pub find_parent_block : BlockHeader → Dict ℕ ℕ → (ℕ → Chain) → Option ParentBlock
find_parent_block h [] memory = none
find_parent_block h ((tip, r) ∷ rest) memory =
    or_else (with_source r (get_block h.previous_hash (memory r))) (find_parent_block h rest memory)

-- What the walk of `handleForkCreation` gathers: the blocks that are missing, and those to apply.
pub record Walk : Type 0 where
  pub missing : List ℕ
  pub blocks : List Block

abbrev pub note : ℕ → Option Block → Walk → Walk
note hash none k = record k { missing = k.missing ++ hash ∷ [] }
note hash (some b) k = record k { blocks = b ∷ k.blocks }

-- The walk from a hash towards the genesis block, a header at a time; `none` where the rounds run
-- out.
unfoldable pub walk_back : ℕ → ℕ → ℕ → Walk → NodeState → Option Walk
unfolding find_block
walk_back zero genesis hash k s = none
walk_back (suc n) genesis hash k s = if hash == genesis then some k else elim (find_header hash s) [
  | none ↦ some k
  | some h ↦ walk_back n genesis h.previous_hash (note hash (find_block hash s) k) s
]

-- The end of `buildChainFromBlocks`.
pub data Built : Type 0 where
  built : Chain → NodeState → Built
  build_failed : BlockError → NodeState → Built
  build_panics : Built

abbrev pub build_next : (States → Built) → NodeState → Validated → Built
build_next rest s crashed = build_panics
build_next rest s (invalid e) = build_failed e s
build_next rest s (valid states) = rest states

-- The loop of `buildChainFromBlocks`, with `ApplyBlock`.
unfoldable pub build_on : World → List Block → Chain → NodeState → Built
unfolding header_hash try_connect_orphan_children
build_on w [] chain s = built chain s
build_on w (b ∷ bs) chain s =
    build_next
      (λ states.
        build_on w bs (add_block w.crypto b (set_account_states states chain))
          (try_connect_orphan_children (block_hash w.crypto b) s))
      s (validate_block w b chain)

-- `buildChainFromBlocks`
unfoldable pub build_chain_from_blocks : World → List Block → NodeState → Built
unfolding build_on
build_chain_from_blocks w bs s = build_on w bs (new_chain w.crypto w.genesis) s

-- The end of `handleForkCreation`: the new chain under the hash of its last block, nothing while
-- blocks are fetched, an error, a panic, or a walk without an end.
pub data Forked : Type 0 where
  forked : ParentChain → NodeState → Forked
  fetching : NodeState → Forked
  fork_failed : BlockError → NodeState → Forked
  fork_panics fork_diverges : Forked

abbrev pub keep_built : ℕ → Built → Forked
keep_built parent build_panics = fork_panics
keep_built parent (build_failed e s) = fork_failed e s
keep_built parent (built chain s) =
    forked (record { chain = s.fresh; tip = parent })
      (record (put_chain s.fresh chain s) {
        fresh = suc s.fresh;
        chains = insert parent s.fresh s.chains;
      })

abbrev pub fetch_or_build :
    World → BlockHeader → ParentBlock → List Block → List ℕ → NodeState → Forked
fetch_or_build w h parent bs [] s =
    keep_built (block_hash w.crypto parent.block) (build_chain_from_blocks w bs s)
fetch_or_build w h parent bs (m ∷ ms) s =
    fetching (spawn (fetch_missing h (m ∷ ms) parent.source ∷ []) s)

abbrev pub finish_walk : World → BlockHeader → ParentBlock → Option Walk → NodeState → Forked
finish_walk w h parent none s = fork_diverges
finish_walk w h parent (some k) s = fetch_or_build w h parent k.blocks k.missing s

-- The rounds of the walk: the headers of the node, and one more.
abbrev pub walk_rounds : NodeState → ℕ
walk_rounds s = suc (length s.headers_map)

-- `handleForkCreation`
unfoldable pub handle_fork_creation : World → BlockHeader → ParentBlock → NodeState → Forked
unfolding walk_back build_chain_from_blocks header_hash
handle_fork_creation w h parent s =
    finish_walk w h parent
      (walk_back (walk_rounds s) (block_hash w.crypto w.genesis) (block_hash w.crypto parent.block)
        (record { missing = []; blocks = [] }) s)
      s
