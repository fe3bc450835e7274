-- ===== src/Node/State.antt =====
-- node/node.go: the state of a node, and node/lifecycle.go: the one it starts with.
use august.Base.{ℕ, Option, none, some, List, [], ◌∷◌, ◌++◌, ◌==◌, if◌then◌else◌, map}
use august.Base.Dict.{Dict, lookup, nat_eq}
use august.Blockchain.Header.{BlockHeader, header_hash}
use august.Blockchain.Block.{Block, Chain, block_hash, add_header, add_block, new_chain}
use august.Blockchain.ValidateBlock.{World}
use august.Node.Mempool.{Mempool, new_mempool}
use august.Node.Orphans.{Orphans, waiting}

-- What a goroutine that has been started has left to do: `ProcessHeader`, and the parts of
-- `fetchMissingBlocksForFork` and `fetchParentForOrphan` between their waits.
pub data Task : Type 0 where
  process_later : BlockHeader → Task
  fetch_missing : BlockHeader → List ℕ → ℕ → Task
  fetch_parent fetch_parent_block : BlockHeader → Task

-- `Node`. Chains are shared by pointer: `memory` has what they point to, and `fresh` is the next
-- pointer that is free.
pub record NodeState : Type 0 where
  pub memory : ℕ → Chain
  pub fresh : ℕ
  pub chains : Dict ℕ ℕ
  pub current_tip : ℕ
  pub headers_map : Dict ℕ BlockHeader
  pub blocks_map : Dict ℕ Block
  pub submitted : Dict ℕ Block
  pub orphans : Orphans
  pub mempool : Mempool
  pub spawned : List Task

abbrev pub update : (ℕ → Chain) → ℕ → Chain → ℕ → Chain
update m r chain a = if r == a then chain else m a

-- A write to a chain through its pointer.
abbrev pub put_chain : ℕ → Chain → NodeState → NodeState
put_chain r chain s = record s { memory = update s.memory r chain }

abbrev pub spawn : List Task → NodeState → NodeState
spawn tasks s = record s { spawned = s.spawned ++ tasks }

-- `tryConnectOrphanChildren`
unfoldable pub try_connect_orphan_children : ℕ → NodeState → NodeState
try_connect_orphan_children hash s = spawn (map process_later (waiting hash s.orphans)) s

abbrev pub deref : Option ℕ → NodeState → Option Chain
deref none s = none
deref (some r) s = some (s.memory r)

-- `n.chains[n.currentChainTip]`
abbrev pub current_chain : NodeState → Option Chain
current_chain s = deref (lookup s.current_tip s.chains) s

-- The chain that a node starts with: `NewChain`, with the genesis block added.
abbrev pub genesis_chain : World → Chain
genesis_chain w =
    add_block w.crypto w.genesis
      (add_header w.crypto w.genesis.header (new_chain w.crypto w.genesis))

-- `NewNode`, its network services aside.
unfoldable pub new_node : World → NodeState
unfolding header_hash
new_node w = record {
  memory = λ a. genesis_chain w;
  fresh = 1;
  chains = (block_hash w.crypto w.genesis, 0) ∷ [];
  current_tip = block_hash w.crypto w.genesis;
  headers_map = (block_hash w.crypto w.genesis, w.genesis.header) ∷ [];
  blocks_map = (block_hash w.crypto w.genesis, w.genesis) ∷ [];
  submitted = [];
  orphans = [];
  mempool = new_mempool;
  spawned = [];
}

-- What a node gets from outside while it processes a header: the orders in which Go visits maps,
-- `sort.Slice` by height, and what the peers answer.
pub data Reply (A : Type 0) : Type 0 where
  timeout : Reply A
  answers : List (List A) → Reply A

pub record Environment : Type 0 where
  pub chains_order : Dict ℕ ℕ → Dict ℕ ℕ
  pub blocks_order : Dict ℕ Block → Dict ℕ Block
  pub by_height : List Block → List Block
  pub answer_blocks : List ℕ → Reply Block
  pub answer_headers : List ℕ → Reply BlockHeader

-- The end of `ProcessHeader`: an error or none and the state, a panic, or a loop without an end.
pub data Outcome (E : Type 0) : Type 0 where
  done : Option E → NodeState → Outcome E
  panics diverges : Outcome E
