-- ===== src/Node/Candidate.antt =====
-- node/header_processing.go: a header that extends a candidate chain, and the reorganisation;
-- node/tasks.go: the candidate chains that are given up.
use august.Base.{
  ℕ, zero, suc, ◌*◌, ◌-◌, Bool, true, false, Option, none, some, List, [], ◌∷◌, ltb, ◌==◌,
  if◌then◌else◌,
}
use august.Base.Bytes.{Bytes}
use august.Base.Dict.{Dict, insert, erase, nat_eq}
use august.Config.{aug, first_user, max_candidate_chain_depth_gap}
use august.Blockchain.Account.{States, new_account}
use august.Blockchain.Header.{
  BlockHeader, header_hash, Comparison, less, equal, greater, compare_work,
}
use august.Blockchain.Block.{Block, Chain, block_hash, add_block, add_header, new_chain}
use august.Blockchain.Getters.{get_block, set_account_states}
use august.Blockchain.ValidateBlock.{World, valid, invalid, crashed, validate_block}
use august.Node.Orphans.{cleanup_stale_orphans}
use august.Node.State.{
  NodeState, Outcome, done, panics, diverges, Reply, timeout, answers, Environment, put_chain,
  current_chain, try_connect_orphan_children,
}
use august.Node.Queries.{find_header, tip_of}
use august.Node.Fork.{ParentChain, walk_rounds}
use august.Node.Extend.{NodeError, fetched, collect}

-- The hashes from a header back to the first block that the chain has; `none` where the rounds run
-- out.
unfoldable pub headers_to_fetch : ℕ → ℕ → List ℕ → Chain → NodeState → Option (List ℕ)
headers_to_fetch zero hash found chain s = none
headers_to_fetch (suc n) hash found chain s = elim (get_block hash chain) [
  | some b ↦ some found
  | none ↦ elim (find_header hash s) [
    | none ↦ some (hash ∷ found)
    | some h ↦ headers_to_fetch n h.previous_hash (hash ∷ found) chain s
  ]
]

abbrev is_greater : Comparison → Bool
is_greater less = false
is_greater equal = false
is_greater greater = true

-- `CompareWork(work, current) > 0`, where there is a current chain with a tip.
unfoldable pub outweighs : Bytes → Option Block → Bool
unfolding compare_work
outweighs work none = false
outweighs work (some tip) = is_greater (compare_work work tip.header.total_work)

-- The validation of the fetched blocks on a chain of their own: the last accounts, nothing where a
-- block is refused, or a panic.
pub data Replayed : Type 0 where
  replayed : States → Replayed
  refused replay_panics : Replayed

unfoldable pub replay : World → List Block → Chain → Replayed
unfolding header_hash
replay w [] chain = replayed chain.account_states
replay w (b ∷ bs) chain = elim (validate_block w b chain) [
  | crashed ↦ replay_panics
  | invalid e ↦ refused
  | valid states ↦ replay w bs (add_block w.crypto b (set_account_states states chain))
]

-- The account that the temporary chain starts with; its address is not set.
abbrev pub genesis_states : States
genesis_states = (first_user, new_account 0 (10 * aug)) ∷ []

abbrev pub replay_chain : World → Chain
replay_chain w = set_account_states genesis_states (new_chain w.crypto w.genesis)

-- `cleanupCandidateChains`: the keys that stay.
unfoldable pub drop_behind : ℕ → ℕ → (ℕ → Chain) → Dict ℕ ℕ → Dict ℕ ℕ
drop_behind least current memory [] = []
drop_behind least current memory ((tip, r) ∷ rest) =
    let kept = drop_behind least current memory rest in
    if tip == current then (tip, r) ∷ kept else elim (memory r).tip [
      | none ↦ (tip, r) ∷ kept
      | some b ↦ if ltb b.header.height least then kept else (tip, r) ∷ kept
    ]

abbrev pub chains_of : (ℕ → Chain) → Dict ℕ ℕ → Dict ℕ Chain
chains_of memory [] = []
chains_of memory ((tip, r) ∷ rest) = (tip, memory r) ∷ chains_of memory rest

abbrev pub least_height : ℕ → ℕ
least_height current =
    if ltb max_candidate_chain_depth_gap current then current - max_candidate_chain_depth_gap else 0

abbrev pub cleanup_below : Option Block → NodeState → NodeState
cleanup_below none s = s
cleanup_below (some tip) s =
    let kept = drop_behind (least_height tip.header.height) s.current_tip s.memory s.chains in
    record s { chains = kept; orphans = cleanup_stale_orphans (chains_of s.memory kept) s.orphans }

-- `cleanupCandidateChains`
unfoldable pub cleanup_candidate_chains : NodeState → NodeState
unfolding drop_behind cleanup_stale_orphans
cleanup_candidate_chains s = cleanup_below (tip_of (current_chain s)) s

-- The loops that put the fetched blocks into the chain and the maps of the node.
unfoldable pub add_headers : World → List Block → Chain → Chain
unfolding header_hash
add_headers w [] chain = chain
add_headers w (b ∷ bs) chain = add_headers w bs (add_header w.crypto b.header chain)

unfoldable pub add_blocks : World → List Block → Chain → Chain
unfolding header_hash
add_blocks w [] chain = chain
add_blocks w (b ∷ bs) chain = add_blocks w bs (add_block w.crypto b chain)

unfoldable pub map_headers : World → List Block → Dict ℕ BlockHeader → Dict ℕ BlockHeader
unfolding header_hash
map_headers w [] m = m
map_headers w (b ∷ bs) m = map_headers w bs (insert (block_hash w.crypto b) b.header m)

unfoldable pub map_blocks : World → List Block → Dict ℕ Block → Dict ℕ Block
unfolding header_hash
map_blocks w [] m = m
map_blocks w (b ∷ bs) m = map_blocks w bs (insert (block_hash w.crypto b) b m)

unfoldable pub connect_children : World → List Block → NodeState → NodeState
unfolding header_hash
connect_children w [] s = s
connect_children w (b ∷ bs) s =
    connect_children w bs (try_connect_orphan_children (block_hash w.crypto b) s)

-- The chain of a candidate with the fetched blocks in it.
unfoldable pub fill_chain : World → List Block → States → Chain → Chain
unfolding add_blocks add_headers
fill_chain w blocks states chain = set_account_states states (
    add_blocks w blocks (
      add_headers w blocks
        (add_block w.crypto w.genesis (add_header w.crypto w.genesis.header chain))))

-- The maps of the node and the chain of the candidate after the fetch.
unfoldable pub fill_node : World → ParentChain → List Block → States → NodeState → NodeState
unfolding fill_chain map_headers map_blocks connect_children
fill_node w parent blocks states s =
    connect_children w blocks
      (record (put_chain parent.chain (fill_chain w blocks states (s.memory parent.chain)) s) {
        headers_map = map_headers w blocks s.headers_map;
        blocks_map = map_blocks w blocks s.blocks_map;
      })

abbrev pub last_of : Block → List Block → Block
last_of b [] = b
last_of b (c ∷ bs) = last_of c bs

-- The switch to the candidate, or its new key.
unfoldable pub switch_or_keep : World → Bool → ParentChain → Block → NodeState → NodeState
unfolding header_hash cleanup_candidate_chains
switch_or_keep w heavier parent last s =
    let tip = block_hash w.crypto last in
    if heavier
    then cleanup_candidate_chains
        (record s { chains = insert tip parent.chain s.chains; current_tip = tip })
    else record s { chains = erase parent.tip (insert tip parent.chain s.chains) }

-- What `handleCandidateChainExtension` does with the blocks it got; no block at all is a panic.
unfoldable pub finish_replay :
    World → ParentChain → List Block → Replayed → NodeState → Outcome NodeError
unfolding fill_node switch_or_keep outweighs
finish_replay w parent blocks replay_panics s = panics
finish_replay w parent blocks refused s = done none s
finish_replay w parent [] (replayed states) s = panics
finish_replay w parent (b ∷ bs) (replayed states) s =
    let last = last_of b bs in
    done none (
      switch_or_keep w (outweighs last.header.total_work (tip_of (current_chain s))) parent last
        (fill_node w parent (b ∷ bs) states s))

abbrev pub replay_reply :
    World → Environment → ParentChain → Reply Block → NodeState → Outcome NodeError
replay_reply w env parent timeout s = done none s
replay_reply w env parent (answers []) s = done none s
replay_reply w env parent (answers (r ∷ rs)) s =
    let blocks = env.by_height (fetched w env (answers (r ∷ rs))) in
    finish_replay w parent blocks (replay w blocks (replay_chain w)) s

abbrev pub fetch_and_replay :
    World → Environment → ParentChain → Option (List ℕ) → NodeState → Outcome NodeError
fetch_and_replay w env parent none s = diverges
fetch_and_replay w env parent (some []) s = done none s
fetch_and_replay w env parent (some (k ∷ ks)) s =
    replay_reply w env parent (env.answer_blocks (k ∷ ks)) s

-- `handleCandidateChainExtension`
unfoldable pub handle_candidate_chain_extension :
    World → Environment → BlockHeader → ℕ → ParentChain → NodeState → Outcome NodeError
unfolding outweighs headers_to_fetch collect replay finish_replay
handle_candidate_chain_extension w env h hash parent s =
    if outweighs h.total_work (tip_of (current_chain s))
    then fetch_and_replay w env parent
        (headers_to_fetch (walk_rounds s) hash [] (s.memory parent.chain) s) s
    else done none s
