-- ===== src/Node/Steps.antt =====
-- node/: what the goroutines of a node have left to do, and the steps of a node.
use mathlib.Core.List.{Perm}
use august.Base.{
  ℕ, Bool, true, false, ◌≡◌, Option, none, some, List, [], ◌∷◌, ◌++◌, ◌==◌, if◌then◌else◌,
}
use august.Base.Dict.{Dict, insert, erase, nat_eq}
use august.Blockchain.Transaction.{Transaction}
use august.Blockchain.Header.{BlockHeader, header_hash}
use august.Blockchain.Block.{Block, block_hash, add_block, add_header}
use august.Blockchain.Getters.{get_header}
use august.Blockchain.ValidateBlock.{World}
use august.Node.Heap.{Entry}
use august.Node.Mempool.{Mempool}
use august.Node.Mempool.Steps
use august.Node.State.{
  NodeState, Outcome, done, panics, diverges, Reply, timeout, answers, Environment, Task,
  process_later, fetch_missing, fetch_parent, fetch_parent_block, put_chain, spawn,
}
use august.Node.Fork.{is_there}
use august.Node.Extend.{NodeError, collect, fetched}
use august.Node.Candidate.{add_blocks}
use august.Node.Process.{process_header, process_transaction, store_block}

-- The end of `fetchMissingBlocksForFork`: the blocks go into the source chain, then the header is
-- processed again.
unfoldable pub add_missing :
    World → Environment → BlockHeader → ℕ → Reply Block → NodeState → NodeState
unfolding add_blocks collect
add_missing w env h source timeout s = s
add_missing w env h source (answers []) s = s
add_missing w env h source (answers (r ∷ rs)) s =
    spawn (process_later h ∷ [])
      (put_chain source (add_blocks w (fetched w env (answers (r ∷ rs))) (s.memory source)) s)

abbrev pub then_fetch_block : BlockHeader → Outcome NodeError → Outcome NodeError
then_fetch_block h panics = panics
then_fetch_block h diverges = diverges
then_fetch_block h (done e s) = done none (spawn (fetch_parent_block h ∷ []) s)

-- `fetchParentForOrphan` with the answer to its first request.
unfoldable pub process_parent :
    World → Environment → BlockHeader → Reply BlockHeader → NodeState → Outcome NodeError
unfolding process_header
process_parent w env h timeout s = done none s
process_parent w env h (answers []) s = done none s
process_parent w env h (answers ([] ∷ rs)) s = done none s
process_parent w env h (answers ((parent ∷ hs) ∷ rs)) s =
    then_fetch_block h (process_header w env parent s)

-- The loop over the chains that adds a block to each one that has a header.
unfoldable pub add_where_known : World → ℕ → Block → Dict ℕ ℕ → NodeState → NodeState
unfolding add_block
add_where_known w hash b [] s = s
add_where_known w hash b ((tip, r) ∷ rest) s = add_where_known w hash b rest (
    if is_there (get_header hash (s.memory r))
    then put_chain r (add_block w.crypto b (s.memory r)) s
    else s)

-- `fetchParentForOrphan` with the answer to its second request.
unfoldable pub add_parent_block :
    World → Environment → BlockHeader → Reply Block → NodeState → NodeState
unfolding add_where_known
add_parent_block w env h timeout s = s
add_parent_block w env h (answers []) s = s
add_parent_block w env h (answers ([] ∷ rs)) s = s
add_parent_block w env h (answers ((b ∷ bs) ∷ rs)) s =
    add_where_known w h.previous_hash b (env.chains_order s.chains) s

-- A goroutine goes on.
unfoldable pub run_task : World → Environment → Task → NodeState → Outcome NodeError
unfolding process_header add_missing process_parent add_parent_block
run_task w env (process_later h) s = process_header w env h s
run_task w env (fetch_missing h hashes source) s =
    done none (add_missing w env h source (env.answer_blocks hashes) s)
run_task w env (fetch_parent h) s =
    process_parent w env h (env.answer_headers (h.previous_hash ∷ [])) s
run_task w env (fetch_parent_block h) s =
    done none (add_parent_block w env h (env.answer_blocks (h.previous_hash ∷ [])) s)

-- The first chain, in the order of a visit, that has the header of a block's parent.
abbrev pub target_chain : ℕ → Dict ℕ ℕ → NodeState → Option ℕ
target_chain hash [] s = none
target_chain hash ((tip, r) ∷ rest) s =
    if is_there (get_header hash (s.memory r)) then some r else target_chain hash rest s

-- The new current tip of `AddBlockDirectly`.
abbrev direct_tip : ℕ → ℕ → ℕ → ℕ
direct_tip previous hash current =
    if previous == current then hash else if current == 0 then hash else current

abbrev pub add_to_target : World → Block → Option ℕ → NodeState → Bool × NodeState
add_to_target w b none s = (false, s)
add_to_target w b (some r) s =
    let hash = block_hash w.crypto b in
    (
      true,
      record (put_chain r (add_block w.crypto b (add_header w.crypto b.header (s.memory r))) s) {
        headers_map = insert hash b.header s.headers_map;
        blocks_map = insert hash b s.blocks_map;
        chains = insert hash r (erase b.header.previous_hash s.chains);
        current_tip = direct_tip b.header.previous_hash hash s.current_tip;
      },
    )

-- `AddBlockDirectly`; false is its error.
unfoldable pub add_block_directly : World → Environment → Block → NodeState → Bool × NodeState
unfolding header_hash insert erase add_block add_header
add_block_directly w env b s =
    add_to_target w b (target_chain b.header.previous_hash (env.chains_order s.chains) s) s

-- Go visits each entry of a map once, in any order.
abbrev pub IsVisit : Environment → Type 0
IsVisit env = (m : Dict ℕ ℕ) → Perm (env.chains_order m) m

-- What one method or one goroutine makes of a node, whatever it gets from outside. The methods of
-- the pool are steps too.
pub data Step (w : World) (order : List Entry → List Entry) : NodeState → NodeState → Type 0 where
  header :
      (env : Environment) (h : BlockHeader) {s s' : NodeState} {e : Option NodeError}
      → IsVisit env
      → process_header w env h s ≡ done e s'
      → Step w order s s'
  task :
      (env : Environment) (before after : List Task) (t : Task) {s s' : NodeState}
      {e : Option NodeError}
      → IsVisit env
      → s.spawned ≡ before ++ t ∷ after
      → run_task w env t (record s { spawned = before ++ after }) ≡ done e s'
      → Step w order s s'
  transaction :
      (t : Transaction) (now : ℕ) (s : NodeState) → Step w order s (process_transaction w t now s).1
  store : (b : Block) (s : NodeState) → Step w order s (store_block w b s)
  add_directly :
      (env : Environment) (b : Block) (s : NodeState)
      → IsVisit env
      → Step w order s (add_block_directly w env b s).1
  pool :
      (s : NodeState) (mp : Mempool)
      → Steps.Step w.crypto order s.mempool mp
      → Step w order s (record s { mempool = mp })
