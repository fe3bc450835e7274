-- ===== src/Node/Turns.antt =====
-- node/: what happens to a node while `ProcessHeader` waits for its peers. `headerProcessingMu` keeps
-- out any other `ProcessHeader` until it is over, but not the rest of the node.
pub mod Split
use mathlib.Core.List.{Perm}
use august.Base.{ℕ, false, true, ◌≡◌, ◌≢◌, Option, none, some, List, [], ◌∷◌, ◌++◌}
use august.Blockchain.Header.{BlockHeader, header_hash}
use august.Blockchain.Block.{Block, block_hash}
use august.Blockchain.HeaderChain.{validate_header_structure}
use august.Blockchain.ValidateBlock.{World}
use august.Node.Heap.{Entry}
use august.Node.State.{
  NodeState, Outcome, done, Reply, timeout, answers, Environment, Task, process_later,
  fetch_missing, fetch_parent, fetch_parent_block, new_node, spawn, current_chain,
}
use august.Node.Queries.{find_block, tip_of}
use august.Node.Fork.{
  ParentChain, ParentBlock, forked, walk_rounds, check_header_exists, find_parent_chain,
  find_parent_block, handle_fork_creation,
}
use august.Node.Extend.{
  NodeError, collect, fetched, validate_first, cleanup_failed_header, accept_block,
}
use august.Node.Candidate.{outweighs, headers_to_fetch, replay, replay_reply, finish_replay}
use august.Node.Process.{connect_header}
use august.Node.Steps.{Step, header, task, transaction, store, add_directly, pool, IsVisit}

-- What `ProcessHeader` has in hand when it waits: in `handleCurrentChainExtension` for the block of
-- its header, in `handleCandidateChainExtension` for the blocks of a branch.
pub data Wait : Type 0 where
  for_block : BlockHeader → ℕ → ParentChain → Wait
  for_branch : ParentChain → List ℕ → Wait

-- The rest of `handleCurrentChainExtension` after its wait, on the node as it is then.
abbrev pub resume_block :
    World → Environment → BlockHeader → ℕ → ParentChain → NodeState → Outcome NodeError
resume_block w env h hash parent s =
    validate_first w h hash parent (fetched w env (env.answer_blocks (hash ∷ []))) s

-- The rest of `handleCandidateChainExtension` after its wait.
abbrev pub resume_branch :
    World → Environment → ParentChain → List ℕ → NodeState → Outcome NodeError
resume_branch w env parent hashes s = replay_reply w env parent (env.answer_blocks hashes) s

-- The rest of `ProcessHeader` after a wait.
unfoldable pub resume : World → Environment → Wait → NodeState → Outcome NodeError
unfolding collect cleanup_failed_header accept_block replay finish_replay
resume w env (for_block h hash parent) s = resume_block w env h hash parent s
resume w env (for_branch parent hashes) s = resume_branch w env parent hashes s

-- `ProcessHeader` gets to `handleChainExtension` with a chain, in a state.
pub data Reaches (w : World) (env : Environment) (h : BlockHeader) (s : NodeState)
    : ParentChain → NodeState → Type 0 where
  on_tip :
      {p : ParentChain}
      → validate_header_structure w.crypto (block_hash w.crypto w.genesis) h ≡ none
      → check_header_exists (header_hash w.crypto h) (env.chains_order s.chains) s.memory ≡ false
      → find_parent_chain w h (env.chains_order s.chains) s.memory ≡ some p
      → Reaches w env h s p s
  on_fork :
      {p : ParentChain} {b : ParentBlock} {s' : NodeState}
      → validate_header_structure w.crypto (block_hash w.crypto w.genesis) h ≡ none
      → check_header_exists (header_hash w.crypto h) (env.chains_order s.chains) s.memory ≡ false
      → find_parent_chain w h (env.chains_order s.chains) s.memory ≡ none
      → find_parent_block h (env.chains_order s.chains) s.memory ≡ some b
      → handle_fork_creation w h b s ≡ forked p s'
      → Reaches w env h s p s'

-- `ProcessHeader` comes to a wait, and the state it leaves the node in.
pub data Asks (w : World) (env : Environment) (h : BlockHeader) (s : NodeState)
    : Wait → NodeState → Type 0 where
  asks_block :
      {p : ParentChain} {s' : NodeState}
      → Reaches w env h s p s'
      → p.tip ≡ s'.current_tip
      → find_block (header_hash w.crypto h) (connect_header w h p s') ≡ none
      → Asks w env h s (for_block h (header_hash w.crypto h) p) (connect_header w h p s')
  asks_branch :
      {p : ParentChain} {s' : NodeState} {k : ℕ} {ks : List ℕ}
      → Reaches w env h s p s'
      → p.tip ≢ s'.current_tip
      → outweighs h.total_work (tip_of (current_chain (connect_header w h p s'))) ≡ true
      → headers_to_fetch
          (walk_rounds (connect_header w h p s'))
          (header_hash w.crypto h)
          []
          ((connect_header w h p s').memory p.chain)
          (connect_header w h p s')
        ≡ some (k ∷ ks)
      → Asks w env h s (for_branch p (k ∷ ks)) (connect_header w h p s')

-- The header that a goroutine processes next, and what it has left to do after that.
pub data Processes (env : Environment) : Task → BlockHeader → List Task → Type 0 where
  its_own : {h : BlockHeader} → Processes env (process_later h) h []
  its_parent :
      {h parent : BlockHeader} {hs : List BlockHeader} {rs : List (List BlockHeader)}
      → env.answer_headers (h.previous_hash ∷ []) ≡ answers ((parent ∷ hs) ∷ rs)
      → Processes env (fetch_parent h) parent (fetch_parent_block h ∷ [])

abbrev pub HasNoHeader : Reply BlockHeader → Type 0
HasNoHeader timeout = Unit {0}
HasNoHeader (answers []) = Unit {0}
HasNoHeader (answers ([] ∷ rs)) = Unit {0}
HasNoHeader (answers ((h ∷ hs) ∷ rs)) = ⊥

-- The goroutines that go on without `ProcessHeader`.
abbrev pub IsFree : Environment → Task → Type 0
IsFree env (process_later h) = ⊥
IsFree env (fetch_missing h hashes source) = Unit {0}
IsFree env (fetch_parent h) = HasNoHeader (env.answer_headers (h.previous_hash ∷ []))
IsFree env (fetch_parent_block h) = Unit {0}

-- The steps that can be taken while a `ProcessHeader` waits.
abbrev pub RunsBeside :
    {w : World} {order : List Entry → List Entry} {s s' : NodeState} → Step w order s s' → Type 0
RunsBeside (header env h visit ends) = ⊥
RunsBeside (task env before after t visit split ends) = IsFree env t
RunsBeside (transaction t now s) = Unit {0}
RunsBeside (store b s) = Unit {0}
RunsBeside (add_directly env b s visit) = Unit {0}
RunsBeside (pool s mp step) = Unit {0}

-- Whether a `ProcessHeader` waits, and what its goroutine has left to do after it.
pub data Status : Type 0 where
  idle : Status
  waiting : Wait → List Task → Status

-- What happens to a node next. Each step and each turn brings its own orders of visits and its own
-- answers of the peers.
pub data Turn (w : World) : NodeState → Status → NodeState → Status → Type 0 where
  whole :
      (order : List Entry → List Entry) {s s' : NodeState}
      → ((l : List Entry) → Perm (order l) l)
      → Step w order s s'
      → Turn w s idle s' idle
  beside :
      (order : List Entry → List Entry) (x : Wait) (later : List Task) {s s' : NodeState}
      → ((l : List Entry) → Perm (order l) l)
      → (step : Step w order s s') → RunsBeside step
      → Turn w s (waiting x later) s' (waiting x later)
  starts :
      (env : Environment) (h : BlockHeader) {s s' : NodeState} {x : Wait}
      → IsVisit env
      → Asks w env h s x s'
      → Turn w s idle s' (waiting x [])
  starts_task :
      (env : Environment) (before after : List Task) (t : Task) (h : BlockHeader)
      (later : List Task) {s s' : NodeState} {x : Wait}
      → IsVisit env
      → s.spawned ≡ before ++ t ∷ after
      → Processes env t h later
      → Asks w env h (record s { spawned = before ++ after }) x s'
      → Turn w s idle s' (waiting x later)
  goes_on :
      (env : Environment) (x : Wait) (later : List Task) {s s' : NodeState} {e : Option NodeError}
      → resume w env x s ≡ done e s'
      → Turn w s (waiting x later) (spawn later s') idle

-- What a node can come to.
pub data Reachable (w : World) : NodeState → Status → Type 0 where
  start : Reachable w (new_node w) idle
  next :
      {s s' : NodeState} {status status' : Status}
      → Reachable w s status
      → Turn w s status s' status'
      → Reachable w s' status'
