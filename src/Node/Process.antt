-- ===== src/Node/Process.antt =====
-- node/node.go and header_processing.go: the processing of headers, transactions and blocks.
pub mod Path
pub mod Verdict
pub mod Submit
pub mod Admission
pub mod Switch
pub mod NoSwitch
pub mod Claims
pub mod Returns
pub mod Again
pub mod Timeout
pub mod Failure
use august.Base.{
  ℕ, Bool, true, false, Option, none, some, List, [], ◌∷◌, ◌++◌, ◌==◌, length, if◌then◌else◌,
}
use august.Base.Dict.{Dict, lookup, insert, erase, nat_eq}
use august.Blockchain.Account.{States}
use august.Blockchain.Transaction.{Transaction}
use august.Blockchain.Validate.{TxError, validate_transaction}
use august.Blockchain.Header.{BlockHeader, header_hash}
use august.Blockchain.Block.{Block, Chain, block_hash, add_block, add_header}
use august.Blockchain.Getters.{get_header}
use august.Blockchain.HeaderChain.{HeaderError, validate_header_structure}
use august.Blockchain.ValidateBlock.{World}
use august.Node.Mempool.{add_transaction}
use august.Node.Orphans.{Orphans, add_orphan, remove_orphan}
use august.Node.State.{
  NodeState, Outcome, done, panics, diverges, Reply, timeout, answers, Environment, Task,
  process_later, fetch_missing, fetch_parent, fetch_parent_block, put_chain, spawn, current_chain,
  try_connect_orphan_children,
}
use august.Node.Queries.{find_header}
use august.Node.Fork.{
  ParentChain, ParentBlock, Forked, forked, fetching, fork_failed, fork_panics, fork_diverges,
  check_header_exists, find_parent_chain, find_parent_block, handle_fork_creation,
}
use august.Node.Extend.{
  NodeError, invalid_header, failed_build, collect, values, handle_current_chain_extension,
}
use august.Node.Candidate.{handle_candidate_chain_extension}

-- The first part of `handleChainExtension`: the header is added, its orphans are tried, it is no
-- orphan itself any more, and the chain gets its hash for a key.
unfoldable pub connect_header : World → BlockHeader → ParentChain → NodeState → NodeState
unfolding header_hash try_connect_orphan_children remove_orphan add_header insert erase
connect_header w h parent s =
    let hash = header_hash w.crypto h in
    let s1 =
      try_connect_orphan_children hash
        (record (put_chain parent.chain (add_header w.crypto h (s.memory parent.chain)) s) {
          headers_map = insert hash h s.headers_map;
        }) in
    record s1 {
      orphans = remove_orphan w.crypto h s1.orphans;
      chains = insert hash parent.chain (erase parent.tip s1.chains);
    }

-- `handleChainExtension`
unfoldable pub handle_chain_extension :
    World → Environment → BlockHeader → ParentChain → NodeState → Outcome NodeError
unfolding connect_header handle_current_chain_extension handle_candidate_chain_extension
handle_chain_extension w env h parent s =
    let hash = header_hash w.crypto h in
    let s' = connect_header w h parent s in
    if parent.tip == s.current_tip
    then handle_current_chain_extension w env h hash parent s'
    else handle_candidate_chain_extension w env h hash parent s'

abbrev ask_for_parent : BlockHeader → Option BlockHeader → List Task
ask_for_parent h none = fetch_parent h ∷ []
ask_for_parent h (some parent) = []

-- `handleOrphanHeader`
unfoldable pub handle_orphan_header : BlockHeader → NodeState → NodeState
unfolding add_orphan
handle_orphan_header h s =
    spawn (ask_for_parent h (find_header h.previous_hash s))
      (record s { orphans = add_orphan h s.orphans })

abbrev pub extend_fork : World → Environment → BlockHeader → Forked → Outcome NodeError
extend_fork w env h fork_panics = panics
extend_fork w env h fork_diverges = diverges
extend_fork w env h (fork_failed e s) = done (some (failed_build e)) s
extend_fork w env h (fetching s) = done none s
extend_fork w env h (forked parent s) = handle_chain_extension w env h parent s

abbrev pub fork_or_orphan :
    World → Environment → BlockHeader → Option ParentBlock → NodeState → Outcome NodeError
fork_or_orphan w env h (some parent) s = extend_fork w env h (handle_fork_creation w h parent s)
fork_or_orphan w env h none s = done none (handle_orphan_header h s)

abbrev pub extend_or_fork :
    World → Environment → BlockHeader → Option ParentChain → NodeState → Outcome NodeError
extend_or_fork w env h (some parent) s = handle_chain_extension w env h parent s
extend_or_fork w env h none s =
    fork_or_orphan w env h (find_parent_block h (env.chains_order s.chains) s.memory) s

abbrev pub if_sound :
    World → Environment → BlockHeader → Option HeaderError → NodeState → Outcome NodeError
if_sound w env h (some e) s = done (some (invalid_header e)) s
if_sound w env h none s =
    if check_header_exists (header_hash w.crypto h) (env.chains_order s.chains) s.memory
    then done none s
    else extend_or_fork w env h (find_parent_chain w h (env.chains_order s.chains) s.memory) s

-- `ProcessHeader`
unfoldable pub process_header : World → Environment → BlockHeader → NodeState → Outcome NodeError
unfolding validate_header_structure check_header_exists find_parent_chain find_parent_block
    handle_chain_extension handle_fork_creation handle_orphan_header
process_header w env h s =
    if_sound w env h (validate_header_structure w.crypto (block_hash w.crypto w.genesis) h) s

abbrev states_of : Option Chain → States
states_of none = []
states_of (some chain) = chain.account_states

-- The accounts that `ProcessTransaction` validates against.
unfoldable pub current_states : NodeState → States
current_states s = if s.current_tip == 0 then [] else states_of (current_chain s)

pub data TransactionFailure : Type 0 where
  invalid_transaction : TxError → TransactionFailure
  rejected_by_mempool : TransactionFailure

abbrev pub add_if_valid :
    World → Transaction → ℕ → Option TxError → NodeState → Option TransactionFailure × NodeState
add_if_valid w t now (some e) s = (some (invalid_transaction e), s)
add_if_valid w t now none s =
    let (added, pool) = add_transaction w.crypto t now s.mempool in
    (if added then none else some rejected_by_mempool, record s { mempool = pool })

-- `ProcessTransaction` at a time, its announcement to the peers aside.
unfoldable pub process_transaction :
    World → Transaction → ℕ → NodeState → Option TransactionFailure × NodeState
unfolding validate_transaction current_states add_transaction
process_transaction w t now s =
    add_if_valid w t now (validate_transaction w.crypto t (current_states s)) s

-- `StoreBlock`
unfoldable pub store_block : World → Block → NodeState → NodeState
unfolding header_hash insert
store_block w b s = record s { submitted = insert (block_hash w.crypto b) b s.submitted }

-- What the handler of /submit-block starts: `StoreBlock`, then `ProcessHeader`.
unfoldable pub submit_block : World → Environment → Block → NodeState → Outcome NodeError
unfolding store_block process_header
submit_block w env b s = process_header w env b.header (store_block w b s)

-- The headers of `processOrphanHeaders`, over the orphans in the order of a visit.
unfoldable pub all_waiting : Orphans → List BlockHeader
all_waiting [] = []
all_waiting ((k, hs) ∷ m) = hs ++ all_waiting m

-- Its loop, which goes on after an error.
unfoldable pub process_each : World → Environment → List BlockHeader → NodeState → Outcome NodeError
unfolding process_header
process_each w env [] s = done none s
process_each w env (h ∷ hs) s = elim (process_header w env h s) [
  | panics ↦ panics
  | diverges ↦ diverges
  | done e s' ↦ process_each w env hs s'
]

-- `processOrphanHeaders`, which no code of the node calls.
unfoldable pub process_orphan_headers :
    World → Environment → (Orphans → Orphans) → NodeState → Outcome NodeError
unfolding all_waiting process_each
process_orphan_headers w env visit s = process_each w env (all_waiting (visit s.orphans)) s
