-- ===== src/Node/Indexed/Stepping.antt =====
-- node/: the maps of a node stay indexed, step by step.
use mathlib.Core.List.{Perm}
use august.Base.{
  ℕ, ◌≡◌, ◌<◌, refl, Bool, true, false, Option, none, some, List, [], ◌∷◌, ◌++◌, if◌then◌else◌,
  arith,
}
use august.Base.Dict.{Dict, erase, nat_eq}
use august.Blockchain.Transaction.{Transaction}
use august.Blockchain.Validate.{TxError, validate_transaction}
use august.Blockchain.Header.{BlockHeader, header_hash}
use august.Blockchain.Block.{Block, Chain, block_hash, add_block, add_header, new_chain}
use august.Blockchain.Getters.{get_header}
use august.Blockchain.ValidateBlock.{World}
use august.Node.Heap.{Entry}
use august.Node.Mempool.Invariant.{new_mempool-IsValid, add_transaction-IsValid}
use august.Node.Mempool.Steps as Pool
use august.Node.Orphans.Filed.{nil-IsFiled}
use august.Node.State.{
  NodeState, Outcome, done, panics, diverges, Reply, timeout, answers, Environment, Task,
  process_later, fetch_missing, fetch_parent, fetch_parent_block, new_node, put_chain,
}
use august.Node.Fork.{is_there}
use august.Node.Extend.{NodeError, fetched}
use august.Node.Candidate.{add_blocks}
use august.Node.Process.{
  process_header, process_transaction, add_if_valid, store_block, current_states,
}
use august.Node.Steps.{
  Step, header, task, transaction, store, add_directly, pool, IsVisit, add_missing, process_parent,
  then_fetch_block, add_where_known, add_parent_block, run_task, target_chain, add_to_target,
  add_block_directly,
}
use august.Node.Indexed.{
  IsIndexed, IsLive, IsSound, SoundAfter, insert-IsHashed, nil-IsHashed, single-IsHashed,
  add_header-IsIndexed, add_block-IsIndexed, new_chain-IsIndexed, update-IsIndexed,
}
use august.Node.Indexed.Extending.{insert-IsLive, erase-IsLive}
use august.Node.Indexed.Switching.{add_blocks-IsIndexed}
use august.Node.Indexed.Forking.{process_header-Sound, IsLive-visit}

module _ (w : World) where
  pub new_node-IsSound : IsSound w (new_node w)
  unfolding new_node
  new_node-IsSound =
      let c = w.crypto in
      (
        (λ r.
            add_block-IsIndexed c w.genesis (add_header c w.genesis.header (new_chain c w.genesis))
              (add_header-IsIndexed c w.genesis.header (new_chain c w.genesis)
                (new_chain-IsIndexed c w.genesis))),
        (omega arith, tt),
        single-IsHashed (header_hash c) w.genesis.header,
        nil-IsHashed (block_hash c),
        nil-IsFiled,
        new_mempool-IsValid c,
      )

  put_chain-IsSound :
      (r : ℕ) (chain : Chain) (s : NodeState)
      → IsSound w s
      → IsIndexed w.crypto chain
      → IsSound w (put_chain r chain s)
  put_chain-IsSound r chain s (chains, live, headers, submitted, filed, pool_valid) indexed = (
    update-IsIndexed w.crypto s.memory r chain chains indexed,
    live,
    headers,
    submitted,
    filed,
    pool_valid,
  )

  add_missing-IsSound :
      (env : Environment) (h : BlockHeader) (source : ℕ) (r : Reply Block) (s : NodeState)
      → IsSound w s
      → IsSound w (add_missing w env h source r s)
  unfolding add_missing
  add_missing-IsSound env h source timeout s sound = sound
  add_missing-IsSound env h source (answers []) s sound = sound
  add_missing-IsSound env h source (answers (r ∷ rs)) s sound =
      put_chain-IsSound source (add_blocks w (fetched w env (answers (r ∷ rs))) (s.memory source)) s
        sound
        (add_blocks-IsIndexed w (fetched w env (answers (r ∷ rs))) (s.memory source)
          (sound.0 source))

  then_fetch_block-Sound :
      (h : BlockHeader) (o : Outcome NodeError)
      → SoundAfter w o
      → SoundAfter w (then_fetch_block h o)
  then_fetch_block-Sound h panics sound = tt
  then_fetch_block-Sound h diverges sound = tt
  then_fetch_block-Sound h (done e s) sound = sound

  process_parent-Sound :
      (env : Environment) (h : BlockHeader) (r : Reply BlockHeader) (s : NodeState)
      → IsVisit env
      → IsSound w s
      → SoundAfter w (process_parent w env h r s)
  unfolding process_parent
  process_parent-Sound env h timeout s visit sound = sound
  process_parent-Sound env h (answers []) s visit sound = sound
  process_parent-Sound env h (answers ([] ∷ rs)) s visit sound = sound
  process_parent-Sound env h (answers ((parent ∷ hs) ∷ rs)) s visit sound =
      then_fetch_block-Sound h (process_header w env parent s)
        (process_header-Sound w env parent s sound (visit s.chains))

  if-IsSound :
      (test : Bool) (s s' : NodeState)
      → IsSound w s
      → IsSound w s'
      → IsSound w (if test then s else s')
  if-IsSound true s s' sound sound' = sound
  if-IsSound false s s' sound sound' = sound'

  add_where_known-IsSound :
      (hash : ℕ) (b : Block) (l : Dict ℕ ℕ) (s : NodeState)
      → IsSound w s
      → IsSound w (add_where_known w hash b l s)
  unfolding add_where_known
  add_where_known-IsSound hash b [] s sound = sound
  add_where_known-IsSound hash b ((tip, r) ∷ rest) s sound = add_where_known-IsSound hash b rest _ (
      if-IsSound (is_there (get_header hash (s.memory r))) _ s
        (put_chain-IsSound r (add_block w.crypto b (s.memory r)) s sound
          (add_block-IsIndexed w.crypto b (s.memory r) (sound.0 r)))
        sound)

  add_parent_block-IsSound :
      (env : Environment) (h : BlockHeader) (r : Reply Block) (s : NodeState)
      → IsSound w s
      → IsSound w (add_parent_block w env h r s)
  unfolding add_parent_block
  add_parent_block-IsSound env h timeout s sound = sound
  add_parent_block-IsSound env h (answers []) s sound = sound
  add_parent_block-IsSound env h (answers ([] ∷ rs)) s sound = sound
  add_parent_block-IsSound env h (answers ((b ∷ bs) ∷ rs)) s sound =
      add_where_known-IsSound h.previous_hash b (env.chains_order s.chains) s sound

  run_task-Sound :
      (env : Environment) (t : Task) (s : NodeState)
      → IsVisit env
      → IsSound w s
      → SoundAfter w (run_task w env t s)
  unfolding run_task
  run_task-Sound env (process_later h) s visit sound =
      process_header-Sound w env h s sound (visit s.chains)
  run_task-Sound env (fetch_missing h hashes source) s visit sound =
      add_missing-IsSound env h source (env.answer_blocks hashes) s sound
  run_task-Sound env (fetch_parent h) s visit sound =
      process_parent-Sound env h (env.answer_headers (h.previous_hash ∷ [])) s visit sound
  run_task-Sound env (fetch_parent_block h) s visit sound =
      add_parent_block-IsSound env h (env.answer_blocks (h.previous_hash ∷ [])) s sound

  target_chain-live :
      (hash : ℕ) (l : Dict ℕ ℕ) (s : NodeState) (fresh : ℕ)
      → IsLive fresh l
      → (r : ℕ) → target_chain hash l s ≡ some r
      → r < fresh
  target_chain-live hash [] s fresh live r found = cc
  target_chain-live hash ((tip, q) ∷ rest) s fresh (first, live) r found =
      ground (arith, target_chain-live hash rest s fresh live r)

  add_to_target-IsSound :
      (b : Block) (o : Option ℕ) (s : NodeState)
      → ((r : ℕ) → o ≡ some r → r < s.fresh)
      → IsSound w s
      → IsSound w (add_to_target w b o s).1
  add_to_target-IsSound b none s used sound = sound
  add_to_target-IsSound b (some r) s used (chains, live, headers, submitted, filed, pool_valid) =
      let c = w.crypto in
      (
        update-IsIndexed c s.memory r (add_block c b (add_header c b.header (s.memory r))) chains (
            add_block-IsIndexed c b (add_header c b.header (s.memory r))
              (add_header-IsIndexed c b.header (s.memory r) (chains r))),
        insert-IsLive (block_hash c b) r s.fresh (erase b.header.previous_hash s.chains)
            (erase-IsLive b.header.previous_hash s.fresh s.chains live) (used r refl),
        insert-IsHashed (header_hash c) b.header s.headers_map headers,
        submitted,
        filed,
        pool_valid,
      )

  add_if_valid-IsSound :
      (t : Transaction) (now : ℕ) (e : Option TxError) (s : NodeState)
      → IsSound w s
      → IsSound w (add_if_valid w t now e s).1
  add_if_valid-IsSound t now (some e) s sound = sound
  add_if_valid-IsSound t now none s (chains, live, headers, submitted, filed, pool_valid) = (
    chains,
    live,
    headers,
    submitted,
    filed,
    add_transaction-IsValid w.crypto t now s.mempool pool_valid,
  )

  store_block-IsSound : (b : Block) (s : NodeState) → IsSound w s → IsSound w (store_block w b s)
  unfolding store_block
  store_block-IsSound b s (chains, live, headers, submitted, filed, pool_valid) = (
    chains,
    live,
    headers,
    insert-IsHashed (block_hash w.crypto) b s.submitted submitted,
    filed,
    pool_valid,
  )

  done-IsSound :
      (o : Outcome NodeError) (e : Option NodeError) (s : NodeState)
      → o ≡ done e s
      → SoundAfter w o
      → IsSound w s
  done-IsSound o e s ends sound = rw ends at sound

  module _ (order : List Entry → List Entry) (any_order : (l : List Entry) → Perm (order l) l) where
    pub Step-IsSound : {s s' : NodeState} → Step w order s s' → IsSound w s → IsSound w s'
    unfolding add_block_directly process_transaction
    Step-IsSound (header env h {s} {s'} {e} visit ends) sound =
        done-IsSound _ e s' ends (process_header-Sound w env h s sound (visit s.chains))
    Step-IsSound (task env before after t {s} {s'} {e} visit split ends) sound =
        done-IsSound _ e s' ends
          (run_task-Sound env t (record s { spawned = before ++ after }) visit sound)
    Step-IsSound (transaction t now s) sound =
        add_if_valid-IsSound t now (validate_transaction w.crypto t (current_states s)) s sound
    Step-IsSound (store b s) sound = store_block-IsSound b s sound
    Step-IsSound (add_directly env b s visit) sound =
        add_to_target-IsSound b _ s
          (target_chain-live b.header.previous_hash (env.chains_order s.chains) s s.fresh
            (IsLive-visit s.fresh (env.chains_order s.chains) s.chains (visit s.chains) sound.1))
          sound
    Step-IsSound (pool s mp step) (chains, live, headers, submitted, filed, pool_valid) = (
      chains,
      live,
      headers,
      submitted,
      filed,
      Pool.Step-IsValid w.crypto order any_order step pool_valid,
    )
