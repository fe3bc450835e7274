-- ===== src/Node/Indexed/Beside.antt =====
-- node/: what runs while `ProcessHeader` waits gives out no pointers.
use august.Base.{
  ℕ, ◌≡◌, refl, Bool, true, false, Option, none, some, List, [], ◌∷◌, ◌++◌, if◌then◌else◌, ◌∙◌,
}
use august.Base.Dict.{Dict, nat_eq}
use august.Blockchain.Transaction.{Transaction}
use august.Blockchain.Validate.{TxError, validate_transaction}
use august.Blockchain.Header.{BlockHeader}
use august.Blockchain.Block.{Block, add_block}
use august.Blockchain.Getters.{get_header}
use august.Blockchain.ValidateBlock.{World}
use august.Node.Heap.{Entry}
use august.Node.State.{
  NodeState, done, Reply, timeout, answers, Environment, Task, process_later, fetch_missing,
  fetch_parent, fetch_parent_block, put_chain, Outcome, panics, diverges,
}
use august.Node.Fork.{is_there}
use august.Node.Extend.{NodeError}
use august.Node.Process.{process_transaction, add_if_valid, store_block, current_states}
use august.Node.Steps.{
  Step, header, task, transaction, store, add_directly, pool, add_missing, process_parent,
  add_where_known, add_parent_block, run_task, target_chain, add_to_target, add_block_directly,
}
use august.Node.Turns.{HasNoHeader, IsFree, RunsBeside}

abbrev FreshAfter : ℕ → Outcome NodeError → Type 0
FreshAfter n (done e s) = s.fresh ≡ n
FreshAfter n panics = Unit {0}
FreshAfter n diverges = Unit {0}

module _ (w : World) (env : Environment) where
  add_missing-fresh :
      (h : BlockHeader) (source : ℕ) (r : Reply Block) (s : NodeState)
      → (add_missing w env h source r s).fresh ≡ s.fresh
  unfolding add_missing
  add_missing-fresh h source timeout s = refl
  add_missing-fresh h source (answers []) s = refl
  add_missing-fresh h source (answers (r ∷ rs)) s = refl

  process_parent-fresh :
      (h : BlockHeader) (r : Reply BlockHeader) (s : NodeState)
      → HasNoHeader r
      → FreshAfter s.fresh (process_parent w env h r s)
  unfolding process_parent
  process_parent-fresh h timeout s nothing = refl
  process_parent-fresh h (answers []) s nothing = refl
  process_parent-fresh h (answers ([] ∷ rs)) s nothing = refl
  process_parent-fresh h (answers ((parent ∷ hs) ∷ rs)) s nothing = absurd nothing

  if-fresh :
      (test : Bool) (r : ℕ) (b : Block) (s : NodeState)
      → (if test then put_chain r (add_block w.crypto b (s.memory r)) s else s).fresh ≡ s.fresh
  if-fresh true r b s = refl
  if-fresh false r b s = refl

  add_where_known-fresh :
      (hash : ℕ) (b : Block) (l : Dict ℕ ℕ) (s : NodeState)
      → (add_where_known w hash b l s).fresh ≡ s.fresh
  unfolding add_where_known
  add_where_known-fresh hash b [] s = refl
  add_where_known-fresh hash b ((tip, r) ∷ rest) s =
      add_where_known-fresh hash b rest _ ∙ if-fresh (is_there (get_header hash (s.memory r))) r b s

  add_parent_block-fresh :
      (h : BlockHeader) (r : Reply Block) (s : NodeState)
      → (add_parent_block w env h r s).fresh ≡ s.fresh
  unfolding add_parent_block
  add_parent_block-fresh h timeout s = refl
  add_parent_block-fresh h (answers []) s = refl
  add_parent_block-fresh h (answers ([] ∷ rs)) s = refl
  add_parent_block-fresh h (answers ((b ∷ bs) ∷ rs)) s =
      add_where_known-fresh h.previous_hash b (env.chains_order s.chains) s

  run_task-fresh :
      (t : Task) (s : NodeState) → IsFree env t → FreshAfter s.fresh (run_task w env t s)
  unfolding run_task
  run_task-fresh (process_later h) s free = absurd free
  run_task-fresh (fetch_missing h hashes source) s free =
      add_missing-fresh h source (env.answer_blocks hashes) s
  run_task-fresh (fetch_parent h) s free =
      process_parent-fresh h (env.answer_headers (h.previous_hash ∷ [])) s free
  run_task-fresh (fetch_parent_block h) s free =
      add_parent_block-fresh h (env.answer_blocks (h.previous_hash ∷ [])) s

module _ (w : World) where
  add_to_target-fresh :
      (b : Block) (o : Option ℕ) (s : NodeState) → (add_to_target w b o s).1.fresh ≡ s.fresh
  add_to_target-fresh b none s = refl
  add_to_target-fresh b (some r) s = refl

  add_if_valid-fresh :
      (t : Transaction) (now : ℕ) (e : Option TxError) (s : NodeState)
      → (add_if_valid w t now e s).1.fresh ≡ s.fresh
  add_if_valid-fresh t now (some e) s = refl
  add_if_valid-fresh t now none s = refl

  done-fresh :
      (o : Outcome NodeError) (e : Option NodeError) (s : NodeState) (n : ℕ)
      → o ≡ done e s
      → FreshAfter n o
      → s.fresh ≡ n
  done-fresh o e s n ends kept = rw ends at kept

  pub RunsBeside-fresh :
      (order : List Entry → List Entry) {s s' : NodeState} (step : Step w order s s')
      → RunsBeside step
      → s'.fresh ≡ s.fresh
  unfolding process_transaction store_block add_block_directly
  RunsBeside-fresh order (header env h visit ends) free = absurd free
  RunsBeside-fresh order (task env before after t {s} {s'} {e} visit split ends) free =
      done-fresh _ e s' s.fresh ends
        (run_task-fresh w env t (record s { spawned = before ++ after }) free)
  RunsBeside-fresh order (transaction t now s) free =
      add_if_valid-fresh t now (validate_transaction w.crypto t (current_states s)) s
  RunsBeside-fresh order (store b s) free = refl
  RunsBeside-fresh order (add_directly env b s visit) free =
      add_to_target-fresh b (target_chain b.header.previous_hash (env.chains_order s.chains) s) s
  RunsBeside-fresh order (pool s mp step) free = refl
