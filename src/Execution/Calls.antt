-- ===== src/Execution/Calls.antt =====
-- execution/execution.go: what a call of a contract does to the accounts.
pub mod Twice
use august.Base.{
  ℕ, ◌+◌, ◌-◌, ◌*◌, ◌%◌, ◌≤◌, ◌<◌, ◌≡◌, ◌≢◌, refl, Bool, true, false, Option, none, some, List, ltb,
  ◌==◌, if◌then◌else◌, arith, Bool-cases, inl, inr, ◌∙◌, sym, suc,
}
use august.Base.Bytes.{Bytes}
use august.Base.Dict.{Dict, lookup, insert, nat_eq, lookup-insert_ne, lookup-insert_self}
use august.Config.{u64_mod}
use august.Types.Instruction.{Instruction}
use august.Avm.Machine.{BlockchainContext, AvmError, program_stopped}
use august.Avm.Run.{Runtime, new_runtime, Outcome, returns, panics, start_execution}
use august.Avm.Run.Gas.{UsesAtMost, start_execution_ends}
use august.Blockchain.Primitives.{Crypto}
use august.Blockchain.Account.{AccountState, States, supply}
use august.Blockchain.Account.Supply.{supply-insert}
use august.Blockchain.Transaction.{Transaction, has_code}
use august.Blockchain.Executor.{Execution, executed, failed, crashed, ContractExecutor}
use august.Blockchain.Storage.{compute_storage_root}
use august.Execution.{
  Ran, succeeded, broke, panicked, read_outcome, avm_setting, run_avm, settle_run, settle_init,
  run_call, credited, call_to, execute_contract_call, execute_contract_deployment,
  execute_transaction, deploy_from,
}

-- The recipient's account takes the transaction's amount, no other account changes, and at most
-- `limit` gas is used.
abbrev pub Credits : Transaction → ℕ → AccountState → States → Execution × States → Type 0
Credits t limit a states (executed used, after) =
    (used ≤ limit)
    × (supply after ≡ supply states + t.amount)
    × ((k : ℕ) → k ≢ t.recipient → lookup k after ≡ lookup k states)
    × (b : AccountState) × (lookup t.recipient after ≡ some b)
    × (b.balance ≡ a.balance + t.amount)
Credits t limit a states (failed used, after) = ⊥
Credits t limit a states (crashed, after) = Unit {0}

abbrev pub RanWithin : ℕ → Ran → Type 0
RanWithin gas (succeeded used storage) = used ≤ gas
RanWithin gas (broke used) = used ≤ gas
RanWithin gas panicked = Unit {0}

read_outcome-RanWithin :
    (gas : ℕ) (o : Outcome) → UsesAtMost gas o → RanWithin gas (read_outcome (some o))
read_outcome-RanWithin gas panics h = tt
read_outcome-RanWithin gas (returns none r) h = h
read_outcome-RanWithin gas (returns (some program_stopped) r) h = h
read_outcome-RanWithin gas (returns (some e) r) h = h

run_avm-RanWithin :
    (max_alloc : ℕ) (code : List Instruction) (context : BlockchainContext) (gas ic : ℕ)
    (storage : Dict Bytes Bytes)
    → gas < u64_mod
    → RanWithin gas (run_avm max_alloc code context gas ic storage)
unfolding run_avm
run_avm-RanWithin max_alloc code context gas ic storage h =
    let (o, e, u) = start_execution_ends (avm_setting max_alloc code context) gas ic storage h in
    rw e (read_outcome-RanWithin gas o u)

settle_run-Credits :
    (c : Crypto) (t : Transaction) (limit : ℕ) (a : AccountState) (states : States) (r : Ran)
    → lookup t.recipient states ≡ some a
    → a.balance + t.amount < u64_mod
    → RanWithin limit r
    → Credits t limit a states
        (settle_run c t (credited t a) (insert t.recipient (credited t a) states) r)
settle_run-Credits c t limit a states (succeeded used storage) e room h =
    let a₂ = record (credited t a) {
      persistent = storage;
      storage_root = compute_storage_root c storage;
    } in
    let s₁ = insert t.recipient (credited t a) states in
    (
      h,
      omega (
        arith,
        supply-insert t.recipient (credited t a) a states e,
        supply-insert t.recipient a₂ (credited t a) s₁ (lookup-insert_self t.recipient _ _),
      ),
      λ k n.
          lookup-insert_ne t.recipient k _ _ (λ p. n (sym p))
          ∙ lookup-insert_ne t.recipient k _ _ (λ p. n (sym p)),
      a₂,
      lookup-insert_self t.recipient _ _,
      omega arith,
    )
settle_run-Credits c t limit a states (broke used) e room h = (
  h,
  omega (arith, supply-insert t.recipient (credited t a) a states e),
  λ k n. lookup-insert_ne t.recipient k _ _ (λ p. n (sym p)),
  credited t a,
  lookup-insert_self t.recipient _ _,
  omega arith,
)
settle_run-Credits c t limit a states panicked e room h = tt

-- ExecuteTransaction for a transaction without code that calls a contract, with a gas limit above
-- 0 and below 2 ^ 64 and room for the amount in the contract's balance, credits the contract with
-- the amount whether the contract's code succeeds or fails, changes no other account, returns no
-- error and uses no more gas than the limit, unless the virtual machine panics.
pub execute_transaction-Credits :
    (c : Crypto) (max_alloc : ℕ) (t : Transaction) (states : States) (context : BlockchainContext)
    (a : AccountState)
    → has_code t.instructions ≡ false
    → 0 < t.gas_limit
    → t.gas_limit < u64_mod
    → lookup t.recipient states ≡ some a
    → has_code a.instructions ≡ true
    → a.balance + t.amount < u64_mod
    → Credits t t.gas_limit a states (execute_transaction c max_alloc t states context)
unfolding execute_transaction execute_contract_call
execute_transaction-Credits c max_alloc t states context a no_code gas fits e code room =
    let some_gas : (t.gas_limit == 0) ≡ false = ground arith in
    rw (no_code, e, code, some_gas)
      (settle_run-Credits c t t.gas_limit a states
        (run_avm max_alloc a.instructions context t.gas_limit 2 a.persistent) e room
        (run_avm-RanWithin max_alloc a.instructions context t.gas_limit 2 a.persistent fits))
