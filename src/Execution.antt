-- ===== src/Execution.antt =====
-- execution/execution.go: `ExecutorImpl`, which runs contracts on the virtual machine.
pub mod Calls
mod Tests
use august.Base.{
  ℕ, suc, ◌+◌, ◌-◌, ◌%◌, Bool, true, false, Option, none, some, List, [], ◌∷◌, ◌==◌, if◌then◌else◌,
}
use august.Base.Bytes.{Bytes}
use august.Base.Dict.{Dict, lookup, insert, nat_eq}
use august.Config.{u64_mod, avm_max_stack_size, avm_max_memory_size}
use august.Types.Instruction.{Instruction}
use august.Avm.Machine.{BlockchainContext, Setting, AvmError, program_stopped}
use august.Avm.Run.{Runtime, new_runtime, Outcome, returns, panics, start_execution}
use august.Blockchain.Primitives.{Crypto, compute_code_hash, generate_contract_address}
use august.Blockchain.Storage.{compute_storage_root}
use august.Blockchain.Account.{AccountState, States}
use august.Blockchain.Transaction.{Transaction, has_code}
use august.Blockchain.Executor.{Execution, executed, failed, crashed, ContractExecutor}

-- A run of the machine as its callers read it: `err == nil || err == ErrProgramStopped`, another
-- error, or a panic; with the gas used and the storage.
pub data Ran : Type 0 where
  succeeded : ℕ → Dict Bytes Bytes → Ran
  broke : ℕ → Ran
  panicked : Ran

abbrev pub read_outcome : Option Outcome → Ran
read_outcome none = panicked
read_outcome (some panics) = panicked
read_outcome (some (returns none r)) = succeeded r.gas_used r.machine.persistent
read_outcome (some (returns (some program_stopped) r)) = succeeded r.gas_used r.machine.persistent
read_outcome (some (returns (some e) r)) = broke r.gas_used

-- The limits are those of `NewRuntimeWithIC`; `max_alloc` is a parameter (Avm/Machine.antt).
abbrev pub avm_setting : ℕ → List Instruction → BlockchainContext → Setting
avm_setting max_alloc code context = record {
  instructions = code;
  context = context;
  max_stack = avm_max_stack_size;
  max_memory = avm_max_memory_size;
  max_alloc = max_alloc;
}

-- One round more than the gas is enough (Avm/Run/Gas.antt).
unfoldable pub run_avm : ℕ → List Instruction → BlockchainContext → ℕ → ℕ → Dict Bytes Bytes → Ran
run_avm max_alloc code context gas ic storage =
    read_outcome (
      start_execution (avm_setting max_alloc code context) (suc gas) ic
        (new_runtime gas ic storage))

-- The account of a new contract, with the storage that its initialisation leaves.
abbrev pub contract_account : Crypto → Transaction → ℕ → Dict Bytes Bytes → AccountState
contract_account c t key storage = record {
  address = key;
  balance = t.amount;
  nonce = 0;
  instructions = t.instructions;
  persistent = storage;
  storage_root = compute_storage_root c storage;
  code_hash = compute_code_hash c t.instructions;
  deployment_tsx_hash = 0;
  deployment_block_hash = 0;
}

abbrev settle_init : Crypto → Transaction → ℕ → States → Ran → Execution × States
settle_init c t key states (succeeded gas storage) =
    (executed gas, insert key (contract_account c t key storage) states)
settle_init c t key states (broke gas) = (failed gas, states)
settle_init c t key states panicked = (crashed, states)

abbrev deploy_from :
    Crypto → ℕ → Transaction → BlockchainContext → Option AccountState → States → Execution × States
deploy_from c max_alloc t context none states = (crashed, states)
deploy_from c max_alloc t context (some a) states =
    if t.gas_limit == 0
    then (failed 0, states)
    else settle_init c t (generate_contract_address c t.sender a.nonce) states
        (run_avm max_alloc t.instructions context t.gas_limit 0 [])

-- `executeContractDeployment`, for a transaction that has instructions. A sender that is not in
-- the map is a nil pointer, whose `Nonce` cannot be read.
unfoldable pub execute_contract_deployment :
    Crypto → ℕ → Transaction → States → BlockchainContext → Execution × States
execute_contract_deployment c max_alloc t states context =
    deploy_from c max_alloc t context (lookup t.sender states) states

abbrev settle_run : Crypto → Transaction → AccountState → States → Ran → Execution × States
settle_run c t a states (succeeded gas storage) = (
  executed gas,
  insert t.recipient
      (record a { persistent = storage; storage_root = compute_storage_root c storage }) states,
)
settle_run c t a states (broke gas) = (executed gas, states)
settle_run c t a states panicked = (crashed, states)

-- The rest of `executeContractCall`, with the recipient's account after its credit.
abbrev run_call :
    Crypto → ℕ → Transaction → BlockchainContext → AccountState → States → Execution × States
run_call c max_alloc t context a states =
    if has_code a.instructions
    then (if t.gas_limit == 0
        then (executed 0, states)
        else settle_run c t a states
            (run_avm max_alloc a.instructions context t.gas_limit 2 a.persistent))
    else (executed 0, states)

-- `toState.Balance += tsx.Amount` on `uint64`
abbrev pub credited : Transaction → AccountState → AccountState
credited t a = record a { balance = (a.balance + t.amount) % u64_mod }

abbrev call_to :
    Crypto → ℕ → Transaction → BlockchainContext → Option AccountState → States → Execution × States
call_to c max_alloc t context none states = (failed 0, states)
call_to c max_alloc t context (some a) states =
    run_call c max_alloc t context (credited t a) (insert t.recipient (credited t a) states)

-- `executeContractCall`
unfoldable pub execute_contract_call :
    Crypto → ℕ → Transaction → States → BlockchainContext → Execution × States
execute_contract_call c max_alloc t states context =
    call_to c max_alloc t context (lookup t.recipient states) states

-- `ExecuteTransaction`
unfoldable pub execute_transaction :
    Crypto → ℕ → Transaction → States → BlockchainContext → Execution × States
execute_transaction c max_alloc t states context =
    if has_code t.instructions
    then execute_contract_deployment c max_alloc t states context
    else execute_contract_call c max_alloc t states context

-- What `SetContractExecutor` registers.
unfoldable pub executor_impl : Crypto → ℕ → ContractExecutor
executor_impl c max_alloc = record { execute_transaction = execute_transaction c max_alloc }
