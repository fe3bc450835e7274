-- ===== src/Blockchain/Apply.antt =====
-- blockchain/validation.go: `ApplyTransaction`. The map of accounts holds pointers; an account is
-- read under its key where the source reads it through a pointer, and written back there.
pub mod Pay
pub mod Transfer
pub mod Unpaid
use august.Base.{
  ℕ, ◌+◌, ◌*◌, ◌%◌, Bool, true, false, Option, none, some, List, [], ◌∷◌, ltb, ◌==◌, if◌then◌else◌,
  length,
}
use august.Base.Dict.{lookup, insert, nat_eq}
use august.Config.{
  u64_mod, contract_deployment_fee, gas_transfer, gas_contract_deploy, gas_data_per_byte,
}
use august.Utils.SafeMath.{safe_add, safe_subtract}
use august.Types.Instruction.{Instruction, validate_instruction}
use august.Avm.Machine.{BlockchainContext}
use august.Blockchain.Primitives.{Crypto, generate_contract_address}
use august.Blockchain.Account.{AccountState, States, new_account}
use august.Blockchain.Transaction.{Transaction, is_deployment, has_code}
use august.Blockchain.Validate.{
  TxError, unknown_sender, invalid_instruction, no_executor, execution_failed, gas_limit_exceeded,
}
use august.Blockchain.Executor.{Execution, executed, failed, crashed, ContractExecutor}

-- What a call returns, the gas and the error, or its panic; and the map of accounts, in which all
-- that was written stays written.
pub data Applied : Type 0 where
  ok : ℕ → Applied
  err : ℕ → TxError → Applied
  panic : Applied

-- `fromState.Balance = …; fromState.Nonce += 1`
abbrev pub debited : AccountState → ℕ → AccountState
debited a balance = record a { balance = balance; nonce = (a.nonce + 1) % u64_mod }

-- The last part of both branches: the limit, the price of the gas, and the payment.
-- `detached` says that the sender's pointer is no longer in the map.
abbrev pay_with : ℕ → ℕ → AccountState → Bool → States → Option ℕ → Applied × States
pay_with gas sender a detached states none = (panic, states)
pay_with gas sender a true states (some balance) = (ok gas, states)
pay_with gas sender a false states (some balance) =
    (ok gas, insert sender (debited a balance) states)

abbrev pub subtract_from : AccountState → Option ℕ → Option ℕ
subtract_from a none = none
subtract_from a (some total) = safe_subtract a.balance total

unfoldable pub pay : Transaction → ℕ → ℕ → AccountState → Bool → States → Applied × States
pay t gas cost a detached states =
    if ltb t.gas_limit gas
    then (err gas gas_limit_exceeded, states)
    else pay_with gas t.sender a detached states
        (subtract_from a (safe_add cost (gas * t.gas_price % u64_mod)))

-- The gas for the bytes of the data, added to a base.
abbrev pub base_gas : ℕ → Transaction → ℕ
base_gas base t = (base + length t.payload * gas_data_per_byte % u64_mod) % u64_mod

-- The context that both branches fill in.
abbrev pub block_context : Transaction → ℕ → ℕ → BlockchainContext
block_context t contract deployer = record {
  block_number = 1;
  block_hash = 0;
  last_block_hash = 0;
  timestamp = 1640995200;
  difficulty = 0x207fffff;
  gas_limit = t.gas_limit;
  coinbase = 0;
  chain_id = 1;
  caller = t.sender;
  origin = t.sender;
  gas_price = t.gas_price;
  call_value = t.amount;
  contract_address = contract;
  tsx_data = t.payload;
  deployer = deployer;
  deployment_time = 1640995200;
  deployment_gas = t.gas_price;
}

abbrev pub or_same : AccountState → Option AccountState → AccountState
or_same a none = a
or_same a (some b) = b

-- The accounts of the caller's map after a call that is not copied back: the same keys, with what
-- was written through the pointers that the two maps share.
unfoldable pub shared : States → States → States
unfolding lookup
shared [] after = []
shared ((k, a) ∷ rest) after = (k, or_same a (lookup k after)) ∷ shared rest after

abbrev first_invalid : List Instruction → Bool
first_invalid [] = false
first_invalid (i ∷ rest) = elim (validate_instruction i) [
  | some e ↦ true
  | none ↦ first_invalid rest
]

abbrev settle_deployment :
    Transaction → ℕ → ℕ → ℕ → AccountState → States → Execution × States → Applied × States
settle_deployment t gas cost contract a states (crashed, after) = (panic, after)
settle_deployment t gas cost contract a states (failed used, after) =
    (err gas execution_failed, shared states after)
settle_deployment t gas cost contract a states (executed used, after) =
    let detached = contract == t.sender in
    let current = if detached then a else or_same a (lookup t.sender after) in
    pay t ((gas + used) % u64_mod) cost current detached after

abbrev execute_deployment :
    Option ContractExecutor → Transaction → ℕ → ℕ → ℕ → AccountState → States → Applied × States
execute_deployment none t gas cost contract a states = (err gas no_executor, states)
execute_deployment (some x) t gas cost contract a states =
    settle_deployment t gas cost contract a states
      (x.execute_transaction t states (block_context t contract t.sender))

-- The branch of a deployment, from the sender's account; `cost` is the amount and the fee.
unfoldable pub deploy :
    Crypto → Option ContractExecutor → Transaction → ℕ → AccountState → States → Applied × States
deploy c x t cost a states =
    let gas = base_gas gas_contract_deploy t in
    if first_invalid t.instructions
    then (err gas invalid_instruction, states)
    else execute_deployment x t gas cost (generate_contract_address c t.sender a.nonce) a states

-- The states and the gas after the contract at the recipient has run, or `none` for a panic.
abbrev pub settle_call : ℕ → States → Execution × States → Option (ℕ × States)
settle_call gas states (crashed, after) = none
settle_call gas states (failed used, after) = some (gas, shared states after)
settle_call gas states (executed used, after) = some ((gas + used) % u64_mod, after)

abbrev pub run_contract :
    Option ContractExecutor → Transaction → ℕ → AccountState → States → Option (ℕ × States)
run_contract none t gas a states = some (gas, states)
run_contract (some x) t gas a states =
    settle_call gas states (x.execute_transaction t states (block_context t t.recipient a.address))

-- `SafeAdd(toState.Balance, tsx.Amount)` and the call of the contract, for a known recipient.
abbrev pub credit_known :
    Option ContractExecutor
    → Transaction
    → ℕ
    → AccountState
    → States
    → Option ℕ
    → Option (ℕ × States)
credit_known x t gas a states none = none
credit_known x t gas a states (some balance) =
    let states' = insert t.recipient (record a { balance = balance }) states in
    if has_code a.instructions then run_contract x t gas a states' else some (gas, states')

abbrev pub credit :
    Option ContractExecutor → Transaction → ℕ → Option AccountState → States → Option (ℕ × States)
credit x t gas none states =
    some (gas, insert t.recipient (new_account t.recipient t.amount) states)
credit x t gas (some a) states = credit_known x t gas a states (safe_add a.balance t.amount)

abbrev pub pay_transfer :
    Transaction → AccountState → States → Option (ℕ × States) → Applied × States
pay_transfer t a states none = (panic, states)
pay_transfer t a states (some (gas, after)) =
    pay t gas t.amount (or_same a (lookup t.sender after)) false after

-- The branch of a transfer, from the sender's account.
unfoldable pub transfer :
    Option ContractExecutor → Transaction → AccountState → States → Applied × States
transfer x t a states =
    pay_transfer t a states
      (credit x t (base_gas gas_transfer t) (lookup t.recipient states) states)

abbrev coinbase_known : Transaction → AccountState → States → Option ℕ → Applied × States
coinbase_known t a states none = (panic, states)
coinbase_known t a states (some balance) =
    (ok 0, insert t.recipient (record a { balance = balance }) states)

abbrev coinbase_to : Transaction → Option AccountState → States → Applied × States
coinbase_to t none states = (ok 0, insert t.recipient (new_account t.recipient t.amount) states)
coinbase_to t (some a) states = coinbase_known t a states (safe_add a.balance t.amount)

-- The branch of a transaction with no sender.
unfoldable pub apply_coinbase : Transaction → States → Applied × States
apply_coinbase t states = coinbase_to t (lookup t.recipient states) states

abbrev deploy_with_fee :
    Crypto
    → Option ContractExecutor
    → Transaction
    → AccountState
    → States
    → Option ℕ
    → Applied × States
deploy_with_fee c x t a states none = (panic, states)
deploy_with_fee c x t a states (some cost) = deploy c x t cost a states

abbrev apply_from :
    Crypto → Option ContractExecutor → Transaction → Option AccountState → States → Applied × States
apply_from c x t none states = (err 0 unknown_sender, states)
apply_from c x t (some a) states =
    if is_deployment t
    then deploy_with_fee c x t a states (safe_add t.amount contract_deployment_fee)
    else if t.recipient == 0
    then (ok gas_transfer, states)
    else transfer x t a states

unfoldable pub apply_transaction :
    Crypto → Option ContractExecutor → Transaction → States → Applied × States
apply_transaction c x t states =
    if t.sender == 0
    then apply_coinbase t states
    else apply_from c x t (lookup t.sender states) states
