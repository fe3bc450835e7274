-- ===== src/Blockchain/Validate.antt =====
-- blockchain/validation.go: `ValidateTransaction`.
pub mod Spec
use august.Base.{
  ℕ, ◌+◌, ◌*◌, ◌/◌, ◌%◌, Bool, true, false, Option, none, some, ltb, ◌==◌, ◌&&◌, ◌||◌, not,
  if◌then◌else◌,
}
use august.Base.Dict.{lookup, nat_eq}
use august.Config.{u64_mod, contract_deployment_fee}
use august.Utils.SafeMath.{safe_add, amount_in_range}
use august.Blockchain.Primitives.{Crypto}
use august.Blockchain.Account.{AccountState, States}
use august.Blockchain.Transaction.{Transaction, get_hash, is_deployment}

pub data TxError : Type 0 where
  amount_out_of_range gas_limit_zero gas_price_zero invalid_signature : TxError
  unknown_sender gas_cost_overflow total_overflow insufficient_balance invalid_nonce : TxError
  invalid_instruction no_executor execution_failed gas_limit_exceeded : TxError

-- `tsx.GasLimit * tsx.GasPrice` on `uint64`
unfoldable pub max_gas_cost : Transaction → ℕ
max_gas_cost t = t.gas_limit * t.gas_price % u64_mod

-- `tsx.GasLimit != 0 && maxGasCost/tsx.GasLimit != tsx.GasPrice`
unfoldable pub gas_cost_overflows : Transaction → Bool
unfolding max_gas_cost
gas_cost_overflows t = not (t.gas_limit == 0) && not (max_gas_cost t / t.gas_limit == t.gas_price)

-- The amount, the gas at its limit and the fee of a deployment: `none` is an overflow.
abbrev add_fee : Bool → Option ℕ → Option ℕ
add_fee true (some total) = safe_add total contract_deployment_fee
add_fee _ o = o

unfoldable pub total_cost : Transaction → Option ℕ
total_cost t = add_fee (is_deployment t) (safe_add t.amount (max_gas_cost t))

abbrev check_balance : Transaction → AccountState → Option ℕ → Option TxError
check_balance t a none = some total_overflow
check_balance t a (some total) =
    if ltb a.balance total
    then some insufficient_balance
    else if t.nonce == (a.nonce + 1) % u64_mod
    then none
    else some invalid_nonce

abbrev check_sender : Transaction → Option AccountState → Option TxError
check_sender t none = some unknown_sender
check_sender t (some a) =
    if gas_cost_overflows t then some gas_cost_overflow else check_balance t a (total_cost t)

-- `none` is nil.
unfoldable pub validate_transaction : Crypto → Transaction → States → Option TxError
validate_transaction c t states =
    if not (amount_in_range t.amount)
    then some amount_out_of_range
    else if not (amount_in_range t.gas_limit)
    then some amount_out_of_range
    else if not (amount_in_range t.gas_price)
    then some amount_out_of_range
    else if t.sender == 0
    then none
    else if t.gas_limit == 0
    then some gas_limit_zero
    else if t.gas_price == 0
    then some gas_price_zero
    else if not (c.verify t.sender (get_hash c t) t.signature)
    then some invalid_signature
    else check_sender t (lookup t.sender states)
