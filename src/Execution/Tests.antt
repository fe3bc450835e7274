-- ===== src/Execution/Tests.antt =====
-- Tests of execution/, and instances of its theorems.
use august.Base.{◌^◌, ◌≡◌, refl, true, none, some, [], ◌∷◌, arith}
use august.Base.Dict.{lookup, insert, nat_eq}
use august.Types.Opcode.{Opcode, price}
use august.Types.Instruction.{Instruction}
use august.Avm.Run.{new_runtime, start_execution, has_more, is_clean}
use august.Blockchain.Primitives.{Crypto}
use august.Blockchain.Account.{AccountState, States, new_account}
use august.Blockchain.Transaction.{Transaction, IsTransaction, is_deployment}
use august.Blockchain.Apply.{ok, block_context, apply_transaction, transfer, pay}
use august.Blockchain.Sorting.{sort_entries}
use august.Blockchain.Storage.{compute_storage_root}
use august.Utils.SafeMath.{safe_add, safe_subtract}
use august.Execution.{execute_transaction, executor_impl, run_avm, execute_contract_call}
use august.Execution.Calls.{Credits, execute_transaction-Credits}
use august.Execution.Calls.Twice.{CreditedTwice, call_credits_twice}

abbrev toy : Crypto
toy = record { sha256 = λ bs. 5; verify = λ key hash signature. true }

abbrev op : Opcode → Instruction
op o = record { opcode = o; value = none }

-- A contract that stops at once when it is called.
abbrev contract : AccountState
contract = record (new_account 8 40) {
  instructions = op Opcode.stop ∷ op Opcode.stop ∷ op Opcode.stop ∷ [];
}

abbrev call : Transaction
call = record {
  sender = 7;
  recipient = 8;
  amount = 500;
  signature = 0;
  nonce = 1;
  timestamp = 1000;
  chain_id = 1;
  instructions = [];
  gas_limit = 30000;
  gas_price = 2;
  payload = [];
}

call-IsTransaction : IsTransaction call
call-IsTransaction = record {
  amount_fits = omega arith;
  nonce_fits = omega arith;
  gas_limit_fits = omega arith;
  gas_price_fits = omega arith;
}

abbrev states : States
states = (7, new_account 7 1000000) ∷ (8, contract) ∷ []

execute_transaction-Credits_example :
    Credits call 30000 contract states
      (execute_transaction toy (2 ^ 48) call states (block_context call 8 7))
unfolding lookup
execute_transaction-Credits_example =
    execute_transaction-Credits toy (2 ^ 48) call states (block_context call 8 7) contract refl
      (omega arith) (omega arith) refl refl (omega arith)

abbrev after_call : States
after_call =
    (7, record (new_account 7 957500) { nonce = 1 }) ∷ (8, record contract { balance = 1040 }) ∷ []

call_result :
    apply_transaction toy (some (executor_impl toy (2 ^ 48))) call states ≡ (ok 21000, after_call)
unfolding apply_transaction executor_impl execute_transaction lookup transfer is_deployment safe_add
    execute_contract_call insert run_avm start_execution is_clean new_runtime has_more price pay
    safe_subtract compute_storage_root sort_entries
call_result = refl

call_credits_twice_example : CreditedTwice call contract states 21000 after_call
unfolding lookup
call_credits_twice_example =
    call_credits_twice call states (new_account 7 1000000) contract toy (2 ^ 48) call-IsTransaction
      refl refl (omega arith) (omega arith) (omega arith) (omega arith) (omega arith) (omega arith)
      (omega arith) refl refl call_result
