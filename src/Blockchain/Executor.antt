-- ===== src/Blockchain/Executor.antt =====
-- blockchain/validation.go: the interface `ContractExecutor`, through which transactions run
-- contracts. The execution package implements it (Execution.antt).
use august.Base.{ℕ}
use august.Base.Dict.{nat_eq}
use august.Avm.Machine.{BlockchainContext}
use august.Blockchain.Account.{States}
use august.Blockchain.Transaction.{Transaction}

-- The gas that was used, with no error, with one, or a run-time panic.
pub data Execution : Type 0 where
  executed : ℕ → Execution
  failed : ℕ → Execution
  crashed : Execution

-- The states that come back are those of the map that was passed in, as it stands at the end.
pub record ContractExecutor : Type 0 where
  pub execute_transaction : Transaction → States → BlockchainContext → Execution × States
