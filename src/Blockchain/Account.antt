-- ===== src/Blockchain/Account.antt =====
-- blockchain/account.go: the states of the accounts, a map from public keys.
pub mod Supply
use august.Base.{ℕ, ◌+◌, List, [], ◌∷◌}
use august.Base.Bytes.{Bytes}
use august.Base.Dict.{Dict}
use august.Types.Instruction.{Instruction}

-- A nil `Persistent` reads as the empty map and is never written to.
pub record AccountState : Type 0 where
  pub address : ℕ
  pub balance : ℕ
  pub nonce : ℕ
  pub instructions : List Instruction
  pub persistent : Dict Bytes Bytes
  pub storage_root : ℕ
  pub code_hash : ℕ
  pub deployment_tsx_hash : ℕ
  pub deployment_block_hash : ℕ

abbrev pub States : Type 0
States = Dict ℕ AccountState

-- The account that a first credit makes.
abbrev pub new_account : ℕ → ℕ → AccountState
new_account key amount = record {
  address = key;
  balance = amount;
  nonce = 0;
  instructions = [];
  persistent = [];
  storage_root = 0;
  code_hash = 0;
  deployment_tsx_hash = 0;
  deployment_block_hash = 0;
}

-- The sum of all balances.
unfoldable pub supply : States → ℕ
supply [] = 0
supply ((k, a) ∷ rest) = a.balance + supply rest
