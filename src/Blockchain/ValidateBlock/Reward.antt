-- ===== src/Blockchain/ValidateBlock/Reward.antt =====
-- blockchain/validation.go: the money that a block creates.
use august.Base.{ℕ, ◌≤◌, ◌≡◌, Option, none, some, arith}
use august.Base.Dict.{lookup, nat_eq}
use august.Blockchain.Account.{AccountState, States, supply}
use august.Blockchain.Account.Supply.{balance-le-supply}
use august.Blockchain.Transaction.{Transaction}
use august.Blockchain.Apply.Unpaid.{balance_of}
use august.Blockchain.Block.{Block}

pub balance_of-le-supply :
    (k : ℕ) (o : Option AccountState) (m : States) → lookup k m ≡ o → balance_of o ≤ supply m
balance_of-le-supply k none m e = omega arith
balance_of-le-supply k (some a) m e = balance-le-supply k a m e
