-- ===== src/Blockchain/Apply/Unpaid.antt =====
-- blockchain/validation.go: the transactions that nobody pays for, those with no sender and those
-- with neither a recipient nor code.
use august.Base.{ℕ, ◌+◌, ◌<◌, ◌≡◌, ◌≢◌, refl, true, false, Option, none, some, ◌==◌, arith}
use august.Base.Dict.{lookup, insert, nat_eq}
use august.Config.{u64_mod, gas_transfer}
use august.Utils.SafeMath.{safe_add_fits, amount_in_range}
use august.Blockchain.Primitives.{Crypto}
use august.Blockchain.Account.{AccountState, States, new_account, supply}
use august.Blockchain.Account.Supply.{supply-insert, supply-insert_new}
use august.Blockchain.Transaction.{Transaction, IsTransaction, is_deployment, has_code}
use august.Blockchain.Validate.{validate_transaction}
use august.Blockchain.Executor.{ContractExecutor}
use august.Blockchain.Apply.Transfer.{with_amount}
use august.Blockchain.Apply.{ok, apply_transaction, apply_coinbase, coinbase_to}

-- The balance of an account that may not be there.
abbrev pub balance_of : Option AccountState → ℕ
balance_of none = 0
balance_of (some a) = a.balance

coinbase_to_lem :
    (t : Transaction) (o : Option AccountState) (states : States)
    → lookup t.recipient states ≡ o
    → balance_of o + t.amount < u64_mod
    → ((coinbase_to t o states).0 ≡ ok 0)
      × (supply (coinbase_to t o states).1 ≡ supply states + t.amount)
coinbase_to_lem t none states e room =
    (refl, supply-insert_new t.recipient (new_account t.recipient t.amount) states e)
coinbase_to_lem t (some a) states e room = rw (safe_add_fits a.balance t.amount room) (
  refl,
  omega (arith, supply-insert t.recipient (record a { balance = a.balance + t.amount }) a states e),
)

coinbase_to_exact :
    (t : Transaction) (o : Option AccountState) (states : States)
    → balance_of o + t.amount < u64_mod
    → coinbase_to t o states ≡ (ok 0, insert t.recipient (with_amount t o) states)
coinbase_to_exact t none states room = refl
coinbase_to_exact t (some a) states room = rw (safe_add_fits a.balance t.amount room)

module _ (c : Crypto) (x : Option ContractExecutor) (t : Transaction) (states : States) where
  pub coinbase_exact :
      t.sender ≡ 0
      → balance_of (lookup t.recipient states) + t.amount < u64_mod
      → apply_transaction c x t states
        ≡ (ok 0, insert t.recipient (with_amount t (lookup t.recipient states)) states)
  unfolding apply_transaction apply_coinbase
  coinbase_exact s room =
      let none_sent : (t.sender == 0) ≡ true = ground arith in
      rw none_sent (coinbase_to_exact t (lookup t.recipient states) states room)

  -- Every transaction with no sender is valid, whatever its signature, amount and nonce, and where
  -- the recipient has room, applying it adds the amount to the sum of all balances and uses no gas.
  pub coinbase_mints :
      IsTransaction t
      → t.sender ≡ 0
      → balance_of (lookup t.recipient states) + t.amount < u64_mod
      → let (r, after) = apply_transaction c x t states in
        (validate_transaction c t states ≡ none)
        × (r ≡ ok 0)
        × (supply after ≡ supply states + t.amount)
  unfolding apply_transaction apply_coinbase validate_transaction amount_in_range
  coinbase_mints range s room =
      let (r, sup) = coinbase_to_lem t (lookup t.recipient states) states refl room in
      let none_sent : (t.sender == 0) ≡ true = ground arith in
      (ground arith, rw none_sent r, rw none_sent sup)

  -- A transaction with a sender, but neither a recipient nor code, reports the gas of a transfer,
  -- whatever its gas limit, and changes no account.
  pub unchanged :
      (a : AccountState)
      → t.sender ≢ 0
      → t.recipient ≡ 0
      → has_code t.instructions ≡ false
      → lookup t.sender states ≡ some a
      → apply_transaction c x t states ≡ (ok gas_transfer, states)
  unfolding apply_transaction is_deployment
  unchanged a s r no_code e =
      let sent : (t.sender == 0) ≡ false = ground arith in
      let nowhere : (t.recipient == 0) ≡ true = ground arith in rw (sent, e, nowhere, no_code)
