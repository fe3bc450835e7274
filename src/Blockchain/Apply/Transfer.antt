-- ===== src/Blockchain/Apply/Transfer.antt =====
-- blockchain/validation.go: transfers between accounts that hold no contract.
pub mod Effects
use august.Base.{
  ℕ, ◌+◌, ◌-◌, ◌*◌, ◌%◌, ◌≤◌, ◌<◌, ◌≡◌, ◌≢◌, refl, Bool, true, false, Option, none, some, ltb, ◌==◌,
  if◌then◌else◌, arith, Option-cases, inl, inr, not, ◌∙◌,
}
use august.Base.Dict.{lookup, insert, nat_eq, lookup-insert}
use august.Config.{u64_mod, gas_transfer}
use august.Utils.SafeMath.{safe_add, safe_add_fits}
use august.Blockchain.Primitives.{Crypto}
use august.Blockchain.Account.{AccountState, States, new_account, supply}
use august.Blockchain.Account.Supply.{supply-insert, supply-insert_new}
use august.Blockchain.Transaction.{Transaction, IsTransaction, is_deployment, has_code}
use august.Blockchain.Validate.{gas_limit_exceeded, validate_transaction}
use august.Blockchain.Validate.Spec.{IsPayable, Fits, full_cost, fee_of, validate_transaction_iff}
use august.Blockchain.Executor.{ContractExecutor}
use august.Blockchain.Apply.{
  Applied, ok, err, panic, pay, debited, base_gas, credit, transfer, apply_transaction, or_same,
}
use august.Blockchain.Apply.Pay.{pay_covered, pay_exceeded}

-- The recipient takes the amount: it has no account yet, or one without code and with room.
abbrev pub Takes : Transaction → Option AccountState → Type 0
Takes t none = Unit {0}
Takes t (some b) = (has_code b.instructions ≡ false) × (b.balance + t.amount < u64_mod)

-- The recipient's account after the credit.
abbrev pub with_amount : Transaction → Option AccountState → AccountState
with_amount t none = new_account t.recipient t.amount
with_amount t (some b) = record b { balance = b.balance + t.amount }

abbrev pub gas_of : Transaction → ℕ
gas_of t = base_gas gas_transfer t

credit_plain :
    (x : Option ContractExecutor) (t : Transaction) (o : Option AccountState) (states : States)
    → Takes t o
    → credit x t (gas_of t) o states ≡ some (gas_of t, insert t.recipient (with_amount t o) states)
credit_plain x t none states h = refl
credit_plain x t (some b) states (no_code, room) =
    rw (safe_add_fits b.balance t.amount room, no_code)

-- The sender's account when it pays: after the credit, if the transfer is to itself.
abbrev pub payer : Transaction → AccountState → Option AccountState → AccountState
payer t a o = if t.recipient == t.sender then with_amount t o else a

abbrev pub paid : Transaction → ℕ → AccountState → AccountState
paid t gas a = debited a (a.balance - (t.amount + gas * t.gas_price))

-- The accounts after a transfer.
abbrev pub transferred : Transaction → AccountState → States → States
transferred t a states =
    let o = lookup t.recipient states in
    insert t.sender (paid t (gas_of t) (payer t a o)) (insert t.recipient (with_amount t o) states)

payer_lem :
    (t : Transaction) (a : AccountState) (o : Option AccountState) (states : States)
    → lookup t.sender states ≡ some a
    → or_same a (lookup t.sender (insert t.recipient (with_amount t o) states)) ≡ payer t a o
payer_lem t a o states e =
    ground (arith, lookup-insert t.recipient t.sender (with_amount t o) states)

payer_covered :
    (t : Transaction) (a : AccountState) (o : Option AccountState) (cost : ℕ)
    → (t.recipient ≡ t.sender → o ≡ some a)
    → cost ≤ a.balance
    → cost ≤ (payer t a o).balance
payer_covered t a none cost same h = ground (arith, same)
payer_covered t a (some b) cost same h = ground (arith, same)

payer_fits :
    (t : Transaction) (a : AccountState) (o : Option AccountState)
    → t.amount < u64_mod
    → a.balance < u64_mod
    → Takes t o
    → (payer t a o).balance < u64_mod
payer_fits t a none r b h = ground arith
payer_fits t a (some c) r b h = ground arith

pub gas_cost_le :
    (g l p amount balance : ℕ) (deploys : Bool)
    → g ≤ l
    → amount + l * p + fee_of deploys ≤ balance
    → amount + g * p ≤ balance
gas_cost_le g l p amount balance deploys h k = grind arith

module _ (c : Crypto) (x : Option ContractExecutor) (t : Transaction) (states : States) where
  abbrev Taken : Type 0
  Taken = Takes t (lookup t.recipient states)

  pub apply_to_transfer :
      (a : AccountState)
      → t.sender ≢ 0
      → t.recipient ≢ 0
      → lookup t.sender states ≡ some a
      → apply_transaction c x t states ≡ transfer x t a states
  unfolding apply_transaction is_deployment
  apply_to_transfer a s r e = rw e (ground arith)

  pub transfer_pays :
      (a : AccountState)
      → lookup t.sender states ≡ some a
      → Taken
      → transfer x t a states
        ≡ pay t
            (gas_of t)
            t.amount
            (payer t a (lookup t.recipient states))
            false
            (insert t.recipient (with_amount t (lookup t.recipient states)) states)
  unfolding transfer
  transfer_pays a e h = rw (
    credit_plain x t (lookup t.recipient states) states h,
    payer_lem t a (lookup t.recipient states) states e,
  )

  -- A valid transfer, whose gas is within its limit, to an account that is new or has no code and
  -- room for the amount, where all balances are below 2 ^ 64, goes through ApplyTransaction with
  -- exactly its gas and results in the accounts of the abstract payment: the recipient is
  -- credited, its account made if it is not there, and then the sender is debited the amount and
  -- the price of the gas, and its nonce raised.
  pub apply_transaction-transfer :
      (valid : IsPayable c t states)
      → Fits states
      → IsTransaction t
      → t.sender ≢ 0
      → t.recipient ≢ 0
      → Taken
      → gas_of t ≤ t.gas_limit
      → apply_transaction c x t states ≡ (ok (gas_of t), transferred t valid.0 states)
  apply_transaction-transfer (a, e, _, _, _, cost, _) fits range s r h g =
      apply_to_transfer a s r e
      ∙ transfer_pays a e h
      ∙ pay_covered t (gas_of t) t.amount (payer t a (lookup t.recipient states)) _ g
          (payer_covered t a (lookup t.recipient states) _ (λ same. rw same e)
            (gas_cost_le (gas_of t) t.gas_limit t.gas_price t.amount a.balance (is_deployment t) g
              cost))
          (payer_fits t a (lookup t.recipient states) range.amount_fits (fits t.sender a e) h)
