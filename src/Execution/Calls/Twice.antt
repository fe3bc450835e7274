-- ===== src/Execution/Calls/Twice.antt =====
-- execution/execution.go and blockchain/validation.go together: a transaction that calls a
-- contract. `ApplyTransaction` credits the recipient, and `executeContractCall` does it again
-- through a map that shares the account.
use august.Base.{
  ℕ, ◌+◌, ◌-◌, ◌*◌, ◌%◌, ◌≤◌, ◌<◌, ◌≡◌, ◌≢◌, refl, true, false, some, arith, ◌∙◌, sym,
}
use august.Base.Dict.{lookup, insert, nat_eq, lookup-insert_ne, lookup-insert_self}
use august.Config.{u64_mod}
use august.Utils.SafeMath.{safe_add_fits}
use august.Blockchain.Primitives.{Crypto}
use august.Blockchain.Account.{AccountState, States, supply}
use august.Blockchain.Account.Supply.{supply-insert}
use august.Blockchain.Transaction.{Transaction, IsTransaction, has_code}
use august.Blockchain.Executor.{Execution, executed, failed, crashed}
use august.Blockchain.Apply.{
  ok, pay, debited, transfer, apply_transaction, pay_transfer, settle_call, block_context,
}
use august.Blockchain.Apply.Pay.{pay_inversion}
use august.Blockchain.Apply.Transfer.{gas_of, apply_to_transfer}
use august.Execution.{execute_transaction, executor_impl}
use august.Execution.Calls.{Credits, execute_transaction-Credits}

-- The accounts after the first credit.
abbrev once : Transaction → AccountState → AccountState
once t b = record b { balance = b.balance + t.amount }

-- The contract's balance has grown by twice the amount, and the sum of all balances, less the
-- price of the gas, by the amount.
abbrev pub CreditedTwice : Transaction → AccountState → States → ℕ → States → Type 0
CreditedTwice t b states used after =
    (supply after + used * t.gas_price ≡ supply states + t.amount)
    × (b' : AccountState) × (lookup t.recipient after ≡ some b')
    × (b'.balance ≡ b.balance + t.amount + t.amount)

gas_exact :
    (g l p amount balance : ℕ)
    → g ≤ l
    → amount + l * p ≤ balance
    → balance < u64_mod
    → g * p % u64_mod ≡ g * p
gas_exact g l p amount balance h k b = grind arith

module _ (t : Transaction) (states : States) (a b : AccountState) where
  paid_twice :
      (s₂ : States) (b₂ : AccountState) (gas : ℕ) {used : ℕ} {after : States}
      → lookup t.sender s₂ ≡ some a
      → t.sender ≢ t.recipient
      → t.amount + t.gas_limit * t.gas_price ≤ a.balance
      → a.balance < u64_mod
      → supply s₂ ≡ supply states + t.amount + t.amount
      → lookup t.recipient s₂ ≡ some b₂
      → b₂.balance ≡ b.balance + t.amount + t.amount
      → pay t gas t.amount a false s₂ ≡ (ok used, after)
      → CreditedTwice t b states used after
  paid_twice s₂ b₂ gas es ne cover fits sup eb bal h =
      let (u, limit, covered, final) = pay_inversion t gas t.amount a s₂ h in
      let exact = gas_exact gas t.gas_limit t.gas_price t.amount a.balance limit cover fits in
      let n = a.balance - (t.amount + gas * t.gas_price % u64_mod) in
      rw (final, u)
        (
          omega (arith, sup, exact, covered, supply-insert t.sender (debited a n) a s₂ es),
          b₂,
          lookup-insert_ne t.sender t.recipient _ _ ne ∙ eb,
          bal,
        )

  settled_twice :
      (b₁ : AccountState) (s₁ : States) (r : Execution × States) (gas : ℕ) {used : ℕ}
      {after : States}
      → lookup t.sender s₁ ≡ some a
      → t.sender ≢ t.recipient
      → t.amount + t.gas_limit * t.gas_price ≤ a.balance
      → a.balance < u64_mod
      → supply s₁ ≡ supply states + t.amount
      → b₁.balance ≡ b.balance + t.amount
      → Credits t t.gas_limit b₁ s₁ r
      → pay_transfer t a states (settle_call gas s₁ r) ≡ (ok used, after)
      → CreditedTwice t b states used after
  settled_twice b₁ s₁ (executed extra, s₂) gas es ne cover fits sup bal
        (_, sup₂, others, b₂, eb, bal₂) h =
      let es₂ = others t.sender ne ∙ es in
      paid_twice s₂ b₂ ((gas + extra) % u64_mod) es₂ ne cover fits (omega arith) eb (omega arith)
        (rw es₂ at h)
  settled_twice b₁ s₁ (failed extra, s₂) gas es ne cover fits sup bal c h = absurd c
  settled_twice b₁ s₁ (crashed, s₂) gas es ne cover fits sup bal c h = absurd (cc)

  -- Where ApplyTransaction with the executor applies without an error a transaction with a sender
  -- and a recipient, without code and of a gas limit above 0, from an account that covers the
  -- amount and the gas at its limit to another account, which holds a contract and has room for
  -- the amount twice, the contract's balance grows by twice the amount, and the sum of all
  -- balances, with the price of the gas, grows by the amount.
  pub call_credits_twice :
      (c : Crypto) (max_alloc : ℕ) {used : ℕ} {after : States}
      → IsTransaction t
      → lookup t.sender states ≡ some a
      → lookup t.recipient states ≡ some b
      → t.sender ≢ 0
      → t.recipient ≢ 0
      → t.sender ≢ t.recipient
      → 0 < t.gas_limit
      → t.amount + t.gas_limit * t.gas_price ≤ a.balance
      → a.balance < u64_mod
      → b.balance + t.amount + t.amount < u64_mod
      → has_code t.instructions ≡ false
      → has_code b.instructions ≡ true
      → apply_transaction c (some (executor_impl c max_alloc)) t states ≡ (ok used, after)
      → CreditedTwice t b states used after
  unfolding transfer executor_impl
  call_credits_twice c max_alloc range es eb s r ne gas cover fits room no_code code h =
      let h' = sym (apply_to_transfer c (some (executor_impl c max_alloc)) t states a s r es) ∙ h in
      let s₁ = insert t.recipient (once t b) states in
      settled_twice (once t b) s₁
        (execute_transaction c max_alloc t s₁ (block_context t t.recipient b.address)) (gas_of t)
        (lookup-insert_ne t.recipient t.sender _ _ (λ e. ne (sym e)) ∙ es) ne cover fits
        (omega (arith, supply-insert t.recipient (once t b) b states eb)) refl
        (execute_transaction-Credits c max_alloc t s₁ (block_context t t.recipient b.address)
          (once t b) no_code gas range.gas_limit_fits (lookup-insert_self t.recipient _ _) code
          (omega arith))
        (rw (eb, safe_add_fits b.balance t.amount (omega arith), code) at h')
