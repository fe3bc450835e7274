-- ===== src/Blockchain/Validate/Spec.antt =====
-- blockchain/validation.go: `ValidateTransaction` against what it is to mean, over numbers without
-- bounds.
use august.Base.{
  ℕ, ◌+◌, ◌*◌, ◌/◌, ◌%◌, ◌≤◌, ◌<◌, ◌≡◌, ◌≢◌, ◌↔◌, refl, Bool, true, false, Option, none, some, ltb,
  if◌then◌else◌, arith, Bool-cases, inl, inr, not,
}
use august.Base.Dict.{lookup, nat_eq}
use august.Config.{u64_mod, contract_deployment_fee}
use august.Utils.SafeMath.{safe_add, amount_in_range}
use august.Blockchain.Primitives.{Crypto}
use august.Blockchain.Account.{AccountState, States}
use august.Blockchain.Transaction.{Transaction, IsTransaction, get_hash, is_deployment}
use august.Blockchain.Validate.{
  max_gas_cost, gas_cost_overflows, total_cost, validate_transaction, check_sender,
}

-- The fee that a deployment pays.
abbrev pub fee_of : Bool → ℕ
fee_of true = contract_deployment_fee
fee_of false = 0

-- The most that a transaction can cost, with no bound on the numbers.
abbrev pub full_cost : Transaction → ℕ
full_cost t = t.amount + t.gas_limit * t.gas_price + fee_of (is_deployment t)

product_fits : (g p : ℕ) → 0 < g → (g * p % u64_mod) / g ≡ p → g * p < u64_mod
product_fits g p h e = grind arith

product_exact : (g p : ℕ) → 0 < g → g * p < u64_mod → (g * p % u64_mod) / g ≡ p
product_exact g p h e = grind arith

-- The check of the product by a division finds exactly the products that do not fit.
pub gas_cost_overflows_lem :
    (t : Transaction)
    → 0 < t.gas_limit
    → gas_cost_overflows t ≡ not (ltb (t.gas_limit * t.gas_price) u64_mod)
unfolding gas_cost_overflows max_gas_cost
gas_cost_overflows_lem t h =
    ground (arith, product_fits t.gas_limit t.gas_price h, product_exact t.gas_limit t.gas_price h)

-- Without overflow of the product, the checked total is the full cost, or it does not fit.
total_cost_lem :
    (t : Transaction)
    → t.amount < u64_mod
    → t.gas_limit * t.gas_price < u64_mod
    → total_cost t ≡ (if ltb (full_cost t) u64_mod then some (full_cost t) else none)
unfolding total_cost max_gas_cost safe_add
total_cost_lem t ha hg = elim (Bool-cases (is_deployment t)) [
  | inl d ↦ rw d (ground arith)
  | inr n ↦ rw n (ground arith)
]

-- What a transaction with a sender has to meet.
abbrev pub IsPayable : Crypto → Transaction → States → Type 0
IsPayable c t states =
    (a : AccountState) × (lookup t.sender states ≡ some a)
    × (0 < t.gas_limit)
    × (0 < t.gas_price)
    × (c.verify t.sender (get_hash c t) t.signature ≡ true)
    × (full_cost t ≤ a.balance)
    × (t.nonce ≡ (a.nonce + 1) % u64_mod)

-- The accounts hold `uint64` balances.
abbrev pub Fits : States → Type 0
Fits states = (k : ℕ) (a : AccountState) → lookup k states ≡ some a → a.balance < u64_mod

-- The checks on the sender's account.
check_sender_sound :
    (t : Transaction) (a : AccountState)
    → 0 < t.gas_limit
    → t.amount < u64_mod
    → check_sender t (some a) ≡ none
    → (full_cost t ≤ a.balance) × (t.nonce ≡ (a.nonce + 1) % u64_mod)
check_sender_sound t a h ha e = ground (arith, gas_cost_overflows_lem t h, total_cost_lem t ha)

check_sender_complete :
    (t : Transaction) (a : AccountState)
    → 0 < t.gas_limit
    → t.amount < u64_mod
    → a.balance < u64_mod
    → full_cost t ≤ a.balance
    → t.nonce ≡ (a.nonce + 1) % u64_mod
    → check_sender t (some a) ≡ none
check_sender_complete t a h ha hb cost nonce =
    ground (arith, gas_cost_overflows_lem t h, total_cost_lem t ha)

module _ (c : Crypto) (t : Transaction) (states : States) (range : IsTransaction t) where
  validate_sound :
      t.sender ≢ 0
      → validate_transaction c t states ≡ none
      → (o : Option AccountState) → lookup t.sender states ≡ o
      → IsPayable c t states
  unfolding validate_transaction amount_in_range
  validate_sound ne v none e = absurd (ground arith)
  validate_sound ne v (some a) e =
      let gl : 0 < t.gas_limit = ground arith in
      let checks : check_sender t (lookup t.sender states) ≡ none = ground arith in
      let (cost, nonce) = check_sender_sound t a gl range.amount_fits (rw e at checks) in
      (a, e, gl, ground arith, ground arith, cost, nonce)

  validate_complete : Fits states → IsPayable c t states → validate_transaction c t states ≡ none
  unfolding validate_transaction amount_in_range
  validate_complete fits (a, e, gl, gp, sig, cost, nonce) = rw e (
      ground (arith, check_sender_complete t a gl range.amount_fits (fits t.sender a e) cost nonce))

  -- A transaction with a sender is valid exactly when the sender's account exists, both gas fields
  -- are positive, the signature verifies, the nonce is the account's next one, and the balance
  -- covers the amount, the gas at its limit and the fee of a deployment, with no wrap-around.
  pub validate_transaction_iff :
      Fits states → t.sender ≢ 0 → (validate_transaction c t states ≡ none) ↔ IsPayable c t states
  validate_transaction_iff fits ne =
      (λ v. validate_sound ne v (lookup t.sender states) refl, validate_complete fits)
