-- ===== src/Blockchain/ValidateBlock/Free.antt =====
-- blockchain/validation.go: the fees of transactions that nobody pays for.
use august.Base.{
  ℕ, zero, suc, ◌+◌, ◌*◌, ◌%◌, ◌<◌, ◌≡◌, ◌≢◌, refl, ◌∙◌, false, List, [], ◌∷◌, ◌==◌, arith,
}
use august.Base.Dict.{nat_eq}
use august.Config.{u64_mod, gas_transfer}
use august.Blockchain.Account.{States}
use august.Blockchain.Transaction.{Transaction, IsTransaction, has_code}
use august.Blockchain.Validate.Spec.{Fits, IsPayable, validate_transaction_iff}
use august.Blockchain.Apply.Unpaid.{unchanged}
use august.Blockchain.ValidateBlock.{World, all_applied, run_transactions}

-- One transaction many times.
abbrev pub times : ℕ → Transaction → List Transaction
times zero t = []
times (suc n) t = t ∷ times n t

sum_step :
    (n p sum : ℕ)
    → sum + suc n * p < u64_mod
    → ((sum + p % u64_mod) % u64_mod ≡ sum + p) × (sum + p + n * p ≡ sum + suc n * p)
sum_step n p sum h = (grind arith, grind arith)

module _ (w : World) (t : Transaction) (states : States) (range : IsTransaction t)
    (fits : Fits states) (sent : t.sender ≢ 0) (nowhere : t.recipient ≡ 0)
    (no_code : has_code t.instructions ≡ false) (payable : IsPayable w.crypto t states) where
  one_more :
      (n gas fees : ℕ)
      → run_transactions w (times (suc n) t) states gas fees
        ≡ run_transactions w
            (times n t)
            states
            ((gas + gas_transfer) % u64_mod)
            ((fees + gas_transfer * t.gas_price % u64_mod) % u64_mod)
  unfolding run_transactions
  one_more n gas fees =
      let valid = (validate_transaction_iff w.crypto t states range fits sent).1 payable in
      let applied =
        unchanged w.crypto w.executor t states payable.0 sent nowhere no_code payable.1 in
      let test : (t.sender == 0) ≡ false = ground arith in rw (valid, applied, test) refl

  nothing :
      (gas fees : ℕ)
      → run_transactions w [] states gas fees
        ≡ all_applied states (gas + 0 * gas_transfer) (fees + 0 * (gas_transfer * t.gas_price))
  unfolding run_transactions
  nothing gas fees =
      let none_paid : fees + 0 * (gas_transfer * t.gas_price) ≡ fees = grind arith in
      let none_used : gas + 0 * gas_transfer ≡ gas = omega arith in rw (none_used, none_paid) refl

  -- A block may have one valid transaction with a sender, but neither a recipient nor code, any
  -- number of times, where all balances are below 2 ^ 64: each time counts for the gas of a
  -- transfer, and for its price in the fees that the block's first transaction is allowed, while
  -- no account changes, as long as both sums are below 2 ^ 64.
  pub run_transactions-free :
      (n gas fees : ℕ)
      → gas + n * gas_transfer < u64_mod
      → fees + n * (gas_transfer * t.gas_price) < u64_mod
      → run_transactions w (times n t) states gas fees
        ≡ all_applied states (gas + n * gas_transfer) (fees + n * (gas_transfer * t.gas_price))
  run_transactions-free zero gas fees g f = nothing gas fees
  run_transactions-free (suc n) gas fees g f =
      let (exact_gas, gas_sum) = sum_step n gas_transfer gas g in
      let (exact_fees, fee_sum) = sum_step n (gas_transfer * t.gas_price) fees f in
      one_more n gas fees
      ∙ rw (exact_gas, exact_fees)
          (run_transactions-free n (gas + gas_transfer) (fees + gas_transfer * t.gas_price)
              (omega (arith, gas_sum)) (omega (arith, fee_sum))
            ∙ rw (gas_sum, fee_sum) refl)
