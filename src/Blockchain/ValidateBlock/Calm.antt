-- ===== src/Blockchain/ValidateBlock/Calm.antt =====
-- blockchain/validation.go: the check of a block of transfers does not panic.
use august.Base.{
  ℕ, ◌+◌, ◌^◌, ◌<◌, ◌≡◌, ◌≢◌, refl, ap, ◌∙◌, true, false, Option, none, some, List, [], ◌∷◌, ◌==◌,
  ltb, arith, Bool-cases, inl, inr,
}
use august.Base.Dict.{lookup, insert, nat_eq}
use august.Config.{u64_mod}
use august.Blockchain.Primitives.{Crypto}
use august.Blockchain.Account.{AccountState, States, supply}
use august.Blockchain.Account.Supply.{balance-le-supply}
use august.Blockchain.Executor.{ContractExecutor}
use august.Blockchain.Transaction.{Transaction, IsTransaction}
use august.Blockchain.Validate.{TxError, validate_transaction}
use august.Blockchain.Validate.Spec.{validate_transaction_iff}
use august.Blockchain.Apply.{Applied, ok, err, panic, pay, apply_transaction}
use august.Blockchain.Apply.Transfer.{
  gas_of, payer, with_amount, apply_to_transfer, transfer_pays, apply_transaction-transfer,
}
use august.Blockchain.Apply.Unpaid.{balance_of, coinbase_mints, coinbase_exact}
use august.Blockchain.Block.{Block, Chain}
use august.Blockchain.ValidateBlock.{
  World, Executed, all_applied, refused, crashes, next_round, if_valid, run_transactions, Validated,
  crashed, Verdict, good, bad, panics, if_good, check_totals, copy_states, validate_structure,
  validate_block,
}
use august.Blockchain.ValidateBlock.Loop.{
  NoCode, IsTransfer, AllTransfers, NoCode-insert, supply-Fits, takes, credited_no_code, not_zero,
  one_transfer, supply-copy_states, copy_states-NoCode,
}
use august.Blockchain.ValidateBlock.Reward.{balance_of-le-supply}

pay_over_limit :
    (t : Transaction) (gas cost : ℕ) (a : AccountState) (states : States)
    → ltb t.gas_limit gas ≡ true
    → (pay t gas cost a false states).0 ≢ panic
unfolding pay
pay_over_limit t gas cost a states over = rw over (λ e. cc)

ok_calm : (u : ℕ) → ok u ≢ panic
ok_calm u e = cc

module _ (c : Crypto) (x : Option ContractExecutor) (t : Transaction) (states : States) where
  transfer_calm :
      IsTransfer t
      → NoCode states
      → supply states < 2 ^ 63
      → validate_transaction c t states ≡ none
      → (apply_transaction c x t states).0 ≢ panic
  transfer_calm (range, s, r) n b v =
      let fits = supply-Fits states b in
      let payable = (validate_transaction_iff c t states range fits s).0 v in
      let (a, e, _, _, _, cost, _) = payable in
      let h =
        takes t states n b (omega (arith, balance-le-supply t.sender a states e))
          (lookup t.recipient states) refl in
      elim (Bool-cases (ltb t.gas_limit (gas_of t))) [
        | inl over ↦
            rw (apply_to_transfer c x t states a s r e ∙ transfer_pays c x t states a e h)
              (pay_over_limit t (gas_of t) t.amount (payer t a (lookup t.recipient states)) _ over)
        | inr within ↦
            rw (apply_transaction-transfer c x t states payable fits range s r h (ground arith))
              (ok_calm (gas_of t))
      ]

module _ (w : World) where
  after_calm :
      (t : Transaction) (ts : List Transaction) (states : States) (gas fees : ℕ)
      → IsTransfer t
      → NoCode states
      → supply states < 2 ^ 63
      → ((s : States) (g f : ℕ)
          → NoCode s
          → supply s < 2 ^ 63
          → run_transactions w ts s g f ≢ crashes)
      → validate_transaction w.crypto t states ≡ none
      → (r : Applied × States) → apply_transaction w.crypto w.executor t states ≡ r
      → next_round (run_transactions w ts) t gas fees r ≢ crashes
  after_calm t ts states gas fees tr n b next v (panic, s) e h =
      transfer_calm w.crypto w.executor t states tr n b v (ap (λ (q : Applied × States). q.0) e)
  after_calm t ts states gas fees tr n b next v (err g x, s) e h = absurd (cc)
  after_calm t ts states gas fees tr n b next v (ok used, s) e h =
      let (n', same) = one_transfer w.crypto w.executor t states tr n b v e in
      let sent : (t.sender == 0) ≡ false = not_zero t.sender tr.1 in
      next s _ _ n' (omega (arith, same)) (rw sent at h)

  if_valid_calm :
      (v : Option TxError) (r : Executed) → (v ≡ none → r ≢ crashes) → if_valid v r ≢ crashes
  if_valid_calm none r calm h = calm refl h
  if_valid_calm (some e) r calm h = absurd (cc)

  run_calm :
      (ts : List Transaction) (states : States) (gas fees : ℕ)
      → AllTransfers ts
      → NoCode states
      → supply states < 2 ^ 63
      → run_transactions w ts states gas fees ≢ crashes
  unfolding run_transactions
  run_calm [] states gas fees all n b h = absurd (cc)
  run_calm (t ∷ ts) states gas fees (first, all) n b h =
      if_valid_calm (validate_transaction w.crypto t states) _
        (λ v.
          after_calm t ts states gas fees first n b (λ s g f n' b'. run_calm ts s g f all n' b') v
            (apply_transaction w.crypto w.executor t states) refl)
        h

  coinbase_calm :
      (coinbase : Transaction) (ts : List Transaction) (states : States)
      → IsTransaction coinbase
      → coinbase.sender ≡ 0
      → AllTransfers ts
      → NoCode states
      → supply states + coinbase.amount < 2 ^ 63
      → run_transactions w (coinbase ∷ ts) states 0 0 ≢ crashes
  unfolding run_transactions
  coinbase_calm coinbase ts states range s all n h =
      let o = lookup coinbase.recipient states in
      let room : balance_of o + coinbase.amount < u64_mod =
        omega (arith, balance_of-le-supply coinbase.recipient o states refl) in
      let (v, _, mint) = coinbase_mints w.crypto w.executor coinbase states range s room in
      let exact = coinbase_exact w.crypto w.executor coinbase states s room in
      let minted = insert coinbase.recipient (with_amount coinbase o) states in
      let total : supply minted ≡ supply states + coinbase.amount = rw exact at mint in
      let safe = takes coinbase states n (omega arith) (omega arith) o refl in
      let nobody : (coinbase.sender == 0) ≡ true = ground arith in
      rw (v, exact, nobody)
        (run_calm ts minted 0 0 all
          (NoCode-insert coinbase.recipient _ states n (credited_no_code coinbase o safe))
          (omega (arith, total)))

  totals_calm :
      (b : Block) (coinbase : Transaction) (ts : List Transaction) (r : Executed)
      → b.transactions ≡ coinbase ∷ ts
      → r ≢ crashes
      → check_totals w b r ≢ crashed
  totals_calm b coinbase ts crashes e calm h = calm refl
  totals_calm b coinbase ts (refused x) e calm h = absurd (cc)
  totals_calm b coinbase ts (all_applied s gas fees) e calm h = let h' = rw e at h in ground arith

  if_good_calm : (v : Verdict) (r : Validated) → v ≢ panics → r ≢ crashed → if_good v r ≢ crashed
  if_good_calm good r structure rest h = rest h
  if_good_calm (bad e) r structure rest h = absurd (cc)
  if_good_calm panics r structure rest h = structure refl

  -- ValidateBlock does not panic on a block whose first transaction has no sender and whose
  -- others are transfers, where the check of the block's structure does not panic, no account
  -- holds code, and the sum of all balances with the first transaction's amount is below 2 ^ 63.
  pub validate_block-calm :
      (b : Block) (chain : Chain) (coinbase : Transaction) (ts : List Transaction)
      → validate_structure w b chain ≢ panics
      → b.transactions ≡ coinbase ∷ ts
      → IsTransaction coinbase
      → coinbase.sender ≡ 0
      → AllTransfers ts
      → NoCode chain.account_states
      → supply chain.account_states + coinbase.amount < 2 ^ 63
      → validate_block w b chain ≢ crashed
  unfolding validate_block
  validate_block-calm b chain coinbase ts structure e range s all n room =
      let start = copy_states chain.account_states in
      let same = supply-copy_states chain.account_states in
      if_good_calm (validate_structure w b chain) _ structure (
        totals_calm b coinbase ts (run_transactions w b.transactions start 0 0) e (
          rw e (
            coinbase_calm coinbase ts start range s all (copy_states-NoCode chain.account_states n)
              (omega (arith, same)))))
