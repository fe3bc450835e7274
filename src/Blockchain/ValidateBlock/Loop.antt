-- ===== src/Blockchain/ValidateBlock/Loop.antt =====
-- blockchain/validation.go: the loop of a block over transfers, and what a valid block has passed.
use august.Base.{
  ℕ, ◌+◌, ◌*◌, ◌%◌, ◌^◌, ◌≤◌, ◌<◌, ◌≡◌, ◌≢◌, refl, false, Option, none, some, List, [], ◌∷◌, ◌==◌,
  ◌∙◌, sym, arith, Bool-cases, inl, inr,
}
use august.Base.Dict.{lookup, insert, nat_eq, lookup-insert}
use august.Config.{u64_mod, block_reward}
use august.Blockchain.Primitives.{Crypto}
use august.Blockchain.Account.{AccountState, States, supply}
use august.Blockchain.Account.Supply.{balance-le-supply}
use august.Blockchain.Transaction.{Transaction, IsTransaction, has_code, is_deployment}
use august.Blockchain.Validate.{validate_transaction}
use august.Blockchain.Validate.Spec.{Fits, validate_transaction_iff}
use august.Blockchain.Executor.{ContractExecutor}
use august.Blockchain.Apply.{Applied, ok, err, panic, apply_transaction}
use august.Blockchain.Apply.Pay.{pay_inversion}
use august.Blockchain.Apply.Transfer.{
  Takes, gas_of, transferred, apply_to_transfer, transfer_pays, apply_transaction-transfer, payer,
  with_amount, gas_cost_le,
}
use august.Blockchain.Apply.Transfer.Effects.{supply-transferred}
use august.Blockchain.Block.{Block, Chain}
use august.Blockchain.ValidateBlock.{
  World, Executed, all_applied, refused, crashes, next_round, run_transactions, Validated, valid,
  validate_block, check_totals, is_genesis, copy_states, copied, Verdict, good, bad, panics,
  if_good, validate_structure,
}

-- No account holds a contract.
abbrev pub NoCode : States → Type 0
NoCode states =
    (k : ℕ) (a : AccountState) → lookup k states ≡ some a → has_code a.instructions ≡ false

-- A transfer: from somebody, to somebody.
abbrev pub IsTransfer : Transaction → Type 0
IsTransfer t = IsTransaction t × (t.sender ≢ 0) × (t.recipient ≢ 0)

abbrev pub AllTransfers : List Transaction → Type 0
AllTransfers [] = Unit {0}
AllTransfers (t ∷ ts) = IsTransfer t × AllTransfers ts

pub NoCode-insert :
    (k : ℕ) (a : AccountState) (states : States)
    → NoCode states
    → has_code a.instructions ≡ false
    → NoCode (insert k a states)
NoCode-insert k a states h n j b e = ground (arith, lookup-insert k j a states, h j b)

pub supply-Fits : (states : States) → supply states < 2 ^ 63 → Fits states
supply-Fits states h k a e = omega (arith, balance-le-supply k a states e)

pub takes :
    (t : Transaction) (states : States)
    → NoCode states
    → supply states < 2 ^ 63
    → t.amount < 2 ^ 63
    → (o : Option AccountState) → lookup t.recipient states ≡ o
    → Takes t o
takes t states n h a none e = tt
takes t states n h a (some b) e =
    (n t.recipient b e, omega (arith, balance-le-supply t.recipient b states e))

pub payer_no_code :
    (t : Transaction) (a : AccountState) (o : Option AccountState)
    → has_code a.instructions ≡ false
    → Takes t o
    → has_code (payer t a o).instructions ≡ false
payer_no_code t a none h k = ground arith
payer_no_code t a (some b) h k = ground arith

pub credited_no_code :
    (t : Transaction) (o : Option AccountState)
    → Takes t o
    → has_code (with_amount t o).instructions ≡ false
credited_no_code t none h = refl
credited_no_code t (some b) h = h.0

transferred-NoCode :
    (t : Transaction) (a : AccountState) (states : States)
    → lookup t.sender states ≡ some a
    → NoCode states
    → Takes t (lookup t.recipient states)
    → NoCode (transferred t a states)
transferred-NoCode t a states e n h =
    NoCode-insert t.sender _ _
      (NoCode-insert t.recipient _ states n (credited_no_code t (lookup t.recipient states) h))
      (payer_no_code t a (lookup t.recipient states) (n t.sender a e) h)

pub not_zero : (n : ℕ) → n ≢ 0 → (n == 0) ≡ false
not_zero n h = ground arith

ok_parts :
    (u u' : ℕ) (s s' : States)
    → ◌≡◌ {A = Applied × States} (ok u, s) (ok u', s')
    → (u ≡ u') × (s ≡ s')
ok_parts u u' s s' e = ground arith

module _ (c : Crypto) (x : Option ContractExecutor) (t : Transaction) (states : States) where
  gas_within :
      (a : AccountState) {used : ℕ} {after : States}
      → IsTransfer t
      → lookup t.sender states ≡ some a
      → Takes t (lookup t.recipient states)
      → apply_transaction c x t states ≡ (ok used, after)
      → gas_of t ≤ t.gas_limit
  gas_within a (range, s, r) e h p =
      (pay_inversion t (gas_of t) t.amount (payer t a (lookup t.recipient states)) _
        (sym (apply_to_transfer c x t states a s r e ∙ transfer_pays c x t states a e h) ∙ p)).1

  pub one_transfer :
      {used : ℕ} {after : States}
      → IsTransfer t
      → NoCode states
      → supply states < 2 ^ 63
      → validate_transaction c t states ≡ none
      → apply_transaction c x t states ≡ (ok used, after)
      → NoCode after × (supply after + used * t.gas_price ≡ supply states)
  one_transfer (range, s, r) n b v p =
      let fits = supply-Fits states b in
      let payable = (validate_transaction_iff c t states range fits s).0 v in
      let (a, e, _, _, _, cost, _) = payable in
      let h =
        takes t states n b (omega (arith, balance-le-supply t.sender a states e))
          (lookup t.recipient states) refl in
      let g = gas_within a (range, s, r) e h p in
      let exact = apply_transaction-transfer c x t states payable fits range s r h g in
      let (same_gas, same_states) = ok_parts _ _ _ _ (sym p ∙ exact) in
      rw (same_gas, same_states)
        (
          transferred-NoCode t a states e n h,
          supply-transferred t a states e (
              gas_cost_le (gas_of t) t.gas_limit t.gas_price t.amount a.balance (is_deployment t) g
                cost),
        )

-- The loop over transfers: what they take out of the accounts is in the fees.
after_valid :
    (w : World) (t : Transaction) (ts : List Transaction) (states : States) (gas fees : ℕ)
    {after : States} {gas' fees' : ℕ}
    → IsTransfer t
    → NoCode states
    → supply states + fees < 2 ^ 63
    → ((s : States) (g f : ℕ)
        → NoCode s
        → supply s + f < 2 ^ 63
        → run_transactions w ts s g f ≡ all_applied after gas' fees'
        → supply after + fees' ≡ supply s + f)
    → validate_transaction w.crypto t states ≡ none
    → (r : Applied × States) → apply_transaction w.crypto w.executor t states ≡ r
    → next_round (run_transactions w ts) t gas fees r ≡ all_applied after gas' fees'
    → supply after + fees' ≡ supply states + fees
after_valid w t ts states gas fees tr n b next v (panic, s) e h = absurd (cc)
after_valid w t ts states gas fees tr n b next v (err g x, s) e h = absurd (cc)
after_valid w t ts states gas fees tr n b next v (ok used, s) e h =
    let (n', c) = one_transfer w.crypto w.executor t states tr n (omega arith) v e in
    let sent : (t.sender == 0) ≡ false = not_zero t.sender tr.1 in
    let f = (fees + used * t.gas_price % u64_mod) % u64_mod in
    omega (arith, c, next s ((gas + used) % u64_mod) f n' (omega (arith, c)) (rw sent at h))

-- The loop over transfers: what they take out of the accounts is in the fees.
pub loop_conserves :
    (w : World) (ts : List Transaction) (states : States) (gas fees : ℕ) {after : States}
    {gas' fees' : ℕ}
    → AllTransfers ts
    → NoCode states
    → supply states + fees < 2 ^ 63
    → run_transactions w ts states gas fees ≡ all_applied after gas' fees'
    → supply after + fees' ≡ supply states + fees
unfolding run_transactions
loop_conserves w [] states gas fees all n b h = ground arith
loop_conserves w (t ∷ ts) states gas fees (tr, all) n b h =
    let v : validate_transaction w.crypto t states ≡ none = ground arith in
    after_valid w t ts states gas fees tr n b
      (λ s g f n' b' h'. loop_conserves w ts s g f all n' b' h') v
      (apply_transaction w.crypto w.executor t states) refl (rw v at h)

pub supply-copy_states : (states : States) → supply (copy_states states) ≡ supply states
unfolding copy_states supply
supply-copy_states [] = refl
supply-copy_states ((k, a) ∷ rest) = omega (arith, supply-copy_states rest)

copied_same :
    (a b : AccountState)
    → ◌≡◌ {A = Option AccountState} (some (copied a)) (some b)
    → b.instructions ≡ a.instructions
copied_same a b e = ground arith

copied_account :
    (k : ℕ) (states : States) (b : AccountState)
    → lookup k (copy_states states) ≡ some b
    → (a : AccountState) × (lookup k states ≡ some a) × (b.instructions ≡ a.instructions)
unfolding copy_states lookup
copied_account k [] b e = absurd (cc)
copied_account k ((j, a) ∷ rest) b e = elim (Bool-cases (j == k)) [
  | inl here ↦ (a, rw here, copied_same a b (rw here at e))
  | inr there ↦ rw there (copied_account k rest b (rw there at e))
]

pub copy_states-NoCode : (states : States) → NoCode states → NoCode (copy_states states)
copy_states-NoCode states n k b e =
    let (a, e', same) = copied_account k states b e in rw same (n k a e')

-- The totals of a block that is not the genesis block, where they are right.
pub totals_inversion :
    (w : World) (b : Block) (coinbase : Transaction) (ts : List Transaction) (r : Executed)
    {after : States}
    → is_genesis w b ≡ false
    → b.transactions ≡ coinbase ∷ ts
    → check_totals w b r ≡ valid after
    → (gas : ℕ) × (fees : ℕ) × (r ≡ all_applied after gas fees)
      × (coinbase.amount ≡ (fees + block_reward) % u64_mod)
totals_inversion w b coinbase ts crashes g e h = absurd (cc)
totals_inversion w b coinbase ts (refused x) g e h = absurd (cc)
totals_inversion w b coinbase ts (all_applied s gas fees) g e h =
    let h' = rw (g, e) at h in (gas, fees, ground arith, ground arith)

good_inversion :
    (v : Verdict) (next : Validated) {after : States}
    → if_good v next ≡ valid after
    → next ≡ valid after
good_inversion good next h = h
good_inversion (bad e) next h = absurd (cc)
good_inversion panics next h = absurd (cc)

pub validate_inversion :
    (w : World) (b : Block) (chain : Chain) {after : States}
    → validate_block w b chain ≡ valid after
    → check_totals w b (run_transactions w b.transactions (copy_states chain.account_states) 0 0)
      ≡ valid after
unfolding validate_block
validate_inversion w b chain h = good_inversion (validate_structure w b chain) _ h
