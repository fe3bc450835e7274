-- ===== src/Blockchain/Apply/Transfer/Effects.antt =====
-- blockchain/validation.go: what a transfer does to the accounts, all together and one by one.
use august.Base.{ℕ, ◌+◌, ◌*◌, ◌%◌, ◌≤◌, ◌≡◌, ◌≢◌, refl, Option, none, some, arith, ◌∙◌, sym}
use august.Base.Dict.{lookup, insert, nat_eq, lookup-insert, lookup-insert_ne, lookup-insert_self}
use august.Config.{u64_mod}
use august.Blockchain.Primitives.{Crypto}
use august.Blockchain.Account.{AccountState, States, new_account, supply}
use august.Blockchain.Account.Supply.{supply-insert, supply-insert_new}
use august.Blockchain.Transaction.{Transaction, IsTransaction, is_deployment}
use august.Blockchain.Validate.Spec.{IsPayable, Fits}
use august.Blockchain.Executor.{ContractExecutor}
use august.Blockchain.Apply.{ok, apply_transaction}
use august.Blockchain.Apply.Transfer.{
  Takes, with_amount, gas_of, payer, paid, transferred, payer_covered, gas_cost_le,
  apply_transaction-transfer,
}

lookup-payer :
    (t : Transaction) (a : AccountState) (o : Option AccountState) (states : States)
    → lookup t.sender states ≡ some a
    → lookup t.sender (insert t.recipient (with_amount t o) states) ≡ some (payer t a o)
lookup-payer t a o states e =
    ground (arith, lookup-insert t.recipient t.sender (with_amount t o) states)

supply-credit :
    (t : Transaction) (o : Option AccountState) (states : States)
    → lookup t.recipient states ≡ o
    → supply (insert t.recipient (with_amount t o) states) ≡ supply states + t.amount
supply-credit t none states e =
    supply-insert_new t.recipient (new_account t.recipient t.amount) states e
supply-credit t (some b) states e =
    omega
      (arith, supply-insert t.recipient (record b { balance = b.balance + t.amount }) b states e)

-- The payment takes the amount and the price of the gas out of the sum.
pub supply-transferred :
    (t : Transaction) (a : AccountState) (states : States)
    → lookup t.sender states ≡ some a
    → t.amount + gas_of t * t.gas_price ≤ a.balance
    → supply (transferred t a states) + gas_of t * t.gas_price ≡ supply states
supply-transferred t a states e h =
    let o = lookup t.recipient states in
    let p = payer t a o in
    let covered : t.amount + gas_of t * t.gas_price ≤ p.balance =
      payer_covered t a o _ (λ same. rw same e) h in
    omega (
      arith,
      covered,
      supply-credit t o states refl,
      supply-insert t.sender (paid t (gas_of t) p) p (insert t.recipient (with_amount t o) states)
          (lookup-payer t a o states e),
    )

payer_nonce :
    (t : Transaction) (a : AccountState) (o : Option AccountState)
    → (t.recipient ≡ t.sender → o ≡ some a)
    → (payer t a o).nonce ≡ a.nonce
payer_nonce t a none same = ground (arith, same)
payer_nonce t a (some b) same = ground (arith, same)

sender_after :
    (t : Transaction) (a : AccountState) (states : States)
    → lookup t.sender states ≡ some a
    → (b : AccountState) × (lookup t.sender (transferred t a states) ≡ some b)
      × (b.nonce ≡ (a.nonce + 1) % u64_mod)
sender_after t a states e =
    let o = lookup t.recipient states in
    (
      paid t (gas_of t) (payer t a o),
      lookup-insert_self t.sender _ _,
      rw (payer_nonce t a o (λ same. rw same e)) refl,
    )

same_nonce :
    (o : Option AccountState) (a b : AccountState) → o ≡ some a → o ≡ some b → a.nonce ≡ b.nonce
same_nonce o a b p q = ground arith

-- A nonce is not its own next one.
stale : (n m : ℕ) → n ≡ (m + 1) % u64_mod → n ≡ m → ⊥
stale n m h e = omega arith

payer_other :
    (t : Transaction) (a : AccountState) (o : Option AccountState)
    → t.sender ≢ t.recipient
    → payer t a o ≡ a
payer_other t a o ne = ground arith

transferred_lookups :
    (t : Transaction) (a : AccountState) (states : States)
    → t.sender ≢ t.recipient
    → (lookup t.sender (transferred t a states) ≡ some (paid t (gas_of t) a))
      × (lookup t.recipient (transferred t a states)
          ≡ some (with_amount t (lookup t.recipient states)))
      × ((k : ℕ)
          → k ≢ t.sender
          → k ≢ t.recipient
          → lookup k (transferred t a states) ≡ lookup k states)
transferred_lookups t a states ne = rw (payer_other t a (lookup t.recipient states) ne) (
  lookup-insert_self t.sender _ _,
  lookup-insert_ne t.sender t.recipient _ _ ne ∙ lookup-insert_self t.recipient _ _,
  λ k s r.
      lookup-insert_ne t.sender k _ _ (λ e. s (sym e))
      ∙ lookup-insert_ne t.recipient k _ _ (λ e. r (sym e)),
)

module _ (c : Crypto) (x : Option ContractExecutor) (t : Transaction) (states : States) where
  -- A valid transfer, whose gas is within its limit, to an account that is new or has no code and
  -- room for the amount, where all balances are below 2 ^ 64, goes through; it takes the price of
  -- the gas out of the sum of all balances and nothing else, also where the sender and the
  -- recipient are one account.
  pub transfer_conserves :
      IsPayable c t states
      → Fits states
      → IsTransaction t
      → t.sender ≢ 0
      → t.recipient ≢ 0
      → Takes t (lookup t.recipient states)
      → gas_of t ≤ t.gas_limit
      → let (r, after) = apply_transaction c x t states in
        (r ≡ ok (gas_of t)) × (supply after + gas_of t * t.gas_price ≡ supply states)
  transfer_conserves valid fits range s r h g =
      let (a, e, _, _, _, cost, _) = valid in
      let covered =
        gas_cost_le (gas_of t) t.gas_limit t.gas_price t.amount a.balance (is_deployment t) g
          cost in
      rw (apply_transaction-transfer c x t states valid fits range s r h g)
        (refl, supply-transferred t a states e covered)

  -- A valid transfer, whose gas is within its limit, between two accounts of which the
  -- recipient's is new or has no code and room for the amount, where all balances are below 2 ^
  -- 64, moves the amount from one to the other; the sender also pays the gas and its nonce goes
  -- up, and no third account changes.
  pub transfer_moves :
      (valid : IsPayable c t states)
      → Fits states
      → IsTransaction t
      → t.sender ≢ 0
      → t.recipient ≢ 0
      → t.sender ≢ t.recipient
      → Takes t (lookup t.recipient states)
      → gas_of t ≤ t.gas_limit
      → let after = (apply_transaction c x t states).1 in
        (lookup t.sender after ≡ some (paid t (gas_of t) valid.0))
        × (lookup t.recipient after ≡ some (with_amount t (lookup t.recipient states)))
        × ((k : ℕ) → k ≢ t.sender → k ≢ t.recipient → lookup k after ≡ lookup k states)
  transfer_moves valid fits range s r ne h g =
      rw (apply_transaction-transfer c x t states valid fits range s r h g)
        (transferred_lookups t valid.0 states ne)

  -- A valid transfer, whose gas is within its limit, to an account that is new or has no code and
  -- room for the amount, where all balances are below 2 ^ 64, is not valid a second time on the
  -- accounts that it leaves.
  pub transfer_no_replay :
      IsPayable c t states
      → Fits states
      → IsTransaction t
      → t.sender ≢ 0
      → t.recipient ≢ 0
      → Takes t (lookup t.recipient states)
      → gas_of t ≤ t.gas_limit
      → ¬ IsPayable c t (apply_transaction c x t states).1
  transfer_no_replay valid fits range s r h g =
      let (a, e, _, _, _, _, nonce) = valid in
      let (b, e', nonce') = sender_after t a states e in
      rw (apply_transaction-transfer c x t states valid fits range s r h g) λ again.
        stale t.nonce again.0.nonce (again.6)
          (nonce ∙ sym nonce' ∙ same_nonce _ b again.0 e' again.1)
