-- ===== src/Blockchain/Mining/Loops.antt =====
-- blockchain/mining.go: over transfers, the loop of `NewBlock` adds up what that of `ValidateBlock` does.
use august.Base.{
  ℕ, ◌+◌, ◌*◌, ◌%◌, ◌≤◌, ◌<◌, ◌≡◌, ◌≢◌, refl, sym, ◌∙◌, false, Option, none, some, List, [], ◌∷◌,
  ◌==◌, arith, Bool-cases, Option-cases, inl, inr, ltb,
}
use august.Base.Dict.{lookup, insert, nat_eq, lookup-insert}
use august.Config.{u64_mod}
use august.Utils.SafeMath.{safe_add}
use august.Blockchain.Primitives.{Crypto}
use august.Blockchain.Account.{AccountState, States, new_account}
use august.Blockchain.Transaction.{Transaction, has_code}
use august.Blockchain.Validate.{validate_transaction}
use august.Blockchain.Executor.{ContractExecutor}
use august.Blockchain.Apply.{
  Applied, ok, err, panic, pay, pay_transfer, subtract_from, credit, transfer, apply_transaction,
  debited,
}
use august.Blockchain.Apply.Transfer.{gas_of, apply_to_transfer}
use august.Blockchain.ValidateBlock.Loop.{NoCode, IsTransfer, AllTransfers, NoCode-insert}
use august.Blockchain.ValidateBlock.{
  World, BlockError, Executed, all_applied, refused, crashes, next_round, run_transactions,
}
use august.Blockchain.Mining.{Gathered, gathered, stopped, halted, gather_next, gather}

-- What a transfer among known accounts without code does: it panics, exceeds its limit, or uses
-- exactly its gas; no account is lost and no code appears.
abbrev pub Keeps : States → States → Type 0
Keeps before after = NoCode after × ((k : ℕ) → lookup k after ≡ none → lookup k before ≡ none)

abbrev Transfers : Transaction → States → Applied × States → Type 0
Transfers t states (panic, after) = Unit {0}
Transfers t states (err used e, after) = (t.gas_limit < gas_of t) × Keeps states after
Transfers t states (ok used, after) =
    (used ≡ gas_of t) × (gas_of t ≤ t.gas_limit) × Keeps states after

pub Keeps-insert :
    (k : ℕ) (a : AccountState) (before after : States)
    → Keeps before after
    → has_code a.instructions ≡ false
    → Keeps before (insert k a after)
Keeps-insert k a before after (plain, kept) none_here = (
  NoCode-insert k a after plain none_here,
  λ j h. ground (arith, lookup-insert k j a after, kept j),
)

pay-Transfers :
    (t : Transaction) (a : AccountState) (before after : States)
    → Keeps before after
    → has_code a.instructions ≡ false
    → Transfers t before (pay t (gas_of t) t.amount a false after)
unfolding pay
pay-Transfers t a before after k h =
    let total = subtract_from a (safe_add t.amount (gas_of t * t.gas_price % u64_mod)) in
    elim (Bool-cases (ltb t.gas_limit (gas_of t))) [
      | inl over ↦ rw over (ground arith, k)
      | inr within ↦ elim (Option-cases total) [
        | inl short ↦ rw (within, short) tt
        | inr (balance, enough) ↦
            rw (within, enough)
              (refl, ground arith, Keeps-insert t.sender (debited a balance) before after k h)
      ]
    ]

credited-Transfers :
    (t : Transaction) (a b : AccountState) (states : States)
    → lookup t.sender states ≡ some a
    → NoCode states
    → has_code b.instructions ≡ false
    → Transfers t states (pay_transfer t a states (some (gas_of t, insert t.recipient b states)))
credited-Transfers t a b states s n h =
    let after = insert t.recipient b states in
    let kept = Keeps-insert t.recipient b states states (n, λ k e. e) h in
    elim (Option-cases (lookup t.sender after)) [
      | inl gone ↦ rw gone (pay-Transfers t a states after kept (n t.sender a s))
      | inr (d, there) ↦ rw there (pay-Transfers t d states after kept (kept.0 t.sender d there))
    ]

credit-Transfers :
    (x : Option ContractExecutor) (t : Transaction) (a : AccountState) (states : States)
    (o : Option AccountState)
    → lookup t.recipient states ≡ o
    → lookup t.sender states ≡ some a
    → NoCode states
    → Transfers t states (pay_transfer t a states (credit x t (gas_of t) o states))
credit-Transfers x t a states none r s n =
    credited-Transfers t a (new_account t.recipient t.amount) states s n refl
credit-Transfers x t a states (some b) r s n = elim (Option-cases (safe_add b.balance t.amount)) [
  | inl over ↦ rw over tt
  | inr (balance, fits) ↦
      let plain = n t.recipient b r in
      rw (fits, plain) (credited-Transfers t a (record b { balance = balance }) states s n plain)
]

transfer-Transfers :
    (c : Crypto) (x : Option ContractExecutor) (t : Transaction) (states : States)
    → IsTransfer t
    → NoCode states
    → lookup t.sender states ≢ none
    → Transfers t states (apply_transaction c x t states)
unfolding transfer
transfer-Transfers c x t states (range, s, r) n known =
    elim (Option-cases (lookup t.sender states)) [
      | inl absent ↦ absurd (known absent)
      | inr (a, there) ↦
          rw (apply_to_transfer c x t states a s r there)
            (credit-Transfers x t a states (lookup t.recipient states) refl there n)
    ]

-- Every sender has an account.
abbrev pub AllKnown : List Transaction → States → Type 0
AllKnown [] states = Unit {0}
AllKnown (t ∷ ts) states = (lookup t.sender states ≢ none) × AllKnown ts states

pub AllKnown-Keeps :
    (ts : List Transaction) (before after : States)
    → Keeps before after
    → AllKnown ts before
    → AllKnown ts after
AllKnown-Keeps [] before after k h = tt
AllKnown-Keeps (t ∷ ts) before after k (h, all) =
    ((λ e. h (k.1 t.sender e)), AllKnown-Keeps ts before after k all)

-- Where neither loop gives up, they add up the same.
abbrev pub Agree : Gathered → Executed → Type 0
Agree halted r = Unit {0}
Agree (stopped e) r = Unit {0}
Agree (gathered g f) crashes = Unit {0}
Agree (gathered g f) (refused e) = Unit {0}
Agree (gathered g f) (all_applied after gas fees) = (g ≡ gas) × (f ≡ fees)

refused-Agree : (r : Gathered) (e : BlockError) → Agree r (refused e)
refused-Agree halted e = tt
refused-Agree (stopped x) e = tt
refused-Agree (gathered g f) e = tt

crashes-Agree : (r : Gathered) → Agree r crashes
crashes-Agree halted = tt
crashes-Agree (stopped x) = tt
crashes-Agree (gathered g f) = tt

pub safe_add-mod : (a b s : ℕ) → safe_add a b ≡ some s → s ≡ (a + b) % u64_mod
unfolding safe_add
safe_add-mod a b s h = ground arith

module _ (w : World) where
  round-Agree :
      (t : Transaction) (ts : List Transaction) (s s' : States) (gas fees : ℕ)
      (r r' : Applied × States)
      → t.sender ≢ 0
      → ((m m' : States) (gas' fees' : ℕ)
          → Keeps s m
          → Keeps s' m'
          → Agree
              (gather w.crypto w.executor ts m gas' fees')
              (run_transactions w ts m' gas' fees'))
      → Transfers t s r
      → Transfers t s' r'
      → Agree
          (gather_next (gather w.crypto w.executor ts) t gas fees r)
          (next_round (run_transactions w ts) t gas fees r')
  round-Agree t ts s s' gas fees r (panic, m') sent next h h' = crashes-Agree _
  round-Agree t ts s s' gas fees r (err used' e', m') sent next h h' = refused-Agree _ _
  round-Agree t ts s s' gas fees (panic, m) (ok used', m') sent next h h' = tt
  round-Agree t ts s s' gas fees (err used e, m) (ok used', m') sent next h h' =
      absurd (omega (arith, h.0, h'.1))
  round-Agree t ts s s' gas fees (ok used, m) (ok used', m') sent next (same, _, k) (same', _, k') =
      let from : (t.sender == 0) ≡ false = ground arith in
      let equal : used' ≡ used = same' ∙ sym same in
      elim (Option-cases (safe_add fees (used * t.gas_price % u64_mod))) [
        | inl over ↦ rw over tt
        | inr (f, sum) ↦ elim (Option-cases (safe_add gas used)) [
          | inl over ↦ rw (sum, over) tt
          | inr (g, total) ↦
              rw (sum, total, from, equal, safe_add-mod fees _ f sum, safe_add-mod gas used g total)
                (next m m' _ _ k k')
        ]
      ]

  pub loops-Agree :
      (ts : List Transaction) (s s' : States) (gas fees : ℕ)
      → AllTransfers ts
      → NoCode s
      → NoCode s'
      → AllKnown ts s
      → AllKnown ts s'
      → Agree (gather w.crypto w.executor ts s gas fees) (run_transactions w ts s' gas fees)
  unfolding gather run_transactions
  loops-Agree [] s s' gas fees all n n' k k' = (refl, refl)
  loops-Agree (t ∷ ts) s s' gas fees (tr, all) n n' (known, k) (known', k') =
      let from : (t.sender == 0) ≡ false = ground (arith, tr.1) in
      elim (Option-cases (validate_transaction w.crypto t s')) [
        | inr (e, invalid) ↦ rw invalid (refused-Agree _ _)
        | inl valid ↦
            rw (valid, from)
              (round-Agree t ts s s' gas fees _ _ tr.1
                (λ m m' g f kept kept'.
                  loops-Agree ts m m' g f all kept.0 kept'.0 (AllKnown-Keeps ts s m kept k)
                    (AllKnown-Keeps ts s' m' kept' k'))
                (transfer-Transfers w.crypto w.executor t s tr n known)
                (transfer-Transfers w.crypto w.executor t s' tr n' known'))
      ]
