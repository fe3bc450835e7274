-- ===== src/Blockchain/Mining/First.antt =====
-- blockchain/validation.go: the first transaction of a block, before the loop over the others.
use august.Base.{
  ℕ, ◌≡◌, ◌≢◌, refl, true, none, List, [], ◌∷◌, ◌==◌, arith, Bool-cases, Option-cases, inl, inr,
}
use august.Base.Dict.{lookup, nat_eq}
use august.Utils.SafeMath.{safe_add}
use august.Blockchain.Account.{States, new_account}
use august.Blockchain.Transaction.{Transaction}
use august.Blockchain.Validate.{validate_transaction}
use august.Blockchain.Apply.{Applied, ok, err, panic, apply_transaction, apply_coinbase}
use august.Blockchain.ValidateBlock.Loop.{NoCode}
use august.Blockchain.ValidateBlock.{
  World, Executed, all_applied, next_round, run_transactions, copy_states,
}
use august.Blockchain.Mining.Loops.{Keeps, Keeps-insert, AllKnown}

-- A coinbase transaction keeps the accounts, unless it panics.
abbrev KeptBy : States → Applied × States → Type 0
KeptBy states (panic, after) = Unit {0}
KeptBy states (err used e, after) = Keeps states after
KeptBy states (ok used, after) = Keeps states after

coinbase-KeptBy :
    (t : Transaction) (states : States) → NoCode states → KeptBy states (apply_coinbase t states)
unfolding apply_coinbase
coinbase-KeptBy t states n = elim (Option-cases (lookup t.recipient states)) [
  | inl new ↦
      rw new (
        Keeps-insert t.recipient (new_account t.recipient t.amount) states states (n, λ k e. e)
          refl)
  | inr (a, there) ↦ elim (Option-cases (safe_add a.balance t.amount)) [
    | inl over ↦ rw (there, over) tt
    | inr (x, fits) ↦
        rw (there, fits)
          (Keeps-insert t.recipient (record a { balance = x }) states states (n, λ k e. e)
            (n t.recipient a there))
  ]
]

after_coinbase :
    (rest : States → ℕ → ℕ → Executed) (t : Transaction) (states : States) (r : Applied × States)
    (after : States) (gas fees : ℕ)
    → (t.sender == 0) ≡ true
    → KeptBy states r
    → next_round rest t 0 0 r ≡ all_applied after gas fees
    → (s : States) × Keeps states s × (rest s 0 0 ≡ all_applied after gas fees)
after_coinbase rest t states (panic, s) after gas fees e k h = absurd (cc)
after_coinbase rest t states (err used x, s) after gas fees e k h = absurd (cc)
after_coinbase rest t states (ok used, s) after gas fees e k h = (s, k, rw e at h)

pub coinbase_first :
    (w : World) (t : Transaction) (ts : List Transaction) (states after : States) (gas fees : ℕ)
    → t.sender ≡ 0
    → NoCode states
    → run_transactions w (t ∷ ts) states 0 0 ≡ all_applied after gas fees
    → (s : States) × Keeps states s × (run_transactions w ts s 0 0 ≡ all_applied after gas fees)
unfolding run_transactions apply_transaction
coinbase_first w t ts states after gas fees e n h =
    elim (Option-cases (validate_transaction w.crypto t states)) [
      | inr (x, refuses) ↦ absurd (let h' = rw refuses at h in cc)
      | inl accepts ↦
          let empty : (t.sender == 0) ≡ true = ground arith in
          let h' = rw (accepts, empty) at h in
          after_coinbase (run_transactions w ts) t states (apply_coinbase t states) after gas fees
            empty (coinbase-KeptBy t states n) h'
    ]

copied_known :
    (k : ℕ) (states : States) → lookup k states ≢ none → lookup k (copy_states states) ≢ none
unfolding lookup copy_states
copied_known k [] h = h
copied_known k ((j, a) ∷ states) h = elim (Bool-cases (j == k)) [
  | inl here ↦ rw here (λ e. cc)
  | inr there ↦ rw there (copied_known k states (rw there at h))
]

pub copied-AllKnown :
    (ts : List Transaction) (states : States)
    → AllKnown ts states
    → AllKnown ts (copy_states states)
copied-AllKnown [] states h = tt
copied-AllKnown (t ∷ ts) states (h, all) =
    (copied_known t.sender states h, copied-AllKnown ts states all)
