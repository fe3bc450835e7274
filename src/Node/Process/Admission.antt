-- ===== src/Node/Process/Admission.antt =====
-- node/node.go: what `ProcessTransaction` lets into the pool.
use august.Base.{
  ℕ, ◌≡◌, ◌≢◌, ◌⊎◌, ◌↔◌, ◌≤◌, refl, Bool, true, false, Option, none, some, if◌then◌else◌, arith,
  inl, inr, ltb, leb, ◌&&◌, ◌-◌, length,
}
use august.Base.Dict.{lookup, nat_eq, lookup-insert_self}
use august.Blockchain.Primitives.{Crypto}
use august.Blockchain.Transaction.{Transaction, IsTransaction, get_hash}
use august.Blockchain.Validate.{TxError, validate_transaction}
use august.Blockchain.Validate.Spec.{Fits, IsPayable, validate_transaction_iff}
use august.Blockchain.ValidateBlock.{World}
use august.Config.{mempool_max_size}
use august.Node.Heap.{Entry, entry}
use august.Node.Mempool.{
  Mempool, new_entry, add_entry, add_if_absent, add_transaction, remove_lowest,
}
use august.Node.State.{NodeState}
use august.Node.Process.{
  TransactionFailure, add_if_valid, process_transaction, current_states, invalid_transaction,
  rejected_by_mempool,
}

-- What an addition to a pool comes to: the entry is new and in, or nothing has
-- changed and the entry was there or the pool is full.
unfoldable Added : Crypto → Transaction → ℕ → Mempool → Bool × Mempool → Type 0
Added c t now mp (false, mp') =
    (mp' ≡ mp)
    × ((lookup (get_hash c t) mp.transactions ≢ none) ⊎ (mempool_max_size ≤ length mp.transactions))
Added c t now mp (true, mp') =
    (lookup (get_hash c t) mp.transactions ≡ none)
    × (lookup (get_hash c t) mp'.transactions ≡ some (new_entry t now))

module _ (c : Crypto) (t : Transaction) (now : ℕ) (mp : Mempool) where
  add_entry-Added :
      (mp' : Mempool)
      → lookup (get_hash c t) mp.transactions ≡ none
      → Added c t now mp (true, add_entry c (new_entry t now) mp')
  unfolding Added add_entry
  add_entry-Added mp' absent =
      (absent, lookup-insert_self (get_hash c t) (new_entry t now) mp'.transactions)

  -- The three ends of an addition, by whether the pool is full and whether the price is too low.
  each_end :
      (full low : Bool)
      → (full ≡ true → mempool_max_size ≤ length mp.transactions)
      → lookup (get_hash c t) mp.transactions ≡ none
      → Added c t now mp (
          if full
          then (if low
              then (false, mp)
              else (true, add_entry c (new_entry t now) (remove_lowest c mp)))
          else (true, add_entry c (new_entry t now) mp))
  unfolding Added
  each_end true true is_full absent = (refl, inr (is_full refl))
  each_end true false is_full absent = add_entry-Added (remove_lowest c mp) absent
  each_end false low is_full absent = add_entry-Added mp absent

  full_size :
      leb mempool_max_size (length mp.transactions) && ltb 0 (length mp.queue) ≡ true
      → mempool_max_size ≤ length mp.transactions
  full_size e = ground arith

  add_if_absent-Added :
      (o : Option Entry)
      → lookup (get_hash c t) mp.transactions ≡ o
      → Added c t now mp (add_if_absent c t now mp o)
  unfolding Added
  add_if_absent-Added (some e) present = (refl, inl (λ absent. cc))
  add_if_absent-Added none absent =
      each_end (leb mempool_max_size (length mp.transactions) && ltb 0 (length mp.queue))
        (leb t.gas_price (entry mp.queue (length mp.queue - 1)).gas_price) full_size absent

  add_transaction-Added : Added c t now mp (add_transaction c t now mp)
  unfolding add_transaction
  add_transaction-Added = add_if_absent-Added (lookup (get_hash c t) mp.transactions) refl

-- The three outcomes of a transaction that is sent to a node.
pub data Admission (w : World) (t : Transaction) (now : ℕ) (s : NodeState)
    : Option TransactionFailure × NodeState → Type 0 where
  admitted :
      {mp : Mempool}
      → IsPayable w.crypto t (current_states s)
      → lookup (get_hash w.crypto t) s.mempool.transactions ≡ none
      → lookup (get_hash w.crypto t) mp.transactions ≡ some (new_entry t now)
      → Admission w t now s (none, record s { mempool = mp })
  turned_away :
      {mp : Mempool}
      → IsPayable w.crypto t (current_states s)
      → mp ≡ s.mempool
      → (lookup (get_hash w.crypto t) s.mempool.transactions ≢ none)
        ⊎ (mempool_max_size ≤ length s.mempool.transactions)
      → Admission w t now s (some rejected_by_mempool, record s { mempool = mp })
  unpayable :
      {e : TxError}
      → ¬ IsPayable w.crypto t (current_states s)
      → Admission w t now s (some (invalid_transaction e), s)

module _ (w : World) (t : Transaction) (now : ℕ) (s : NodeState) where
  after_addition :
      IsPayable w.crypto t (current_states s)
      → (r : Bool × Mempool) → Added w.crypto t now s.mempool r
      → Admission w t now s
          (if r.0 then none else some rejected_by_mempool, record s { mempool = r.1 })
  unfolding Added
  after_addition payable (true, mp) (absent, present) = admitted payable absent present
  after_addition payable (false, mp) (same, why) = turned_away payable same why

  add_if_valid-Admission :
      ((validate_transaction w.crypto t (current_states s) ≡ none)
        ↔ IsPayable w.crypto t (current_states s))
      → (v : Option TxError) → validate_transaction w.crypto t (current_states s) ≡ v
      → Admission w t now s (add_if_valid w t now v s)
  add_if_valid-Admission (sound, complete) (some e) is_error =
      unpayable (λ payable. let is_none = complete payable in cc)
  add_if_valid-Admission (sound, complete) none is_valid =
      after_addition (sound is_valid) (add_transaction w.crypto t now s.mempool)
        (add_transaction-Added w.crypto t now s.mempool)

  -- A transaction with a sender that is sent to a node, whose current accounts hold less than 2 ^ 64
  -- each, ends in one of three ways: it is payable, was not in the pool, and is in the pool of an
  -- otherwise unchanged node; it is payable and rejected by the pool, where it was already or which is
  -- full, and the pool is as before; or it is not payable and the node is as before.
  pub process_transaction-Admission :
      IsTransaction t
      → Fits (current_states s)
      → t.sender ≢ 0
      → Admission w t now s (process_transaction w t now s)
  unfolding process_transaction
  process_transaction-Admission is_transaction fits ne =
      add_if_valid-Admission
        (validate_transaction_iff w.crypto t (current_states s) is_transaction fits ne)
        (validate_transaction w.crypto t (current_states s)) refl
