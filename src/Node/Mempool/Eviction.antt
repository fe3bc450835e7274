-- ===== src/Node/Mempool/Eviction.antt =====
-- node/mempool.go: `AddTransaction` on a full pool.
use mathlib.Core.List.{Mem}
use august.Base.{
  ℕ, suc, ◌+◌, ◌-◌, ◌<◌, ◌≡◌, refl, ap, ◌∙◌, true, false, none, some, List, [], ◌∷◌, ◌==◌, ◌&&◌,
  ◌||◌, if◌then◌else◌, ltb, leb, length, arith, Bool-cases, inl, inr,
}
use august.Base.Arrays
use august.Base.Dict.{lookup, erase, nat_eq, lookup-insert}
use august.Config.{mempool_max_size}
use august.Blockchain.Primitives.{Crypto}
use august.Blockchain.Transaction.{Transaction, get_hash}
use august.Node.Heap.{Entry, entry, less, nobody}
use august.Node.Heap.Order.{less_trans, less_irrefl, less_asym}
use august.Node.Mempool.{
  Mempool, lowest_from, lowest, remove_lowest, new_entry, add_entry, add_transaction,
}
use august.Node.Mempool.Entries.{lookup-erase}
use august.Node.Mempool.Valid.{lowest_inside}
use august.Node.Mempool.Invariant.{IsValid, queue_size}
use august.Node.Mempool.Top.{all_mem}

-- The test of the search is the order of the heap.
after-less :
    (e least : Entry)
    → (ltb e.gas_price least.gas_price
        || ((e.gas_price == least.gas_price) && ltb least.added_at e.added_at))
      ≡ less least e
unfolding less
after-less e least = ground arith

module _ (b : List Entry) where
  -- The search of the rest of `b`, from the index `k` on, ends with an entry that comes before none.
  lowest_from-last :
      (a : List Entry) (k found : ℕ)
      → k + length a ≡ length b
      → ((j : ℕ) → j < length a → entry a j ≡ entry b (k + j))
      → ((i : ℕ) → i < k → less (entry b found) (entry b i) ≡ false)
      → (i : ℕ) → i < length b
      → less (entry b (lowest_from a k found (entry b found))) (entry b i) ≡ false
  unfolding lowest_from
  lowest_from-last [] k found size same best i p = best i (omega (arith, size, p))
  lowest_from-last (e ∷ a) k found size same best i p =
      let here : e ≡ entry b k = ground (arith, same 0) in
      let size' : suc k + length a ≡ length b = omega (arith, size) in
      let same' : (j : ℕ) → j < length a → entry a j ≡ entry b (suc k + j) =
        λ j q. ground (arith, same (suc j)) in
      let x = entry b found in
      rw after-less (elim (Bool-cases (less x e)) [
        | inl later ↦
            rw (later, here)
              (lowest_from-last a (suc k) k size' same'
                (λ j q. ground (
                  arith,
                  here,
                  best j,
                  less_asym x (entry b k),
                  less_irrefl (entry b k),
                  less_trans (entry b j) x (entry b k),
                ))
                i p)
        | inr earlier ↦
            rw earlier (
              lowest_from-last a (suc k) found size' same' (λ j q. ground (arith, here, best j)) i
                p)
      ])

  pub lowest-last : (i : ℕ) → i < length b → less (entry b (lowest b)) (entry b i) ≡ false
  unfolding lowest
  lowest-last i p =
      lowest_from-last b 0 0 (omega arith) (λ j q. ap (entry b) (omega arith))
        (λ j q. absurd (omega (arith, q))) i p

remove_lowest-erase :
    (c : Crypto) (mp : Mempool)
    → 0 < length mp.queue
    → (remove_lowest c mp).transactions
      ≡ erase (get_hash c (entry mp.queue (lowest mp.queue)).transaction) mp.transactions
unfolding remove_lowest
remove_lowest-erase c mp h = ground arith

-- Below its bound the pool takes a new transaction.
pub add_transaction-room :
    (c : Crypto) (t : Transaction) (now : ℕ) (mp : Mempool)
    → lookup (get_hash c t) mp.transactions ≡ none
    → length mp.transactions < mempool_max_size
    → add_transaction c t now mp ≡ (true, add_entry c (new_entry t now) mp)
unfolding add_transaction
add_transaction-room c t now mp new room =
    let below : leb mempool_max_size (length mp.transactions) ≡ false = ground arith in
    rw (new, below) refl

-- A transaction that a full pool does not hold, and that pays a higher price than the last entry of
-- its queue, is added, and takes the place of an entry that comes before no other: that entry's key is
-- gone, the new key has the new entry, and every other key has the entry that it had.
pub add_transaction-replaces_lowest :
    (c : Crypto) (t : Transaction) (now : ℕ) (mp : Mempool)
    → IsValid c mp
    → lookup (get_hash c t) mp.transactions ≡ none
    → length mp.transactions ≡ mempool_max_size
    → (entry mp.queue (length mp.queue - 1)).gas_price < t.gas_price
    → let (added, after) = add_transaction c t now mp in
      (added ≡ true)
      × (x : Entry) × Mem x mp.queue
      × ((y : Entry) → Mem y mp.queue → less x y ≡ false)
      × ((k : ℕ)
          → lookup k after.transactions ≡ (
              if get_hash c t == k
              then some (new_entry t now)
              else if get_hash c x.transaction == k
              then none
              else lookup k mp.transactions))
unfolding add_transaction add_entry
add_transaction-replaces_lowest c t now mp v new full higher =
    let x = entry mp.queue (lowest mp.queue) in
    let some_in : 0 < length mp.queue = omega (arith, queue_size c mp v, full) in
    let is_full : (leb mempool_max_size (length mp.transactions) && ltb 0 (length mp.queue))
        ≡ true =
      ground arith in
    let is_higher : leb t.gas_price (entry mp.queue (length mp.queue - 1)).gas_price ≡ false =
      ground arith in
    rw (new, is_full, is_higher)
      (
        refl,
        x,
        Arrays.at-Mem nobody mp.queue (lowest mp.queue) (lowest_inside mp.queue some_in),
        all_mem (λ y. less x y) mp.queue (lowest-last mp.queue),
        λ k. rw (remove_lowest-erase c mp some_in) (
            lookup-insert (get_hash c t) k _ _
            ∙ rw (lookup-erase (get_hash c x.transaction) k mp.transactions) refl),
      )
