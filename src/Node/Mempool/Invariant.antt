-- ===== src/Node/Mempool/Invariant.antt =====
-- node/mempool.go: the queue and the map hold the same entries, whatever the methods do.
use mathlib.Core.List.{Perm, mem-cons_self}
use mathlib.Core.List.Perm
use august.Base.{
  ℕ, suc, ◌-◌, ◌≤◌, ◌<◌, ◌≡◌, refl, sym, ap, ◌∙◌, Bool, false, Option, none, some, List, [], ◌∷◌,
  ◌==◌, ◌&&◌, ltb, leb, length, arith, Bool-cases, Option-cases, inl, inr,
}
use august.Base.Arrays
use august.Base.Dict.{Dict, lookup, insert, erase, nat_eq}
use august.Config.{mempool_max_size}
use august.Blockchain.Primitives.{Crypto}
use august.Blockchain.Transaction.{Transaction, get_hash}
use august.Node.Heap.{Entry, entry}
use august.Node.Heap.Sift.{init-Sifted}
use august.Node.Heap.Queue.{IsHeap, push-IsHeap}
use august.Node.Mempool.{
  Mempool, new_mempool, entries, rebuild_heap, lowest, remove_at, remove_lowest, new_entry,
  add_entry, add_new, add_if_absent, add_transaction, keep, keep_only, remove_each,
  remove_transactions,
}
use august.Node.Mempool.Entries.{
  IsKeyed, lookup-erase, erase-IsKeyed, insert-IsKeyed, entries-insert, entries-erase,
  length-entries, keep-IsKeyed, length-keep, keep_all, erase_absent, length-erase,
}
use august.Node.Mempool.Valid.{lowest_inside, remove_at-IsHeap}

-- The queue is a heap of the entries of the map, each under the hash of its transaction; the pool
-- does not outgrow its size.
pub record IsValid (c : Crypto) (mp : Mempool) : Type 0 where
  pub order : IsHeap mp.queue
  pub agrees : Perm mp.queue (entries mp.transactions)
  pub keyed : IsKeyed c mp.transactions
  pub within : length mp.transactions ≤ mempool_max_size

pub queue_size :
    (c : Crypto) (mp : Mempool) → IsValid c mp → length mp.queue ≡ length mp.transactions
queue_size c mp v = Arrays.length-perm v.agrees ∙ length-entries mp.transactions

pub new_mempool-IsValid : (c : Crypto) → IsValid c new_mempool
unfolding entries
new_mempool-IsValid c = record {
  order = λ i p q r. absurd (omega (arith, q));
  agrees = Perm.refl [];
  keyed = tt;
  within = omega arith;
}

-- The entry that sits at an index of the queue, and the map without it.
pub taken-perm :
    (c : Crypto) (mp : Mempool) (i : ℕ) (rest : List Entry)
    → IsValid c mp
    → Perm (entry mp.queue i ∷ rest) mp.queue
    → Perm
        (entry mp.queue i
          ∷ entries (erase (get_hash c (entry mp.queue i).transaction) mp.transactions))
        (entries mp.transactions)
taken-perm c mp i rest v p =
    entries-erase c mp.transactions (entry mp.queue i) v.keyed
      (Perm.subset (Perm.trans p v.agrees) (entry mp.queue i) mem-cons_self)

pub remove_lowest-IsValid :
    (c : Crypto) (mp : Mempool)
    → IsValid c mp
    → 0 < length mp.queue
    → IsValid c (remove_lowest c mp)
      × (suc (length (remove_lowest c mp).transactions) ≡ length mp.transactions)
unfolding remove_lowest
remove_lowest-IsValid c mp v pos =
    let i = lowest mp.queue in
    let (order, perm) = remove_at-IsHeap mp.queue i v.order (lowest_inside mp.queue pos) in
    let split = taken-perm c mp i (remove_at mp.queue i) v perm in
    let smaller = Arrays.length-perm split in
    let m = erase (get_hash c (entry mp.queue i).transaction) mp.transactions in
    let some_left : (length mp.queue == 0) ≡ false = ground arith in
    rw some_left (
      record {
        order = order;
        agrees = Perm.cons_inv (Perm.trans perm (Perm.trans v.agrees (Perm.symm split)));
        keyed = erase-IsKeyed c (get_hash c (entry mp.queue i).transaction) mp.transactions v.keyed;
        within = omega (
          arith,
          v.within,
          length-erase (get_hash c (entry mp.queue i).transaction) mp.transactions,
        );
      },
      omega (arith, smaller, length-entries m, length-entries mp.transactions),
    )

pub remove_lowest-absent :
    (c : Crypto) (k : ℕ) (mp : Mempool)
    → lookup k mp.transactions ≡ none
    → lookup k (remove_lowest c mp).transactions ≡ none
unfolding remove_lowest
remove_lowest-absent c k mp h = ground (
  arith,
  lookup-erase (get_hash c (entry mp.queue (lowest mp.queue)).transaction) k mp.transactions,
)

pub add_entry-IsValid :
    (c : Crypto) (e : Entry) (mp : Mempool)
    → IsValid c mp
    → e.gas_price ≡ e.transaction.gas_price
    → lookup (get_hash c e.transaction) mp.transactions ≡ none
    → length mp.transactions < mempool_max_size
    → IsValid c (add_entry c e mp)
unfolding add_entry
add_entry-IsValid c e mp v price new room =
    let (order, perm) = push-IsHeap mp.queue e v.order in
    let more = entries-insert (get_hash c e.transaction) e mp.transactions new in
    record {
      order = order;
      agrees = Perm.trans perm (Perm.trans (Perm.cons e v.agrees) more);
      keyed = insert-IsKeyed c e mp.transactions price new v.keyed;
      within = omega (
        arith,
        Arrays.length-perm more,
        length-entries mp.transactions,
        length-entries (insert (get_hash c e.transaction) e mp.transactions),
      );
    }

add_new-IsValid :
    (c : Crypto) (t : Transaction) (now : ℕ) (mp : Mempool)
    → IsValid c mp
    → lookup (get_hash c t) mp.transactions ≡ none
    → IsValid c (add_new c t now mp).1
add_new-IsValid c t now mp v new =
    let e = new_entry t now in
    elim (Bool-cases (leb mempool_max_size (length mp.transactions) && ltb 0 (length mp.queue))) [
      | inl full ↦
          let (left, smaller) = remove_lowest-IsValid c mp v (ground arith) in
          elim (Bool-cases (leb t.gas_price (entry mp.queue (length mp.queue - 1)).gas_price)) [
            | inl low ↦ rw (full, low) v
            | inr high ↦
                rw (full, high)
                  (add_entry-IsValid c e (remove_lowest c mp) left refl
                    (remove_lowest-absent c (get_hash c t) mp new)
                    (omega (arith, smaller, v.within)))
          ]
      | inr free ↦ rw free (add_entry-IsValid c e mp v refl new (ground (arith, queue_size c mp v)))
    ]

add_if_absent-IsValid :
    (c : Crypto) (t : Transaction) (now : ℕ) (mp : Mempool) (found : Option Entry)
    → IsValid c mp
    → lookup (get_hash c t) mp.transactions ≡ found
    → IsValid c (add_if_absent c t now mp found).1
add_if_absent-IsValid c t now mp (some e) v h = v
add_if_absent-IsValid c t now mp none v h = add_new-IsValid c t now mp v h

pub add_transaction-IsValid :
    (c : Crypto) (t : Transaction) (now : ℕ) (mp : Mempool)
    → IsValid c mp
    → IsValid c (add_transaction c t now mp).1
unfolding add_transaction
add_transaction-IsValid c t now mp v =
    add_if_absent-IsValid c t now mp (lookup (get_hash c t) mp.transactions) v refl

-- The map without the entries of the transactions.
unfoldable pub erase_each : Crypto → List Transaction → Dict ℕ Entry → Dict ℕ Entry
erase_each c [] m = m
erase_each c (t ∷ ts) m = erase_each c ts (erase (get_hash c t) m)

pub remove_each-erase :
    (c : Crypto) (ts : List Transaction) (n : ℕ) (m : Dict ℕ Entry)
    → (remove_each c ts n m).1 ≡ erase_each c ts m
unfolding remove_each erase_each
remove_each-erase c [] n m = refl
remove_each-erase c (t ∷ ts) n m = elim (Option-cases (lookup (get_hash c t) m)) [
  | inl absent ↦
      rw (absent, remove_each)
        (remove_each-erase c ts n m
          ∙ ap (erase_each c ts) (sym (erase_absent (get_hash c t) m absent)))
  | inr (e, found) ↦
      rw (found, remove_each) (remove_each-erase c ts (suc n) (erase (get_hash c t) m))
]

erase_each-IsKeyed :
    (c : Crypto) (ts : List Transaction) (m : Dict ℕ Entry)
    → IsKeyed c m
    → IsKeyed c (erase_each c ts m) × (length (erase_each c ts m) ≤ length m)
unfolding erase_each
erase_each-IsKeyed c [] m h = (h, omega arith)
erase_each-IsKeyed c (t ∷ ts) m h =
    let k = get_hash c t in
    let (keyed, fewer) = erase_each-IsKeyed c ts (erase k m) (erase-IsKeyed c k m h) in
    (keyed, omega (arith, fewer, length-erase k m))

module _ (c : Crypto) (order : List Entry → List Entry)
    (any_order : (l : List Entry) → Perm (order l) l) where
  pub rebuild_heap-IsValid :
      (mp : Mempool)
      → IsKeyed c mp.transactions
      → length mp.transactions ≤ mempool_max_size
      → IsValid c (rebuild_heap order mp)
  unfolding rebuild_heap
  rebuild_heap-IsValid mp keyed within =
      let (sorted, perm) = init-Sifted (order (entries mp.transactions)) in
      record {
        order = sorted;
        agrees = Perm.trans perm (any_order (entries mp.transactions));
        keyed = keyed;
        within = within;
      }

  pub keep_only-IsValid :
      (p : Entry → Bool) (mp : Mempool) → IsValid c mp → IsValid c (keep_only order p mp).1
  unfolding keep_only
  keep_only-IsValid p mp v =
      let kept = keep p mp.transactions in
      let keyed = keep-IsKeyed c p mp.transactions v.keyed in
      let fewer = length-keep p mp.transactions in
      elim (Bool-cases (ltb 0 (length mp.transactions - length kept))) [
        | inl some_gone ↦ rw some_gone (
            rebuild_heap-IsValid (record mp { transactions = kept }) keyed
              (omega (arith, fewer, v.within)))
        | inr all_kept ↦ rw (all_kept, keep_all p mp.transactions (ground (arith, fewer))) v
      ]

  pub remove_transactions-IsValid :
      (ts : List Transaction) (mp : Mempool)
      → IsValid c mp
      → IsValid c (remove_transactions c order ts mp).1
  unfolding remove_transactions
  remove_transactions-IsValid ts mp v =
      let (keyed, fewer) = erase_each-IsKeyed c ts mp.transactions v.keyed in
      rw remove_each-erase (
        rebuild_heap-IsValid (record mp { transactions = erase_each c ts mp.transactions }) keyed
          (omega (arith, fewer, v.within)))
