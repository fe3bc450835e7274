-- ===== src/Node/Mempool.antt =====
-- node/mempool.go: the pool of waiting transactions. The mutex is left out: each method is one step.
-- Go visits a map in an order of its own choosing; it shows only where the queue is rebuilt, and is a
-- parameter there.
pub mod Entries
pub mod Valid
pub mod Invariant
pub mod Top
pub mod Removal
pub mod Eviction
pub mod Steps
use august.Base.{
  ℕ, zero, suc, ◌+◌, ◌-◌, Bool, true, false, Option, none, some, List, [], ◌∷◌, ltb, leb, ◌==◌,
  ◌&&◌, ◌||◌, not, if◌then◌else◌, length, take, set, map,
}
use august.Base.Dict.{Dict, lookup, insert, erase, nat_eq}
use august.Config.{mempool_max_size, mempool_max_expiry}
use august.Blockchain.Primitives.{Crypto}
use august.Blockchain.Account.{States}
use august.Blockchain.Transaction.{Transaction, get_hash}
use august.Blockchain.Validate.{TxError, validate_transaction}
use august.Node.Heap.{Entry, entry, push, pop, fix, init}

-- The heap, and the entries by the hash of their transaction.
pub record Mempool : Type 0 where
  pub queue : List Entry
  pub transactions : Dict ℕ Entry

-- `NewMempool`
abbrev pub new_mempool : Mempool
new_mempool = record { queue = []; transactions = [] }

unfoldable pub entries : Dict ℕ Entry → List Entry
entries [] = []
entries ((k, e) ∷ m) = e ∷ entries m

-- `rebuildHeap`, with the order in which the map is visited.
unfoldable pub rebuild_heap : (List Entry → List Entry) → Mempool → Mempool
unfolding entries
rebuild_heap order mp = record mp { queue = init (order (entries mp.transactions)) }

-- `Size`
abbrev pub mempool_size : Mempool → ℕ
mempool_size mp = length mp.transactions

-- `IsFull`
abbrev pub is_full : Mempool → Bool
is_full mp = leb mempool_max_size (length mp.transactions)

-- The search of `removeLowestGasPrice`: the rest of the queue, the index of its first entry, and the
-- index and the entry found so far.
unfoldable pub lowest_from : List Entry → ℕ → ℕ → Entry → ℕ
lowest_from [] i found least = found
lowest_from (e ∷ rest) i found least =
    if ltb e.gas_price least.gas_price
      || ((e.gas_price == least.gas_price) && ltb least.added_at e.added_at)
    then lowest_from rest (suc i) i e
    else lowest_from rest (suc i) found least

unfoldable pub lowest : List Entry → ℕ
unfolding lowest_from
lowest a = lowest_from a 0 0 (entry a 0)

-- The removal of the entry at an index: the last entry takes its place.
unfoldable pub remove_at : List Entry → ℕ → List Entry
remove_at a i =
    let last = length a - 1 in
    if not (i == last) then fix (take last (set a i (entry a last))) i else take last a

-- `removeLowestGasPrice`
unfoldable pub remove_lowest : Crypto → Mempool → Mempool
remove_lowest c mp = if length mp.queue == 0 then mp else record mp {
  transactions = erase (get_hash c (entry mp.queue (lowest mp.queue)).transaction) mp.transactions;
  queue = remove_at mp.queue (lowest mp.queue);
}

abbrev pub new_entry : Transaction → ℕ → Entry
new_entry t now = record { transaction = t; added_at = now; gas_price = t.gas_price }

-- The end of `AddTransaction`.
unfoldable pub add_entry : Crypto → Entry → Mempool → Mempool
add_entry c e mp = record {
  queue = push mp.queue e;
  transactions = insert (get_hash c e.transaction) e mp.transactions;
}

abbrev pub add_new : Crypto → Transaction → ℕ → Mempool → Bool × Mempool
add_new c t now mp =
    if leb mempool_max_size (length mp.transactions) && ltb 0 (length mp.queue)
    then (if leb t.gas_price (entry mp.queue (length mp.queue - 1)).gas_price
        then (false, mp)
        else (true, add_entry c (new_entry t now) (remove_lowest c mp)))
    else (true, add_entry c (new_entry t now) mp)

abbrev pub add_if_absent : Crypto → Transaction → ℕ → Mempool → Option Entry → Bool × Mempool
add_if_absent c t now mp (some e) = (false, mp)
add_if_absent c t now mp none = add_new c t now mp

-- `AddTransaction` at the time `now`.
unfoldable pub add_transaction : Crypto → Transaction → ℕ → Mempool → Bool × Mempool
add_transaction c t now mp = add_if_absent c t now mp (lookup (get_hash c t) mp.transactions)

-- The entries that a test keeps.
unfoldable pub keep : (Entry → Bool) → Dict ℕ Entry → Dict ℕ Entry
keep p [] = []
keep p ((k, e) ∷ m) = if p e then (k, e) ∷ keep p m else keep p m

-- The rounds that delete the others, then the rebuilding of the heap if there were any; the number
-- of deletions.
unfoldable pub keep_only : (List Entry → List Entry) → (Entry → Bool) → Mempool → ℕ × Mempool
unfolding keep
keep_only order p mp =
    let kept = keep p mp.transactions in
    let removed = length mp.transactions - length kept in
    let mp' = record mp { transactions = kept } in
    (removed, if ltb 0 removed then rebuild_heap order mp' else mp')

unfoldable pub is_fresh : ℕ → Entry → Bool
is_fresh now e = not (ltb mempool_max_expiry (now - e.added_at))

-- `cleanExpiredTransactions`
unfoldable pub clean_expired : (List Entry → List Entry) → ℕ → Mempool → ℕ × Mempool
clean_expired order now mp = keep_only order (is_fresh now) mp

abbrev pub is_nil : Option TxError → Bool
is_nil none = true
is_nil (some e) = false

-- `RevalidateTransactions`
unfoldable pub revalidate : Crypto → (List Entry → List Entry) → States → Mempool → ℕ × Mempool
revalidate c order states mp =
    keep_only order (λ e. is_nil (validate_transaction c e.transaction states)) mp

-- The loop of `RemoveTransactions`: the number of deletions and the map.
unfoldable pub remove_each : Crypto → List Transaction → ℕ → Dict ℕ Entry → ℕ × Dict ℕ Entry
remove_each c [] removed m = (removed, m)
remove_each c (t ∷ ts) removed m = elim (lookup (get_hash c t) m) [
  | some e ↦ remove_each c ts (suc removed) (erase (get_hash c t) m)
  | none ↦ remove_each c ts removed m
]

-- `RemoveTransactions`
unfoldable pub remove_transactions :
    Crypto → (List Entry → List Entry) → List Transaction → Mempool → ℕ × Mempool
unfolding remove_each
remove_transactions c order ts mp =
    let (removed, m) = remove_each c ts 0 mp.transactions in
    (removed, rebuild_heap order (record mp { transactions = m }))

-- The loop of `GetTransactions` on the copy of the queue.
unfoldable pub pop_many : ℕ → List Entry → List Entry
pop_many zero a = []
pop_many (suc n) a =
    let (e, b) = pop a in let rest = pop_many n b in if length a == 0 then [] else e ∷ rest

-- `GetTransactions`, with the pool it leaves. (For a negative limit it does what it does for 0.)
unfoldable pub get_transactions :
    (List Entry → List Entry) → ℕ → ℕ → Mempool → List Transaction × Mempool
get_transactions order limit now mp =
    let (removed, mp') = clean_expired order now mp in
    (map (λ (e : Entry). e.transaction) (pop_many limit mp'.queue), mp')
