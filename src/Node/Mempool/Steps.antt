-- ===== src/Node/Mempool/Steps.antt =====
-- node/mempool.go: the methods of the pool, one after another.
use mathlib.Core.List.{Perm}
use august.Base.{ℕ, List}
use august.Blockchain.Primitives.{Crypto}
use august.Blockchain.Account.{States}
use august.Blockchain.Transaction.{Transaction}
use august.Node.Heap.{Entry}
use august.Node.Mempool.{
  Mempool, new_mempool, add_transaction, clean_expired, revalidate, remove_transactions,
  get_transactions, is_fresh,
}
use august.Node.Mempool.Invariant.{
  IsValid, new_mempool-IsValid, add_transaction-IsValid, keep_only-IsValid,
  remove_transactions-IsValid,
}

-- What one method makes of a pool.
pub data Step (c : Crypto) (order : List Entry → List Entry) : Mempool → Mempool → Type 0 where
  add : (t : Transaction) (now : ℕ) (mp : Mempool) → Step c order mp (add_transaction c t now mp).1
  take : (limit now : ℕ) (mp : Mempool) → Step c order mp (get_transactions order limit now mp).1
  remove :
      (ts : List Transaction) (mp : Mempool) → Step c order mp (remove_transactions c order ts mp).1
  clean : (now : ℕ) (mp : Mempool) → Step c order mp (clean_expired order now mp).1
  check : (states : States) (mp : Mempool) → Step c order mp (revalidate c order states mp).1

-- A pool that a node can have.
pub data Reachable (c : Crypto) (order : List Entry → List Entry) : Mempool → Type 0 where
  start : Reachable c order new_mempool
  next : {mp mp' : Mempool} → Reachable c order mp → Step c order mp mp' → Reachable c order mp'

module _ (c : Crypto) (order : List Entry → List Entry)
    (any_order : (l : List Entry) → Perm (order l) l) where
  pub Step-IsValid : {mp mp' : Mempool} → Step c order mp mp' → IsValid c mp → IsValid c mp'
  unfolding get_transactions clean_expired revalidate
  Step-IsValid (add t now mp) v = add_transaction-IsValid c t now mp v
  Step-IsValid (take limit now mp) v = keep_only-IsValid c order any_order (is_fresh now) mp v
  Step-IsValid (remove ts mp) v = remove_transactions-IsValid c order any_order ts mp v
  Step-IsValid (clean now mp) v = keep_only-IsValid c order any_order (is_fresh now) mp v
  Step-IsValid (check states mp) v = keep_only-IsValid c order any_order _ mp v

  -- Whatever methods are called in whatever order, and in whatever order the map is visited, the queue
  -- of the pool is a heap of exactly the entries of its map, each transaction stands there once under
  -- its own hash and with its own price, and there are at most `mempool_max_size` of them.
  pub Reachable-IsValid : {mp : Mempool} → Reachable c order mp → IsValid c mp
  Reachable-IsValid start = new_mempool-IsValid c
  Reachable-IsValid (next r s) = Step-IsValid s (Reachable-IsValid r)
