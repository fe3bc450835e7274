-- ===== src/Node/Mempool/Removal.antt =====
-- node/mempool.go: `RemoveTransactions`.
use august.Base.{
  ℕ, suc, ◌+◌, ◌≡◌, refl, ap, ◌∙◌, Bool, false, none, some, List, [], ◌∷◌, ◌==◌, ◌||◌,
  if◌then◌else◌, length, arith, Bool-cases, Option-cases, inl, inr,
}
use august.Base.Dict.{Dict, lookup, erase, nat_eq}
use august.Blockchain.Primitives.{Crypto}
use august.Blockchain.Transaction.{Transaction, get_hash}
use august.Node.Heap.{Entry}
use august.Node.Mempool.{Mempool, rebuild_heap, remove_each, remove_transactions}
use august.Node.Mempool.Entries.{IsKeyed, lookup-erase, erase_absent, erase-IsKeyed}
use august.Node.Mempool.Invariant.{IsValid, erase_each, remove_each-erase}

-- One of the transactions has the hash.
unfoldable pub is_listed : Crypto → ℕ → List Transaction → Bool
is_listed c k [] = false
is_listed c k (t ∷ ts) = (get_hash c t == k) || is_listed c k ts

lookup-erase_each :
    (c : Crypto) (k : ℕ) (ts : List Transaction) (m : Dict ℕ Entry)
    → lookup k (erase_each c ts m) ≡ (if is_listed c k ts then none else lookup k m)
unfolding erase_each is_listed
lookup-erase_each c k [] m = refl
lookup-erase_each c k (t ∷ ts) m =
    ground
      (arith, lookup-erase_each c k ts (erase (get_hash c t) m), lookup-erase (get_hash c t) k m)

-- An erased key was there once.
length-erase_found :
    (c : Crypto) (k : ℕ) (e : Entry) (m : Dict ℕ Entry)
    → IsKeyed c m
    → lookup k m ≡ some e
    → suc (length (erase k m)) ≡ length m
unfolding lookup erase
length-erase_found c k e [] h found = absurd (ground arith)
length-erase_found c k e ((i, d) ∷ m) (key, price, once, rest) found = elim (Bool-cases (i == k)) [
  | inl same ↦
      let absent : lookup k m ≡ none = ground arith in rw (same, erase_absent k m absent) refl
  | inr other ↦ rw other (ap suc (length-erase_found c k e m rest (rw other at found)))
]

remove_each-count :
    (c : Crypto) (ts : List Transaction) (n : ℕ) (m : Dict ℕ Entry)
    → IsKeyed c m
    → (remove_each c ts n m).0 + length (remove_each c ts n m).1 ≡ n + length m
unfolding remove_each
remove_each-count c [] n m h = refl
remove_each-count c (t ∷ ts) n m h =
    let k = get_hash c t in
    elim (Option-cases (lookup k m)) [
      | inl absent ↦ rw (absent, remove_each) (remove_each-count c ts n m h)
      | inr (e, found) ↦
          rw (found, remove_each)
            (remove_each-count c ts (suc n) (erase k m) (erase-IsKeyed c k m h)
              ∙ omega (arith, length-erase_found c k e m h found))
    ]

-- `RemoveTransactions` takes the given transactions out of the map of a valid pool and leaves all
-- others; the number it returns is the number of entries that are gone.
pub remove_transactions_lem :
    (c : Crypto) (order : List Entry → List Entry) (ts : List Transaction) (mp : Mempool)
    → IsValid c mp
    → let (removed, after) = remove_transactions c order ts mp in
      ((k : ℕ)
        → lookup k after.transactions
          ≡ (if is_listed c k ts then none else lookup k mp.transactions))
      × (removed + length after.transactions ≡ length mp.transactions)
unfolding remove_transactions rebuild_heap
remove_transactions_lem c order ts mp v = (
  λ k. rw remove_each-erase (lookup-erase_each c k ts mp.transactions),
  remove_each-count c ts 0 mp.transactions v.keyed ∙ omega arith,
)
