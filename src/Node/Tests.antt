-- ===== src/Node/Tests.antt =====
-- Tests of node/, and instances of its theorems.
use native.Mathlib.Nat.{ℕ_set}
use mathlib.Core.Logic.Or
use mathlib.Core.List.{Mem, mem-cons, not-mem-nil}
use mathlib.Core.List.Perm
use august.Base.{
  ℕ, zero, suc, ◌+◌, ◌-◌, ◌≤◌, ◌<◌, ◌≡◌, refl, ap, ◌∙◌, Bool, true, false, none, some, List, [],
  ◌∷◌, ◌==◌, if◌then◌else◌, length, map, arith,
}
use august.Base.Arrays
use august.Base.Bytes.{Bytes}
use august.Base.Dict.{Dict, lookup, insert, erase, nat_eq, lookup-insert}
use august.Config.{mempool_max_size}
use august.Blockchain.Primitives.{Crypto}
use august.Blockchain.Transaction.{Transaction, get_hash}
use august.Types.Literal.{set_string}
use august.Blockchain.Header.{BlockHeader, header_hash}
use august.Blockchain.Block.{Chain}
use august.Node.Heap.{Entry, entry, less, nobody, push, pop, down, up}
use august.Node.Mempool.{
  Mempool, new_mempool, new_entry, add_transaction, clean_expired, keep_only, pop_many, add_entry,
  entries, keep, is_fresh, remove_transactions, get_transactions,
}
use august.Node.Mempool.Entries.{entries-insert, length-entries}
use august.Node.Mempool.Invariant.{IsValid, queue_size}
use august.Node.Mempool.Top.{IsTop, get_transactions-IsTop}
use august.Node.Mempool.Removal.{is_listed, remove_transactions_lem}
use august.Node.Mempool.Eviction.{add_transaction-room, add_transaction-replaces_lowest}
use august.Node.Orphans.{
  Orphans, add_orphan, take_out, remove_orphan, lowest_tip, not_below, sweep, cleanup_stale_orphans,
}
use august.Node.Mempool.Steps.{Step, Reachable, Reachable-IsValid}

-- A hash that tells the number of bytes.
abbrev counting : Crypto
counting = record { sha256 = λ bs. length bs; verify = λ key hash signature. true }

abbrev padding : ℕ → Bytes
padding zero = []
padding (suc n) = 0 ∷ padding n

abbrev offer : ℕ → ℕ → Transaction
offer n price = record nobody.transaction { gas_price = price; payload = padding n }

length-padding : (n : ℕ) → length (padding n) ≡ n
length-padding zero = refl
length-padding (suc n) = ap suc (length-padding n)

offer_hash : (n price : ℕ) → get_hash counting (offer n price) ≡ 112 + n
unfolding get_hash
offer_hash n price = rw length-padding (omega arith)

abbrev in_turn : List Entry → List Entry
in_turn l = l

abbrev three : Mempool
three =
    (add_transaction counting (offer 2 9) 30
      (add_transaction counting (offer 1 4) 20
        (add_transaction counting (offer 0 7) 10 new_mempool).1).1).1

three-Reachable : Reachable counting in_turn three
three-Reachable =
    Reachable.next
      (Reachable.next (Reachable.next Reachable.start (Step.add _ _ _)) (Step.add _ _ _))
      (Step.add _ _ _)

Reachable-IsValid_example : IsValid counting three
Reachable-IsValid_example = Reachable-IsValid counting in_turn (λ l. Perm.refl l) three-Reachable

best_two :
    map (λ (t : Transaction). t.gas_price) (get_transactions in_turn 2 40 three).0 ≡ 9 ∷ 7 ∷ []
unfolding get_transactions clean_expired keep_only keep is_fresh pop_many pop down push up
    add_transaction add_entry get_hash lookup insert less Arrays.exchange
best_two = refl

remove_transactions_lem_example :
    let (removed, after) =
      remove_transactions counting in_turn (offer 0 7 ∷ offer 5 1 ∷ []) three in
    ((k : ℕ)
      → lookup k after.transactions ≡ (
          if is_listed counting k (offer 0 7 ∷ offer 5 1 ∷ [])
          then none
          else lookup k three.transactions))
    × (removed + length after.transactions ≡ length three.transactions)
remove_transactions_lem_example =
    remove_transactions_lem counting in_turn (offer 0 7 ∷ offer 5 1 ∷ []) three
      Reachable-IsValid_example

get_transactions-IsTop_example :
    (es : List Entry) × ((get_transactions in_turn 2 40 three).0
      ≡ map (λ (e : Entry). e.transaction) es)
    × IsTop 2 (entries (keep (is_fresh 40) three.transactions)) es
get_transactions-IsTop_example =
    get_transactions-IsTop counting in_turn (λ l. Perm.refl l) 2 40 three Reachable-IsValid_example

-- A pool of `n` offers at the price 1.
unfoldable filled : ℕ → Mempool
filled zero = new_mempool
filled (suc n) = (add_transaction counting (offer n 1) n (filled n)).1

filled-Reachable : (n : ℕ) → Reachable counting in_turn (filled n)
unfolding filled
filled-Reachable zero = Reachable.start
filled-Reachable (suc n) = Reachable.next (filled-Reachable n) (Step.add (offer n 1) n (filled n))

filled-IsValid : (n : ℕ) → IsValid counting (filled n)
filled-IsValid n = Reachable-IsValid counting in_turn (λ l. Perm.refl l) (filled-Reachable n)

-- Below its bound the pool takes every offer.
filled-suc :
    (n : ℕ)
    → n < 1000
    → length (filled n).transactions ≡ n
    → ((k : ℕ) → 112 + n ≤ k → lookup k (filled n).transactions ≡ none)
    → (filled (suc n)).transactions
      ≡ insert (112 + n) (new_entry (offer n 1) n) (filled n).transactions
unfolding filled add_entry
filled-suc n small size free =
    let absent : lookup (get_hash counting (offer n 1)) (filled n).transactions ≡ none =
      rw offer_hash (free (112 + n) (omega arith)) in
    let step =
      add_transaction-room counting (offer n 1) n (filled n) absent (omega (arith, size)) in
    ap (λ (r : Bool × Mempool). r.1.transactions) step
    ∙ (ap (λ k. insert k (new_entry (offer n 1) n) (filled n).transactions) (offer_hash n 1))

filled_lem :
    (n : ℕ)
    → n ≤ 1000
    → (length (filled n).transactions ≡ n)
      × ((k : ℕ) → 112 + n ≤ k → lookup k (filled n).transactions ≡ none)
      × ((x : Entry) → Mem x (entries (filled n).transactions) → x.gas_price ≡ 1)
unfolding filled lookup entries
filled_lem zero h = (refl, (λ k p. refl), (λ x p. absurd (not-mem-nil p)))
filled_lem (suc n) h =
    let (size, free, price) = filled_lem n (omega arith) in
    let e = new_entry (offer n 1) n in
    let m = (filled n).transactions in
    let more = entries-insert (112 + n) e m (free (112 + n) (omega arith)) in
    rw (filled-suc n (omega arith) size free) (
      omega (
        arith,
        Arrays.length-perm more,
        size,
        length-entries m,
        length-entries (insert (112 + n) e m),
      ),
      (λ k p. rw (lookup-insert (112 + n) k e m) (ground (arith, free k))),
      (λ x p.
          Or.elim (ℕ_set _ _) (mem-cons.0 (Perm.subset (Perm.symm more) x p)) (λ same. rw same refl)
            (price x)),
    )

absent_1000 : lookup (get_hash counting (offer 1000 2)) (filled 1000).transactions ≡ none
absent_1000 = rw offer_hash ((filled_lem 1000 (omega arith)).1 1112 (omega arith))

full_1000 : length (filled 1000).transactions ≡ mempool_max_size
full_1000 = (filled_lem 1000 (omega arith)).0

cheap_1000 : (entry (filled 1000).queue (length (filled 1000).queue - 1)).gas_price < 2
cheap_1000 =
    let q = (filled 1000).queue in
    let v = filled-IsValid 1000 in
    let some_in : length q - 1 < length q =
      omega (arith, queue_size counting (filled 1000) v, full_1000) in
    let x = entry q (length q - 1) in
    let price : x.gas_price ≡ 1 =
      (filled_lem 1000 (omega arith)).2 x
        (Perm.subset v.agrees x (Arrays.at-Mem nobody q (length q - 1) some_in)) in
    omega (arith, price)

add_transaction-replaces_lowest_example :
    let (added, after) = add_transaction counting (offer 1000 2) 1000 (filled 1000) in
    (added ≡ true)
    × (x : Entry) × Mem x (filled 1000).queue
    × ((y : Entry) → Mem y (filled 1000).queue → less x y ≡ false)
    × ((k : ℕ)
        → lookup k after.transactions ≡ (
            if get_hash counting (offer 1000 2) == k
            then some (new_entry (offer 1000 2) 1000)
            else if get_hash counting x.transaction == k
            then none
            else lookup k (filled 1000).transactions))
add_transaction-replaces_lowest_example =
    add_transaction-replaces_lowest counting (offer 1000 2) 1000 (filled 1000) (filled-IsValid 1000)
      absent_1000 full_1000 cheap_1000

abbrev headed : ℕ → BlockHeader
headed height = record {
  version = 1;
  previous_hash = 5;
  height = height;
  timestamp = 0;
  nonce = 0;
  merkle_root = 0;
  state_root = 0;
  receipt_root = 0;
  bits = 0;
  total_work = [];
  gas_limit = 0;
  gas_used = 0;
  beneficiary = 0;
}

abbrev chain_of : ℕ → Chain
chain_of height = record {
  blocks = [];
  block_index = [];
  headers = [];
  account_states = [];
  tip = some (record { header = headed height; transactions = [] });
}

-- Two chains, the lower one with a tip of height 4.
abbrev two_chains : Dict ℕ Chain
two_chains = (1, chain_of 6) ∷ (2, chain_of 4) ∷ []

abbrev orphans : Orphans
orphans = (7, headed 2 ∷ []) ∷ (5, headed 4 ∷ headed 3 ∷ headed 9 ∷ []) ∷ []

cleanup_stale_orphans_7 :
    cleanup_stale_orphans two_chains orphans ≡ (5, headed 4 ∷ headed 9 ∷ []) ∷ []
unfolding cleanup_stale_orphans lowest_tip sweep not_below
cleanup_stale_orphans_7 = refl

-- The list that is left empty goes away.
remove_orphan_first : remove_orphan counting (headed 3) (add_orphan (headed 3) []) ≡ []
unfolding add_orphan remove_orphan take_out lookup insert erase header_hash set_string
remove_orphan_first = refl
