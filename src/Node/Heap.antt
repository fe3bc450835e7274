-- ===== src/Node/Heap.antt =====
-- node/mempool.go: the entries of the pool and `GasPriceQueue`, with Go's `container/heap` on it.
-- A queue is a list, the root of the heap in front; every index that the code uses is inside it.
pub mod Order
pub mod Sift
pub mod Queue
use august.Base.{
  ℕ, zero, suc, ◌+◌, ◌-◌, ◌*◌, ◌/◌, Bool, true, false, Option, none, some, List, [], ◌∷◌, ◌++◌, ltb,
  leb, ◌==◌, ◌&&◌, ◌||◌, not, if◌then◌else◌, length, take,
}
use august.Base.Arrays
use august.Blockchain.Transaction.{Transaction}

-- `MempoolEntry`; a time is a number of nanoseconds.
pub record Entry : Type 0 where
  pub transaction : Transaction
  pub added_at : ℕ
  pub gas_price : ℕ

-- `Less`
unfoldable pub less : Entry → Entry → Bool
less x y =
    if not (x.gas_price == y.gas_price)
    then ltb y.gas_price x.gas_price
    else ltb x.added_at y.added_at

-- What a read outside of the list gives; no operation makes one.
abbrev pub nobody : Entry
nobody = record {
  transaction = record {
    sender = 0;
    recipient = 0;
    amount = 0;
    signature = 0;
    nonce = 0;
    timestamp = 0;
    chain_id = 0;
    instructions = [];
    gas_limit = 0;
    gas_price = 0;
    payload = [];
  };
  added_at = 0;
  gas_price = 0;
}

abbrev pub entry : List Entry → ℕ → Entry
entry = Arrays.at nobody

abbrev pub exchange : List Entry → ℕ → ℕ → List Entry
exchange = Arrays.exchange nobody

-- The loop of `heap.up`; the index and one round more are enough fuel.
unfoldable pub up_loop : ℕ → List Entry → ℕ → List Entry
up_loop zero a j = a
up_loop (suc fuel) a j =
    let parent = (j - 1) / 2 in
    let rest = up_loop fuel (exchange a parent j) parent in
    if (parent == j) || not (less (entry a j) (entry a parent)) then a else rest

unfoldable pub up : List Entry → ℕ → List Entry
unfolding up_loop
up a j = up_loop (suc j) a j

-- The child that `heap.down` compares with.
unfoldable pub first_child : List Entry → ℕ → ℕ
first_child a i =
    if ltb (2 * i + 2) (length a) && less (entry a (2 * i + 2)) (entry a (2 * i + 1))
    then 2 * i + 2
    else 2 * i + 1

-- The loop of `heap.down`, with the index at which it ends; the length is enough fuel.
unfoldable pub down_loop : ℕ → List Entry → ℕ → List Entry × ℕ
unfolding first_child
down_loop zero a i = (a, i)
down_loop (suc fuel) a i =
    let j = first_child a i in
    let rest = down_loop fuel (exchange a i j) j in
    if leb (length a) (2 * i + 1)
    then (a, i)
    else if less (entry a j) (entry a i)
    then rest
    else (a, i)

unfoldable pub down : List Entry → ℕ → List Entry × ℕ
unfolding down_loop
down a i = down_loop (suc (length a)) a i

-- The loop of `heap.Init`, down from `i - 1`.
unfoldable pub init_from : ℕ → List Entry → List Entry
unfolding down
init_from zero a = a
init_from (suc i) a = init_from i (down a i).0

-- `heap.Init`
unfoldable pub init : List Entry → List Entry
unfolding init_from
init a = init_from (length a / 2) a

-- `heap.Push`
unfoldable pub push : List Entry → Entry → List Entry
unfolding up
push a x = up (a ++ x ∷ []) (length a)

-- `heap.Pop` on a queue that is not empty: the root changes places with the last entry, which `down`
-- does not reach any more and which is then cut off.
unfoldable pub pop : List Entry → Entry × List Entry
unfolding down
pop a = let last = length a - 1 in (entry a 0, (down (take last (exchange a 0 last)) 0).0)

-- `heap.Fix`: up if down has not moved the entry.
unfoldable pub fix : List Entry → ℕ → List Entry
unfolding down up
fix a i = let (b, j) = down a i in if ltb i j then b else up b i
