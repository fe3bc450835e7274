-- ===== src/Node/Heap/Queue.antt =====
-- node/mempool.go: the operations of the heap.
use mathlib.Core.List.{Perm}
use mathlib.Core.List.Perm
use august.Base.{
  ℕ, zero, suc, ◌-◌, ◌<◌, ◌≡◌, refl, false, List, [], ◌∷◌, ◌++◌, length, take, arith, ◌∙◌,
  length-append,
}
use august.Base.Arrays
use august.Node.Heap.{Entry, less, entry, nobody, exchange, push, pop}
use august.Node.Heap.Order.{parent, IsHeapFrom, less_trans, less_irrefl, UpInv, DownInv}
use august.Node.Heap.Sift.{up-Sifted, down-Sifted}

-- Every edge is in order.
abbrev pub IsHeap : List Entry → Type 0
IsHeap a = IsHeapFrom 0 a

first_below :
    (k : ℕ) (a : List Entry) (i : ℕ)
    → IsHeap a
    → i < k
    → i < length a
    → less (entry a i) (entry a 0) ≡ false
first_below zero a i h f p = absurd (omega arith)
first_below (suc k) a zero h f p = less_irrefl (entry a 0)
first_below (suc k) a (suc i) h f p =
    less_trans (entry a 0) (entry a (parent (suc i))) (entry a (suc i))
      (first_below k a (parent (suc i)) h (omega arith) (omega arith))
      (h (suc i) (omega arith) p (omega arith))

-- No entry comes before the root.
pub root_first :
    (a : List Entry) (i : ℕ) → IsHeap a → i < length a → less (entry a i) (entry a 0) ≡ false
root_first a i h p = first_below (suc i) a i h (omega arith) p

-- `heap.Push` adds the entry and keeps the order.
pub push-IsHeap :
    (a : List Entry) (x : Entry) → IsHeap a → IsHeap (push a x) × Perm (push a x) (x ∷ a)
unfolding push
push-IsHeap a x h =
    let size = length-append a (x ∷ []) in
    let start : UpInv (a ++ x ∷ []) (length a) = record {
      inside = omega (arith, size);
      edges = λ c p q r. ground (
        arith,
        size,
        h c,
        Arrays.at-append nobody a (x ∷ []) c,
        Arrays.at-append nobody a (x ∷ []) (parent c),
      );
      bridged = λ c p q r s t. absurd (omega (arith, size));
    } in
    let (order, perm) = up-Sifted (a ++ x ∷ []) (length a) start in
    (order, Perm.trans perm (Arrays.last_first-perm a x))

module _ (a : List Entry) (n : ℕ) (size : length a ≡ suc n) where
  -- What `heap.Pop` hands to `down`.
  abbrev cut : List Entry
  cut = take n (exchange a 0 n)

  cut-perm : Perm (entry a 0 ∷ cut) a
  cut-perm =
      let whole : cut ++ entry a 0 ∷ [] ≡ exchange a 0 n = ground (
        arith,
        Arrays.take-append-at nobody n (exchange a 0 n)
            (Arrays.length-exchange nobody a 0 n ∙ size),
        Arrays.at-exchange nobody a 0 n (omega arith) (omega arith) n,
      ) in
      Perm.trans (Perm.symm (Arrays.last_first-perm cut (entry a 0)))
        (rw whole (Arrays.exchange-perm nobody a 0 n (omega arith) (omega arith)))

  cut-DownInv : IsHeap a → DownInv 0 cut 0
  cut-DownInv h =
      let at = Arrays.at-exchange nobody a 0 n (omega arith) (omega arith) in
      let kept = Arrays.at-take nobody n (exchange a 0 n) in
      let shorter = Arrays.length-perm cut-perm in
      record {
        edges =
            λ c p q r s. ground (arith, shorter, h c, at c, at (parent c), kept c, kept (parent c));
        bridged = λ c p q r s t. absurd (omega arith);
      }

-- `heap.Pop` takes the root out and keeps the order.
pub pop-IsHeap :
    (a : List Entry)
    → IsHeap a
    → 0 < length a
    → let (x, b) = pop a in (x ≡ entry a 0) × IsHeap b × Perm (x ∷ b) a
unfolding pop
pop-IsHeap a h pos =
    let n = length a - 1 in
    let size : length a ≡ suc n = omega arith in
    let (order, perm) = down-Sifted 0 (cut a n size) 0 (cut-DownInv a n size h) in
    (refl, order, Perm.trans (Perm.cons (entry a 0) perm) (cut-perm a n size))
