-- ===== src/Node/Mempool/Valid.antt =====
-- node/mempool.go: the invariant of the pool.
use mathlib.Core.List.{Perm}
use mathlib.Core.List.Perm
use august.Base.{
  ℕ, suc, ◌+◌, ◌-◌, ◌<◌, ◌≡◌, refl, ◌∙◌, List, [], ◌∷◌, ◌++◌, length-set, ◌==◌, not, length, take,
  set, arith, Bool-cases, inl, inr,
}
use august.Base.Arrays
use august.Base.Dict.{nat_eq}
use august.Node.Heap.{Entry, entry, nobody}
use august.Node.Heap.Order.{parent, less_trans}
use august.Node.Heap.Sift.{FixInv, fix-Sifted}
use august.Node.Heap.Queue.{IsHeap}
use august.Node.Mempool.{lowest_from, lowest, remove_at}

-- An index of the search is inside of the queue.
pub lowest_from_inside :
    (a : List Entry) (i found : ℕ) (x : Entry)
    → found < i + length a
    → lowest_from a i found x < i + length a
unfolding lowest_from
lowest_from_inside [] i found x h = h
lowest_from_inside (e ∷ a) i found x h =
    ground (arith, lowest_from_inside a (suc i) i e, lowest_from_inside a (suc i) found x)

pub lowest_inside : (a : List Entry) → 0 < length a → lowest a < length a
unfolding lowest
lowest_inside a h = omega (arith, lowest_from_inside a 0 0 (entry a 0) (omega arith))

module _ (a : List Entry) (i n : ℕ) (size : length a ≡ suc n) (h : IsHeap a) where
  -- What `removeLowestGasPrice` hands to `heap.Fix`.
  abbrev moved : List Entry
  moved = take n (set a i (entry a n))

  moved-perm : i < n → Perm (entry a i ∷ moved) a
  moved-perm inside =
      let v = entry a n in
      let b = set a i v in
      let kept : entry b n ≡ v = ground (arith, Arrays.at-set nobody a i n v) in
      let whole : moved ++ v ∷ [] ≡ b =
        rw kept at (Arrays.take-append-at nobody n b (length-set a i v ∙ size)) in
      let cut : Perm (v ∷ moved) b =
        Perm.trans (Perm.symm (Arrays.last_first-perm moved v)) (rw whole (Perm.refl b)) in
      Perm.cons_inv (
        Perm.trans (Perm.swap (entry a i) v moved)
          (Perm.trans (Perm.cons (entry a i) cut) (Arrays.set-perm nobody a i v (omega arith))))

  moved-FixInv : i < n → FixInv moved i
  moved-FixInv inside =
      let shorter = Arrays.length-perm (moved-perm inside) in
      let at = λ (c : ℕ). Arrays.at-set nobody a i c (entry a n) (omega arith) in
      let kept = Arrays.at-take nobody n (set a i (entry a n)) in
      record {
        inside = omega arith;
        edges =
            λ c p q r s. ground (arith, shorter, h c, at c, at (parent c), kept c, kept (parent c));
        bridged = λ c p q r s. ground (
          arith,
          shorter,
          h c,
          h i,
          at c,
          at (parent i),
          kept c,
          kept (parent i),
          less_trans (entry a (parent i)) (entry a i) (entry a c),
        );
      }

  cut-perm : Perm (entry a n ∷ take n a) a
  cut-perm =
      Perm.trans (Perm.symm (Arrays.last_first-perm (take n a) (entry a n)))
        (rw (Arrays.take-append-at nobody n a size) (Perm.refl a))

  cut-IsHeap : IsHeap (take n a)
  cut-IsHeap =
      let shorter = Arrays.length-perm cut-perm in
      let kept = Arrays.at-take nobody n a in
      λ c p q r. ground (arith, shorter, h c, kept c, kept (parent c))

pub remove_at-IsHeap :
    (a : List Entry) (i : ℕ)
    → IsHeap a
    → i < length a
    → IsHeap (remove_at a i) × Perm (entry a i ∷ remove_at a i) a
unfolding remove_at
remove_at-IsHeap a i h inside =
    let n = length a - 1 in
    let size : length a ≡ suc n = omega arith in
    elim (Bool-cases (not (i == n))) [
      | inl inner ↦
          let below : i < n = ground arith in
          let (order, perm) = fix-Sifted (moved a i n size h) i (moved-FixInv a i n size h below) in
          rw inner (order, Perm.trans (Perm.cons (entry a i) perm) (moved-perm a i n size h below))
      | inr last ↦
          let here : i ≡ n = ground arith in
          let out : remove_at a i ≡ take n a = rw last refl in
          rw (out, here) (cut-IsHeap a i n size h, cut-perm a i n size h)
    ]
