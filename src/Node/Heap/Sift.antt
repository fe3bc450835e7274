-- ===== src/Node/Heap/Sift.antt =====
-- node/mempool.go: the loops of the heap put it in order again.
use mathlib.Core.List.Perm
use august.Base.{
  ℕ, zero, suc, ◌+◌, ◌*◌, ◌/◌, ◌<◌, ◌≡◌, ◌≢◌, refl, true, false, List, ltb, leb, ◌==◌, ◌&&◌, ◌||◌,
  not, length, arith, Bool-cases, inl, inr, ◌⊎◌,
}
use august.Base.Arrays
use august.Node.Heap.{
  Entry, less, entry, nobody, exchange, up_loop, up, first_child, down_loop, down, init_from, init,
  fix,
}
use august.Node.Heap.Order.{
  parent, IsHeapFrom, less_asym, less_trans, UpInv, DownInv, exchange-UpInv, exchange-DownInv,
  first_child-IsFirstChild, Sifted,
}

exchanged :
    (lo : ℕ) (a b : List Entry) (i j : ℕ)
    → i < length a
    → j < length a
    → Sifted lo (exchange a i j) b
    → Sifted lo a b
exchanged lo a b i j hi hj (order, perm) =
    (order, Perm.trans perm (Arrays.exchange-perm nobody a i j hi hj))

up_loop-Sifted : (k : ℕ) (a : List Entry) (i : ℕ) → i < k → UpInv a i → Sifted 0 a (up_loop k a i)
unfolding up_loop
up_loop-Sifted zero a i h v = absurd (omega arith)
up_loop-Sifted (suc k) a i h v =
    elim (Bool-cases ((parent i == i) || not (less (entry a i) (entry a (parent i))))) [
      | inl done ↦ rw (done, up_loop) ((λ c p q r. ground (arith, v.edges c)), Perm.refl a)
      | inr rises ↦
          let below : less (entry a i) (entry a (parent i)) ≡ true = ground arith in
          let pos : 0 < i = ground arith in
          rw (rises, up_loop)
            (exchanged 0 a _ (parent i) i (omega (arith, v.inside)) v.inside (
              up_loop-Sifted k (exchange a (parent i) i) (parent i) (omega arith)
                (exchange-UpInv a i v pos below)))
    ]

pub up-Sifted : (a : List Entry) (i : ℕ) → UpInv a i → Sifted 0 a (up a i)
unfolding up
up-Sifted a i v = up_loop-Sifted (suc i) a i (omega arith) v

-- A step of `down` that exchanges the entry with its first child.
sinks :
    (fuel : ℕ) (a : List Entry) (i : ℕ)
    → leb (length a) (2 * i + 1) ≡ false
    → less (entry a (first_child a i)) (entry a i) ≡ true
    → down_loop (suc fuel) a i ≡ down_loop fuel (exchange a i (first_child a i)) (first_child a i)
unfolding down_loop
sinks fuel a i inner below = rw (inner, below) refl

-- A step of `down` that ends the loop.
stays :
    (fuel : ℕ) (a : List Entry) (i : ℕ)
    → (leb (length a) (2 * i + 1) ≡ true) ⊎ (less (entry a (first_child a i)) (entry a i) ≡ false)
    → down_loop (suc fuel) a i ≡ (a, i)
unfolding down_loop
stays fuel a i (inl leaf) = rw leaf refl
stays fuel a i (inr settled) = rw settled (ground arith)

down_loop-Sifted :
    (k lo : ℕ) (a : List Entry) (i : ℕ)
    → length a < k + i
    → DownInv lo a i
    → Sifted lo a (down_loop k a i).0
unfolding down_loop
down_loop-Sifted zero lo a i h v = ((λ c p q r. ground (arith, v.edges c)), Perm.refl a)
down_loop-Sifted (suc k) lo a i h v = elim (Bool-cases (leb (length a) (2 * i + 1))) [
  | inl leaf ↦ rw (stays k a i (inl leaf)) ((λ c p q r. ground (arith, v.edges c)), Perm.refl a)
  | inr inner ↦
      let m = first_child a i in
      let s = first_child-IsFirstChild a i (ground arith) in
      elim (Bool-cases (less (entry a m) (entry a i))) [
        | inl below ↦ rw (sinks k a i inner below) (
            exchanged lo a _ i m (omega (arith, s.child_inside, s.is_child)) s.child_inside (
              down_loop-Sifted k lo (exchange a i m) m
                (omega (arith, s.is_child, Arrays.length-exchange nobody a i m))
                (exchange-DownInv lo a i m v s below)))
        | inr settled ↦ rw (stays k a i (inr settled)) (
          (λ c p q r.
              ground (
                arith,
                v.edges c,
                s.none_before c,
                less_trans (entry a i) (entry a m) (entry a c),
              )),
          Perm.refl a,
        )
      ]
]

pub down-Sifted : (lo : ℕ) (a : List Entry) (i : ℕ) → DownInv lo a i → Sifted lo a (down a i).0
unfolding down
down-Sifted lo a i v = down_loop-Sifted (suc (length a)) lo a i (omega arith) v

init_from-Sifted : (i : ℕ) (a : List Entry) → IsHeapFrom i a → Sifted 0 a (init_from i a)
unfolding init_from
init_from-Sifted zero a h = (h, Perm.refl a)
init_from-Sifted (suc i) a h =
    let start : DownInv i a i = record {
      edges = λ c p q r s. h c p q (omega arith);
      bridged = λ c p q r s t. absurd (omega arith);
    } in
    let (order, perm) = down-Sifted i a i start in
    let (order', perm') = init_from-Sifted i (down a i).0 order in (order', Perm.trans perm' perm)

-- `heap.Init` puts any list in order.
pub init-Sifted : (a : List Entry) → Sifted 0 a (init a)
unfolding init
init-Sifted a = init_from-Sifted (length a / 2) a (λ c p q r. absurd (omega arith))

-- Only the edges at `i` may be out of order.
pub record FixInv (a : List Entry) (i : ℕ) : Type 0 where
  pub inside : i < length a
  pub edges :
      (c : ℕ)
      → 0 < c
      → c < length a
      → c ≢ i
      → parent c ≢ i
      → less (entry a c) (entry a (parent c)) ≡ false
  pub bridged :
      (c : ℕ)
      → 0 < c
      → c < length a
      → parent c ≡ i
      → 0 < i
      → less (entry a c) (entry a (parent i)) ≡ false

heap-UpInv : (a : List Entry) (i : ℕ) → i < length a → IsHeapFrom 0 a → UpInv a i
heap-UpInv a i h order = record {
  inside = h;
  edges = λ c p q r. order c p q (omega arith);
  bridged = λ c p q r s t.
      ground (arith, order c, order i, less_trans (entry a (parent i)) (entry a i) (entry a c));
}

-- Where the entry is below its parent, `down` may sink it, and what it leaves is in order.
fix_settled :
    (a : List Entry) (i : ℕ)
    → FixInv a i
    → (0 < i → less (entry a i) (entry a (parent i)) ≡ false)
    → Sifted 0 a (fix a i)
unfolding fix
fix_settled a i v above =
    let start : DownInv 0 a i = record {
      edges = λ c p q r s. ground (arith, v.edges c, above);
      bridged = λ c p q r s t. v.bridged c p q r s;
    } in
    let (order, perm) = down-Sifted 0 a i start in
    let b = (down a i).0 in
    let (order', perm') =
      up-Sifted b i (heap-UpInv b i (omega (arith, v.inside, Arrays.length-perm perm)) order) in
    elim (Bool-cases (ltb i (down a i).1)) [
      | inl moved ↦ rw moved (order, perm)
      | inr kept ↦ rw kept (order', Perm.trans perm' perm)
    ]

-- Where the entry comes before its parent, no child of it does, so that `down` leaves it.
down_kept :
    (a : List Entry) (i : ℕ)
    → FixInv a i
    → 0 < i
    → less (entry a i) (entry a (parent i)) ≡ true
    → down a i ≡ (a, i)
unfolding down
down_kept a i v pos above = elim (Bool-cases (leb (length a) (2 * i + 1))) [
  | inl leaf ↦ stays (length a) a i (inl leaf)
  | inr inner ↦
      let m = first_child a i in
      let s = first_child-IsFirstChild a i (ground arith) in
      let child : parent m ≡ i = ground (arith, s.is_child) in
      stays (length a) a i (
        inr (
          less_trans (entry a i) (entry a (parent i)) (entry a m)
            (less_asym (entry a i) (entry a (parent i)) above)
            (v.bridged m (omega (arith, s.is_child)) s.child_inside child pos)))
]

fix_risen :
    (a : List Entry) (i : ℕ)
    → FixInv a i
    → 0 < i
    → less (entry a i) (entry a (parent i)) ≡ true
    → Sifted 0 a (fix a i)
unfolding fix
fix_risen a i v pos above =
    let start : UpInv a i = record {
      inside = v.inside;
      edges = λ c p q r. ground (
        arith,
        v.edges c,
        v.bridged c p q,
        less_asym (entry a i) (entry a (parent i)),
        less_trans (entry a i) (entry a (parent i)) (entry a c),
      );
      bridged = λ c p q r s t. v.bridged c p q r s;
    } in
    let here : ltb i i ≡ false = ground arith in
    rw (down_kept a i v pos above, here) (up-Sifted a i start)

-- `heap.Fix` puts a heap in order again in which one entry has been replaced.
pub fix-Sifted : (a : List Entry) (i : ℕ) → FixInv a i → Sifted 0 a (fix a i)
fix-Sifted a i v = elim (Bool-cases (ltb 0 i && less (entry a i) (entry a (parent i)))) [
  | inl risen ↦ fix_risen a i v (ground arith) (ground arith)
  | inr settled ↦ fix_settled a i v (λ p. ground arith)
]
