-- ===== src/Node/Heap/Order.antt =====
-- node/mempool.go: the order of the heap.
use mathlib.Core.List.{Perm}
use august.Base.{ℕ, ◌+◌, ◌-◌, ◌*◌, ◌/◌, ◌≤◌, ◌<◌, ◌≡◌, ◌≢◌, true, false, List, length, arith, ◌⊎◌}
use august.Base.Arrays
use august.Node.Heap.{Entry, less, entry, nobody, exchange, first_child}

abbrev pub parent : ℕ → ℕ
parent c = (c - 1) / 2

-- No entry from `lo` on comes after a child of it.
abbrev pub IsHeapFrom : ℕ → List Entry → Type 0
IsHeapFrom lo a =
    (c : ℕ) → 0 < c → c < length a → lo ≤ parent c → less (entry a c) (entry a (parent c)) ≡ false

pub less_asym : (x y : Entry) → less x y ≡ true → less y x ≡ false
unfolding less
less_asym x y h = ground arith

pub less_trans : (x y z : Entry) → less y x ≡ false → less z y ≡ false → less z x ≡ false
unfolding less
less_trans x y z h k = ground arith

-- The edges past `i`, from its parent to its children, are in order.
abbrev pub IsBridged : ℕ → List Entry → ℕ → Type 0
IsBridged lo a i =
    (c : ℕ)
    → 0 < c
    → c < length a
    → parent c ≡ i
    → 0 < i
    → lo ≤ parent i
    → less (entry a c) (entry a (parent i)) ≡ false

-- Only the edge above `i` may be out of order.
pub record UpInv (a : List Entry) (i : ℕ) : Type 0 where
  pub inside : i < length a
  pub edges : (c : ℕ) → 0 < c → c < length a → c ≢ i → less (entry a c) (entry a (parent c)) ≡ false
  pub bridged : IsBridged 0 a i

pub exchange-UpInv :
    (a : List Entry) (i : ℕ)
    → UpInv a i
    → 0 < i
    → less (entry a i) (entry a (parent i)) ≡ true
    → UpInv (exchange a (parent i) i) (parent i)
exchange-UpInv a i v pos below =
    let size = Arrays.length-exchange nobody a (parent i) i in
    let at = Arrays.at-exchange nobody a (parent i) i (omega (arith, v.inside)) v.inside in
    record {
      inside = omega (arith, size, v.inside);
      edges = λ c p q r. ground (
        arith,
        size,
        at c,
        at (parent c),
        v.edges c,
        v.bridged c,
        less_asym (entry a i) (entry a (parent i)),
        less_trans (entry a i) (entry a (parent i)) (entry a c),
      );
      bridged = λ c p q r s t. ground (
        arith,
        size,
        at c,
        at (parent (parent i)),
        v.edges c,
        v.edges (parent i),
        less_trans (entry a (parent (parent i))) (entry a (parent i)) (entry a c),
      );
    }

-- Only the edges below `i` may be out of order.
pub record DownInv (lo : ℕ) (a : List Entry) (i : ℕ) : Type 0 where
  pub edges :
      (c : ℕ)
      → 0 < c
      → c < length a
      → lo ≤ parent c
      → parent c ≢ i
      → less (entry a c) (entry a (parent c)) ≡ false
  pub bridged : IsBridged lo a i

-- `m` is a child of `i`, and no child comes before it.
pub record IsFirstChild (a : List Entry) (i m : ℕ) : Type 0 where
  pub child_inside : m < length a
  pub is_child : (m ≡ 2 * i + 1) ⊎ (m ≡ 2 * i + 2)
  pub none_before :
      (c : ℕ) → 0 < c → c < length a → parent c ≡ i → less (entry a c) (entry a m) ≡ false

pub less_irrefl : (x : Entry) → less x x ≡ false
unfolding less
less_irrefl x = ground arith

pub children : (c i : ℕ) → 0 < c → parent c ≡ i → (c ≡ 2 * i + 1) ⊎ (c ≡ 2 * i + 2)
children c i p e = ground arith

pub first_child-IsFirstChild :
    (a : List Entry) (i : ℕ) → 2 * i + 1 < length a → IsFirstChild a i (first_child a i)
unfolding first_child
first_child-IsFirstChild a i h = record {
  child_inside = ground arith;
  is_child = ground arith;
  none_before = λ c p q r. ground (
    arith,
    children c i p r,
    less_asym (entry a (2 * i + 2)) (entry a (2 * i + 1)),
    less_irrefl (entry a c),
  );
}

pub exchange-DownInv :
    (lo : ℕ) (a : List Entry) (i m : ℕ)
    → DownInv lo a i
    → IsFirstChild a i m
    → less (entry a m) (entry a i) ≡ true
    → DownInv lo (exchange a i m) m
exchange-DownInv lo a i m v s below =
    let size = Arrays.length-exchange nobody a i m in
    let at =
      Arrays.at-exchange nobody a i m (omega (arith, s.child_inside, s.is_child)) s.child_inside in
    record {
      edges = λ c p q r t. ground (
        arith,
        size,
        at c,
        at (parent c),
        v.edges c,
        v.bridged m,
        s.is_child,
        s.none_before c,
        less_asym (entry a m) (entry a i),
      );
      bridged = λ c p q r t u. ground (arith, size, at c, at (parent m), v.edges c, s.is_child);
    }

-- `b` has the entries of `a`, in order from `lo`.
abbrev pub Sifted : ℕ → List Entry → List Entry → Type 0
Sifted lo a b = IsHeapFrom lo b × Perm b a
