-- ===== src/Node/Mempool/Top.antt =====
-- node/mempool.go: the transactions that `GetTransactions` hands out.
use mathlib.Core.Bool.{Bool-set}
use mathlib.Core.Logic.Or
use mathlib.Core.List.{Perm, Mem, mem-cons, mem-cons_of_mem, not-mem-nil}
use mathlib.Core.List.Perm
use Prim.Native.Nat.{min}
use august.Base.{
  ℕ, zero, suc, ◌<◌, ◌≡◌, refl, sym, Bool, false, List, [], ◌∷◌, ◌++◌, ◌==◌, length, map, arith,
  Bool-cases, inl, inr,
}
use august.Base.Arrays
use august.Blockchain.Primitives.{Crypto}
use august.Node.Heap.{Entry, entry, less, pop}
use august.Node.Heap.Queue.{IsHeap, root_first, pop-IsHeap}
use august.Node.Mempool.{
  Mempool, rebuild_heap, entries, pop_many, keep, keep_only, is_fresh, clean_expired,
  get_transactions,
}
use august.Node.Mempool.Invariant.{IsValid, keep_only-IsValid}

-- No entry of the list comes before the given one.
abbrev pub NoneBefore : Entry → List Entry → Type 0
NoneBefore e l = (x : Entry) → Mem x l → less x e ≡ false

-- Each entry comes in its turn, and before what is left.
abbrev pub Leads : List Entry → List Entry → Type 0
Leads [] rest = Unit {0}
Leads (e ∷ es) rest = NoneBefore e (es ++ rest) × Leads es rest

pub all_mem :
    (P : Entry → Bool) (l : List Entry)
    → ((i : ℕ) → i < length l → P (entry l i) ≡ false)
    → (x : Entry) → Mem x l
    → P x ≡ false
all_mem P [] h x p = absurd (not-mem-nil p)
all_mem P (y ∷ l) h x p =
    Or.elim (Bool-set _ _) (mem-cons.0 p) (λ same. rw same (h 0 (omega arith)))
      (λ later. all_mem P l (λ i q. h (suc i) (omega (arith, q))) x later)

-- The first `n` of a list by priority.
abbrev pub IsTop : ℕ → List Entry → List Entry → Type 0
IsTop n l es =
    (rest : List Entry) × Perm (es ++ rest) l × Leads es rest × (length es ≡ min n (length l))

pop_many-IsTop : (n : ℕ) (a : List Entry) → IsHeap a → IsTop n a (pop_many n a)
unfolding pop_many
pop_many-IsTop zero a h = (a, Perm.refl a, tt, omega arith)
pop_many-IsTop (suc n) a h = elim (Bool-cases (length a == 0)) [
  | inl empty ↦ rw empty (a, Perm.refl a, tt, ground arith)
  | inr full ↦
      let (head, order, perm) = pop-IsHeap a h (ground arith) in
      let (rest, parts, leads, count) = pop_many-IsTop n (pop a).1 order in
      let whole : Perm ((pop a).0 ∷ (pop_many n (pop a).1 ++ rest)) a =
        Perm.trans (Perm.cons (pop a).0 parts) perm in
      rw full (
        rest,
        whole,
        (
          (λ x p. rw head (
              all_mem (λ y. less y (entry a 0)) a (λ i q. root_first a i h q) x
                (Perm.subset whole x (mem-cons_of_mem _ p)))),
          leads,
        ),
        omega (arith, count, Arrays.length-perm perm),
      )
]

pub keep_only-keep :
    (order : List Entry → List Entry) (p : Entry → Bool) (mp : Mempool)
    → (keep_only order p mp).1.transactions ≡ keep p mp.transactions
unfolding keep_only rebuild_heap
keep_only-keep order p mp = ground arith

-- `GetTransactions` hands out the transactions of the first `limit` entries that have not expired, in
-- the order of their priority: no entry that follows one, and none that stays behind, comes before it.
pub get_transactions-IsTop :
    (c : Crypto) (order : List Entry → List Entry)
    → ((l : List Entry) → Perm (order l) l)
    → (limit now : ℕ) (mp : Mempool) → IsValid c mp
    → (es : List Entry) × ((get_transactions order limit now mp).0
        ≡ map (λ (e : Entry). e.transaction) es)
      × IsTop limit (entries (keep (is_fresh now) mp.transactions)) es
unfolding get_transactions clean_expired keep_only
get_transactions-IsTop c order any limit now mp v =
    let mp' = (keep_only order (is_fresh now) mp).1 in
    let v' = keep_only-IsValid c order any (is_fresh now) mp v in
    let (rest, parts, leads, count) = pop_many-IsTop limit mp'.queue v'.order in
    let agrees = rw keep_only-keep at v'.agrees in
    (
      pop_many limit mp'.queue,
      refl,
      (rest, Perm.trans parts agrees, leads, rw (sym (Arrays.length-perm agrees)) count),
    )
