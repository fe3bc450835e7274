-- ===== src/Node/Mempool/Entries.antt =====
-- node/mempool.go: the map from the hash of a transaction to its entry.
use mathlib.Core.HLevel.{⊥_prop}
use mathlib.Core.Logic.{∥∥₁_prop}
use mathlib.Core.Logic.Or
use mathlib.Core.List.{Perm, Mem, mem-cons, not-mem-nil}
use mathlib.Core.List.Perm
use august.Base.{
  ℕ, suc, ◌≤◌, ◌≡◌, ◌≢◌, refl, sym, ap, Bool, none, [], ◌∷◌, ◌==◌, if◌then◌else◌, length, arith,
  Bool-cases, inl, inr,
}
use august.Base.Dict.{Dict, lookup, insert, erase, nat_eq, lookup-insert}
use august.Blockchain.Primitives.{Crypto}
use august.Blockchain.Transaction.{get_hash}
use august.Node.Heap.{Entry}
use august.Node.Mempool.{entries, keep}

-- A key stands once, for the entry of the transaction of that hash, whose price the entry repeats.
abbrev pub IsKeyed : Crypto → Dict ℕ Entry → Type 0
IsKeyed c [] = Unit {0}
IsKeyed c ((k, e) ∷ m) =
    (k ≡ get_hash c e.transaction)
    × (e.gas_price ≡ e.transaction.gas_price)
    × (lookup k m ≡ none)
    × IsKeyed c m

pub lookup-erase :
    (k j : ℕ) (m : Dict ℕ Entry) → lookup j (erase k m) ≡ (if k == j then none else lookup j m)
unfolding lookup erase
lookup-erase k j [] = ground arith
lookup-erase k j ((i, e) ∷ m) = ground (arith, lookup-erase k j m)

pub erase_absent : (k : ℕ) (m : Dict ℕ Entry) → lookup k m ≡ none → erase k m ≡ m
unfolding lookup erase
erase_absent k [] h = refl
erase_absent k ((i, e) ∷ m) h = ground (arith, erase_absent k m)

pub erase-IsKeyed : (c : Crypto) (k : ℕ) (m : Dict ℕ Entry) → IsKeyed c m → IsKeyed c (erase k m)
unfolding erase
erase-IsKeyed c k [] h = h
erase-IsKeyed c k ((i, e) ∷ m) (key, price, once, rest) = elim (Bool-cases (i == k)) [
  | inl same ↦ rw same (erase-IsKeyed c k m rest)
  | inr other ↦ rw other (key, price, ground (arith, lookup-erase k i m), erase-IsKeyed c k m rest)
]

pub insert-IsKeyed :
    (c : Crypto) (e : Entry) (m : Dict ℕ Entry)
    → e.gas_price ≡ e.transaction.gas_price
    → lookup (get_hash c e.transaction) m ≡ none
    → IsKeyed c m
    → IsKeyed c (insert (get_hash c e.transaction) e m)
unfolding insert lookup
insert-IsKeyed c e [] price new h = (refl, price, refl, h)
insert-IsKeyed c e ((i, d) ∷ m) price new (key, kept, once, rest) =
    let k = get_hash c e.transaction in
    elim (Bool-cases (i == k)) [
      | inl same ↦ absurd (ground arith)
      | inr other ↦ rw other (
        key,
        kept,
        ground (arith, lookup-insert k i e m),
        insert-IsKeyed c e m price (rw other at new) rest,
      )
    ]

pub entries-insert :
    (k : ℕ) (e : Entry) (m : Dict ℕ Entry)
    → lookup k m ≡ none
    → Perm (e ∷ entries m) (entries (insert k e m))
unfolding insert lookup entries
entries-insert k e [] new = Perm.refl _
entries-insert k e ((i, d) ∷ m) new = elim (Bool-cases (i == k)) [
  | inl same ↦ absurd (ground arith)
  | inr other ↦
      rw other (Perm.trans (Perm.swap d e _) (Perm.cons d (entries-insert k e m (rw other at new))))
]

pub length-entries : (m : Dict ℕ Entry) → length (entries m) ≡ length m
unfolding entries
length-entries [] = refl
length-entries ((k, e) ∷ m) = ap suc (length-entries m)

-- An entry of the map is found.
mem-lookup :
    (c : Crypto) (m : Dict ℕ Entry) (x : Entry)
    → IsKeyed c m
    → Mem x (entries m)
    → lookup (get_hash c x.transaction) m ≢ none
unfolding lookup entries
mem-lookup c [] x h p = absurd (not-mem-nil p)
mem-lookup c ((k, e) ∷ m) x (key, price, once, rest) p = λ q.
    Or.elim ⊥_prop (mem-cons.0 p)
      (λ same. let here : get_hash c x.transaction ≡ k = rw same (sym key) in ground arith)
      (λ later. elim (Bool-cases (k == get_hash c x.transaction)) [
        | inl here ↦ absurd (ground arith)
        | inr other ↦ mem-lookup c m x rest later (rw other at q)
      ])

-- The entry of the map that an erasure takes away.
pub entries-erase :
    (c : Crypto) (m : Dict ℕ Entry) (x : Entry)
    → IsKeyed c m
    → Mem x (entries m)
    → Perm (x ∷ entries (erase (get_hash c x.transaction) m)) (entries m)
unfolding erase entries
entries-erase c [] x h p = absurd (not-mem-nil p)
entries-erase c ((k, e) ∷ m) x (key, price, once, rest) p =
    elim (Bool-cases (k == get_hash c x.transaction)) [
      | inl here ↦
          let absent : lookup (get_hash c x.transaction) m ≡ none = ground arith in
          rw (here, erase_absent (get_hash c x.transaction) m absent)
            (Or.elim ∥∥₁_prop (mem-cons.0 p) (λ same. rw same (Perm.refl (e ∷ entries m)))
              (λ later. absurd (mem-lookup c m x rest later absent)))
      | inr other ↦
          let moved = λ (later : Mem x (entries m)).
            Perm.trans (Perm.swap e x _) (Perm.cons e (entries-erase c m x rest later)) in
          let apart : x ≢ e =
            λ same. (let here : k ≡ get_hash c x.transaction = rw same key in ground arith) in
          rw other (Or.elim ∥∥₁_prop (mem-cons.0 p) (λ same. absurd (apart same)) moved)
    ]

-- What is kept by a test stays keyed.
lookup-keep :
    (p : Entry → Bool) (k : ℕ) (m : Dict ℕ Entry) → lookup k m ≡ none → lookup k (keep p m) ≡ none
unfolding lookup keep
lookup-keep p k [] h = refl
lookup-keep p k ((i, e) ∷ m) h = elim (Bool-cases (p e)) [
  | inl kept ↦ rw kept (ground (arith, lookup-keep p k m))
  | inr gone ↦ rw gone (ground (arith, lookup-keep p k m))
]

pub keep-IsKeyed :
    (c : Crypto) (p : Entry → Bool) (m : Dict ℕ Entry) → IsKeyed c m → IsKeyed c (keep p m)
unfolding keep
keep-IsKeyed c p [] h = h
keep-IsKeyed c p ((k, e) ∷ m) (key, price, once, rest) = elim (Bool-cases (p e)) [
  | inl kept ↦ rw kept (key, price, lookup-keep p k m once, keep-IsKeyed c p m rest)
  | inr gone ↦ rw gone (keep-IsKeyed c p m rest)
]

pub length-keep : (p : Entry → Bool) (m : Dict ℕ Entry) → length (keep p m) ≤ length m
unfolding keep
length-keep p [] = omega arith
length-keep p ((k, e) ∷ m) = ground (arith, length-keep p m)

-- A test that keeps as many entries keeps all.
pub keep_all : (p : Entry → Bool) (m : Dict ℕ Entry) → length m ≤ length (keep p m) → keep p m ≡ m
unfolding keep
keep_all p [] h = refl
keep_all p ((k, e) ∷ m) h = elim (Bool-cases (p e)) [
  | inl kept ↦ rw kept (ap (λ l. (k, e) ∷ l) (keep_all p m (omega (arith, rw kept at h))))
  | inr gone ↦ absurd (omega (arith, rw gone at h, length-keep p m))
]

pub length-erase : (k : ℕ) (m : Dict ℕ Entry) → length (erase k m) ≤ length m
unfolding erase
length-erase k [] = omega arith
length-erase k ((i, e) ∷ m) = ground (arith, length-erase k m)
