-- ===== src/Blockchain/Sorting/Sorted.antt =====
-- blockchain/crypto.go: the sort does not depend on the order in which the map is visited.
use mathlib.Core.Bool.{Bool-set}
use mathlib.Core.Logic.Or
use mathlib.Core.List.{Perm, Mem, mem-cons, mem-cons_self, mem-cons_of_mem, not-mem-nil}
use mathlib.Core.List.Perm
use august.Base.{
  ℕ, zero, suc, ◌≤◌, ◌≡◌, refl, ap, Bool, true, false, List, [], ◌∷◌, length, map, arith,
  Bool-cases, inl, inr,
}
use august.Base.Arrays
use august.Blockchain.Sorting.{pass, sort_entries}

-- A strict total order as a Boolean test.
pub record Order {K : Type 0} (gt : K → K → Bool) : Type 0 where
  pub asym : (a b : K) → gt a b ≡ true → gt b a ≡ false
  pub trans : (a b c : K) → gt a b ≡ false → gt b c ≡ false → gt a c ≡ false
  pub antisym : (a b : K) → gt a b ≡ false → gt b a ≡ false → a ≡ b

-- A key has one value.
abbrev pub IsMap : {K V : Type 0} → List (K × V) → Type 0
IsMap {K} {V} l = (x y : K × V) → Mem x l → Mem y l → x.0 ≡ y.0 → x ≡ y

gt_irrefl : {K : Type 0} {gt : K → K → Bool} → Order gt → (a : K) → gt a a ≡ false
gt_irrefl o a = ground (arith, o.asym a a)

module _ {K V : Type 0} (gt : K → K → Bool) (o : Order gt) where
  -- No entry of the list has a smaller key.
  abbrev pub Least : K × V → List (K × V) → Type 0
  Least x l = (y : K × V) → Mem y l → gt x.0 y.0 ≡ false

  abbrev pub IsSorted : List (K × V) → Type 0
  IsSorted [] = Unit {0}
  IsSorted (x ∷ l) = Least x l × IsSorted l

  Least-cons : (x y : K × V) (l : List (K × V)) → gt x.0 y.0 ≡ false → Least x l → Least x (y ∷ l)
  Least-cons x y l h rest z p = Or.elim (Bool-set _ _) (mem-cons.0 p) (λ same. rw same h) (rest z)

  pass-Least :
      (x : K × V) (ys : List (K × V))
      → let (least, rest) = pass gt x ys in
        Perm (least ∷ rest) (x ∷ ys) × Least least rest × (gt least.0 x.0 ≡ false)
  unfolding pass
  pass-Least x [] = (Perm.refl _, (λ z p. absurd (not-mem-nil p)), gt_irrefl o x.0)
  pass-Least x (y ∷ ys) = elim (Bool-cases (gt x.0 y.0)) [
    | inl greater ↦
        let (perm, least, le) = pass-Least y ys in
        let m = (pass gt y ys).0 in
        let le' : gt m.0 x.0 ≡ false = o.trans m.0 y.0 x.0 le (o.asym x.0 y.0 greater) in
        rw greater (
          Perm.trans (Perm.swap x m _) (Perm.cons x perm),
          Least-cons m x (pass gt y ys).1 le' least,
          le',
        )
    | inr kept ↦
        let (perm, least, le) = pass-Least x ys in
        let m = (pass gt x ys).0 in
        rw kept (
          Perm.trans (Perm.swap y m _) (Perm.trans (Perm.cons y perm) (Perm.swap x y ys)),
          Least-cons m y (pass gt x ys).1 (o.trans m.0 x.0 y.0 le kept) least,
          le,
        )
  ]

  Least-perm : (x : K × V) (l l' : List (K × V)) → Perm l' l → Least x l → Least x l'
  Least-perm x l l' p h y q = h y (Perm.subset p y q)

  sort_entries-IsSorted :
      (n : ℕ) (es : List (K × V))
      → length es ≤ n
      → IsSorted (sort_entries gt n es) × Perm (sort_entries gt n es) es
  unfolding sort_entries
  sort_entries-IsSorted zero [] h = (tt, Perm.refl [])
  sort_entries-IsSorted zero (e ∷ es) h = absurd (omega arith)
  sort_entries-IsSorted (suc n) [] h = (tt, Perm.refl [])
  sort_entries-IsSorted (suc n) (e ∷ es) h =
      let (perm, least, le) = pass-Least e es in
      let (x, rest) = pass gt e es in
      let (sorted, same) = sort_entries-IsSorted n rest (omega (arith, Arrays.length-perm perm)) in
      (
        (Least-perm x rest (sort_entries gt n rest) same least, sorted),
        Perm.trans (Perm.cons x same) perm,
      )

  not_before : (x y : K × V) (l : List (K × V)) → Least x l → Mem y (x ∷ l) → gt x.0 y.0 ≡ false
  not_before x y l h p =
      Or.elim (Bool-set _ _) (mem-cons.0 p) (λ same. rw same (gt_irrefl o x.0)) (h y)

  -- What a function makes of two sorted lists of the same entries.
  sorted_same :
      (f : K × V → ℕ) (l l' : List (K × V))
      → IsSorted l
      → IsSorted l'
      → Perm l l'
      → IsMap l
      → map f l ≡ map f l'
  sorted_same f [] [] s s' p m = refl
  sorted_same f [] (y ∷ l') s s' p m = absurd (omega (arith, Arrays.length-perm p))
  sorted_same f (x ∷ l) [] s s' p m = absurd (omega (arith, Arrays.length-perm p))
  sorted_same f (x ∷ l) (y ∷ l') (h, s) (h', s') p m =
      let y_here : Mem y (x ∷ l) = Perm.subset (Perm.symm p) y mem-cons_self in
      let x_there : Mem x (y ∷ l') = Perm.subset p x mem-cons_self in
      let keys = o.antisym x.0 y.0 (not_before x y l h y_here) (not_before y x l' h' x_there) in
      let same : x ≡ y = m x y mem-cons_self y_here keys in
      let rest : Perm l l' = Perm.cons_inv (rw same at p) in
      rw (ap f same) (
        ap (λ hs. f y ∷ hs)
          (sorted_same f l l' s s' rest
            (λ a b q r. m a b (mem-cons_of_mem x q) (mem-cons_of_mem x r))))

  -- In whatever order the entries of a map are listed, the sort lists what a function makes of them in
  -- one order.
  pub sort_entries-perm :
      (f : K × V → ℕ) (l l' : List (K × V))
      → Perm l l'
      → IsMap l
      → map f (sort_entries gt (length l) l) ≡ map f (sort_entries gt (length l') l')
  sort_entries-perm f l l' p m =
      let (s, q) = sort_entries-IsSorted (length l) l (omega arith) in
      let (s', q') = sort_entries-IsSorted (length l') l' (omega arith) in
      sorted_same f _ _ s s' (Perm.trans q (Perm.trans p (Perm.symm q')))
        (λ a b u v. m a b (Perm.subset q a u) (Perm.subset q b v))
