-- ===== src/Base/Arrays.antt =====
-- Lists as arrays: entries read with a default, and exchanged.
use mathlib.Core.Logic.{∥∥₁_elim}
use native.Mathlib.Nat.{ℕ_set}
use mathlib.Core.List.{Mem, mem-cons_self, mem-cons_of_mem, Perm, Permᴰ, perm_middle, append-nil}
use mathlib.Core.List.Perm
use august.Base.{
  ℕ, zero, suc, ◌<◌, ◌≡◌, refl, ap, ◌∙◌, List, [], ◌∷◌, ◌++◌, arith, ◌==◌, if◌then◌else◌, length,
  get_or, set, take, length-set,
}

module _ {ℓ} {A : Type ℓ} where
  same_length : {a b : List A} → Permᴰ a b → length a ≡ length b
  same_length Permᴰ.nil = refl
  same_length (Permᴰ.cons _ p) = ap suc (same_length p)
  same_length (Permᴰ.swap _ _) = refl
  same_length (Permᴰ.trans p q) = same_length p ∙ same_length q

  pub length-perm : {a b : List A} → Perm a b → length a ≡ length b
  length-perm p = ∥∥₁_elim p (ℕ_set _ _) same_length

  pub last_first-perm : (a : List A) (x : A) → Perm (a ++ x ∷ []) (x ∷ a)
  last_first-perm a x = rw (append-nil a) at (perm_middle {a = x} a [])

module _ {ℓ} {A : Type ℓ} (d : A) where
  abbrev pub at : List A → ℕ → A
  at a i = get_or a i d

  unfoldable pub exchange : List A → ℕ → ℕ → List A
  exchange a i j = set (set a i (at a j)) j (at a i)

  pub at-set :
      (a : List A) (i j : ℕ) (v : A)
      → i < length a
      → at (set a i v) j ≡ (if i == j then v else at a j)
  at-set [] i j v h = absurd (omega arith)
  at-set (x ∷ a) zero zero v h = refl
  at-set (x ∷ a) zero (suc j) v h = ground arith
  at-set (x ∷ a) (suc i) zero v h = ground arith
  at-set (x ∷ a) (suc i) (suc j) v h = ground (arith, at-set a i j v)

  pub at-append : (a b : List A) (i : ℕ) → i < length a → at (a ++ b) i ≡ at a i
  at-append [] b i h = absurd (omega arith)
  at-append (x ∷ a) b zero h = refl
  at-append (x ∷ a) b (suc i) h = at-append a b i (omega arith)

  pub at-take : (n : ℕ) (a : List A) (i : ℕ) → i < n → at (take n a) i ≡ at a i
  at-take zero a i h = absurd (omega arith)
  at-take (suc n) [] i h = refl
  at-take (suc n) (x ∷ a) zero h = refl
  at-take (suc n) (x ∷ a) (suc i) h = at-take n a i (omega arith)

  pub take-append-at : (n : ℕ) (a : List A) → length a ≡ suc n → take n a ++ at a n ∷ [] ≡ a
  take-append-at n [] h = absurd (omega arith)
  take-append-at zero (x ∷ []) h = refl
  take-append-at zero (x ∷ y ∷ a) h = absurd (omega arith)
  take-append-at (suc n) (x ∷ a) h = ap (λ l. x ∷ l) (take-append-at n a (omega arith))

  pub at-Mem : (a : List A) (i : ℕ) → i < length a → Mem (at a i) a
  at-Mem [] i h = absurd (omega arith)
  at-Mem (x ∷ a) zero h = mem-cons_self
  at-Mem (x ∷ a) (suc i) h = mem-cons_of_mem x (at-Mem a i (omega arith))

  pub set-perm : (a : List A) (i : ℕ) (v : A) → i < length a → Perm (at a i ∷ set a i v) (v ∷ a)
  set-perm [] i v h = absurd (omega arith)
  set-perm (x ∷ a) zero v h = Perm.swap v x a
  set-perm (x ∷ a) (suc i) v h =
      Perm.trans (Perm.swap x _ _)
        (Perm.trans (Perm.cons x (set-perm a i v (omega arith))) (Perm.swap v x a))

  pub length-exchange : (a : List A) (i j : ℕ) → length (exchange a i j) ≡ length a
  unfolding exchange
  length-exchange a i j = length-set (set a i (at a j)) j (at a i) ∙ length-set a i (at a j)

  module _ (a : List A) (i j : ℕ) (hi : i < length a) (hj : j < length a) where
    pub at-exchange :
        (c : ℕ)
        → at (exchange a i j) c ≡ (if j == c then at a i else if i == c then at a j else at a c)
    unfolding exchange
    at-exchange c =
        rw (at-set (set a i (at a j)) j c (at a i) (rw length-set hj), at-set a i c (at a j) hi)
          refl

    pub exchange-perm : Perm (exchange a i j) a
    unfolding exchange
    exchange-perm =
        let b = set a i (at a j) in
        let kept : at b j ≡ at a j = ground (arith, at-set a i j (at a j)) in
        let p = rw kept at (set-perm b j (at a i) (rw length-set hj)) in
        Perm.cons_inv (Perm.trans p (set-perm a i (at a j) hi))
