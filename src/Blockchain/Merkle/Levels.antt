-- ===== src/Blockchain/Merkle/Levels.antt =====
-- blockchain/crypto.go: the levels of a Merkle tree.
use august.Base.{
  ℕ, zero, suc, ◌+◌, ◌/◌, ◌%◌, ◌≤◌, ◌<◌, ◌≡◌, refl, true, some, List, [], ◌∷◌, ◌++◌, ltb, length,
  arith, Bool-cases, inl, inr, length-append, length-map, map, ◌∙◌, sym,
}
use mathlib.Core.List.{append_assoc, map-append}
use august.Blockchain.Primitives.{Crypto}
use august.Blockchain.Transaction.{Transaction, get_hash}
use august.Blockchain.Merkle.{
  pair_up, even_out, merkle_loop, merkle_root, merkle_transactions, last_of, repeat_last,
  first_or_zero,
}

length-pair_up : (c : Crypto) (hs : List ℕ) → length (pair_up c hs) ≡ length hs / 2
unfolding pair_up
length-pair_up c [] = omega arith
length-pair_up c (a ∷ []) = omega arith
length-pair_up c (a ∷ b ∷ rest) = omega (arith, length-pair_up c rest)

length-repeat_last : (h : ℕ) (hs : List ℕ) → length (repeat_last (h ∷ hs)) ≡ suc (suc (length hs))
length-repeat_last h hs = omega (arith, length-append {0} hs (last_of h hs ∷ []))

length-even_out : (hs : List ℕ) → length (even_out hs) ≡ length hs + length hs % 2
unfolding even_out
length-even_out [] = omega arith
length-even_out (h ∷ hs) = ground (arith, length-repeat_last h hs)

-- A level has half as many hashes as the one below, rounded up.
level_length : (c : Crypto) (hs : List ℕ) → length (pair_up c (even_out hs)) ≡ (length hs + 1) / 2
level_length c hs = omega (arith, length-pair_up c (even_out hs), length-even_out hs)

loop_ends :
    (c : Crypto) (fuel : ℕ) (hs : List ℕ)
    → length hs ≤ fuel
    → 0 < fuel
    → (r : ℕ) × (merkle_loop c fuel hs ≡ some r)
unfolding merkle_loop
loop_ends c zero hs h p = absurd (omega arith)
loop_ends c (suc fuel) hs h p = elim (Bool-cases (ltb 1 (length hs))) [
  | inl more ↦ rw more (
      loop_ends c fuel (pair_up c (even_out hs)) (ground (arith, level_length c hs)) (ground arith))
  | inr done ↦ (first_or_zero hs, rw done)
]

-- The root of any list of transactions is computed: one round for each of them is enough.
pub merkle_transactions_total :
    (c : Crypto) (ts : List Transaction) → (r : ℕ) × (merkle_transactions c ts ≡ some r)
unfolding merkle_transactions merkle_root
merkle_transactions_total c [] = (0, refl)
merkle_transactions_total c (t ∷ ts) =
    loop_ends c (suc (length (map (get_hash c) ts))) (map (get_hash c) (t ∷ ts)) (omega arith)
      (omega arith)

-- More rounds than are needed change nothing.
loop_steady :
    (c : Crypto) (fuel : ℕ) (hs : List ℕ)
    → length hs ≤ fuel
    → 0 < fuel
    → merkle_loop c (suc fuel) hs ≡ merkle_loop c fuel hs
unfolding merkle_loop
loop_steady c zero hs h p = absurd (omega arith)
loop_steady c (suc fuel) hs h p = elim (Bool-cases (ltb 1 (length hs))) [
  | inl more ↦ rw more (
      loop_steady c fuel (pair_up c (even_out hs)) (ground (arith, level_length c hs))
        (ground arith))
  | inr done ↦ rw done
]

last_of-append : (x y : ℕ) (xs : List ℕ) → last_of x (xs ++ y ∷ []) ≡ y
last_of-append x y [] = refl
last_of-append x y (z ∷ xs) = last_of-append z y xs

repeat_last-append : (xs : List ℕ) (x : ℕ) → repeat_last (xs ++ x ∷ []) ≡ xs ++ x ∷ x ∷ []
repeat_last-append [] x = refl
repeat_last-append (y ∷ ys) x = rw (append_assoc, last_of-append)

-- An odd level and the level with its last hash written twice are evened out to the same one.
even_out-twice :
    (xs : List ℕ) (x : ℕ)
    → length xs % 2 ≡ 0
    → even_out (xs ++ x ∷ []) ≡ even_out (xs ++ x ∷ x ∷ [])
unfolding even_out
even_out-twice xs x h = ground (
  arith,
  repeat_last-append xs x,
  length-append {0} xs (x ∷ []),
  length-append {0} xs (x ∷ x ∷ []),
)

loop_step :
    (c : Crypto) (fuel : ℕ) (hs : List ℕ)
    → 1 < length hs
    → merkle_loop c (suc fuel) hs ≡ merkle_loop c fuel (pair_up c (even_out hs))
unfolding merkle_loop
loop_step c fuel hs h = let more : ltb 1 (length hs) ≡ true = ground arith in rw more

-- Two lists of more than one hash, the second one longer, that are evened out alike have one root.
same_root :
    (c : Crypto) (hs hs' : List ℕ)
    → even_out hs ≡ even_out hs'
    → length hs' ≡ suc (length hs)
    → 1 < length hs
    → merkle_loop c (suc (length hs)) hs ≡ merkle_loop c (suc (length hs')) hs'
same_root c hs hs' e l h =
    loop_step c (length hs) hs h
    ∙ sym (
        loop_steady c (length hs) (pair_up c (even_out hs)) (omega (arith, level_length c hs))
          (omega arith))
    ∙ rw (e, ← l) (sym (loop_step c (length hs') hs' (omega arith)))

root_of_list :
    (c : Crypto) (hs : List ℕ)
    → 1 < length hs
    → merkle_root c hs ≡ merkle_loop c (suc (length hs)) hs
unfolding merkle_root
root_of_list c [] h = absurd (omega arith)
root_of_list c (x ∷ hs) h =
    sym (loop_steady c (suc (length hs)) (x ∷ hs) (omega arith) (omega arith))

same_root_of_list :
    (c : Crypto) (xs : List ℕ) (x : ℕ)
    → length xs % 2 ≡ 0
    → 2 ≤ length xs
    → merkle_root c (xs ++ x ∷ []) ≡ merkle_root c (xs ++ x ∷ x ∷ [])
same_root_of_list c xs x h n =
    let l₁ = length-append {0} xs (x ∷ []) in
    let l₂ = length-append {0} xs (x ∷ x ∷ []) in
    root_of_list c (xs ++ x ∷ []) (omega (arith, l₁))
    ∙ same_root c (xs ++ x ∷ []) (xs ++ x ∷ x ∷ []) (even_out-twice xs x h) (omega (arith, l₁, l₂))
        (omega (arith, l₁))
    ∙ sym (root_of_list c (xs ++ x ∷ x ∷ []) (omega (arith, l₂)))

-- A block of an odd number of transactions, three or more, has the Merkle root of another block,
-- in which the last transaction stands twice.
pub merkle_transactions-twice :
    (c : Crypto) (ts : List Transaction) (t : Transaction)
    → length ts % 2 ≡ 0
    → 2 ≤ length ts
    → merkle_transactions c (ts ++ t ∷ []) ≡ merkle_transactions c (ts ++ t ∷ t ∷ [])
unfolding merkle_transactions
merkle_transactions-twice c ts t h n =
    rw (map-append, map-append)
      (same_root_of_list c (map (get_hash c) ts) (get_hash c t) (rw length-map h) (rw length-map n))
