-- ===== src/Blockchain/Merkle.antt =====
-- blockchain/crypto.go: the Merkle trees. The three functions that build one repeat the same loop,
-- which is `merkle_loop` here, over the hashes as numbers.
pub mod Levels
use august.Base.{
  ℕ, zero, suc, ◌+◌, ◌%◌, Bool, true, false, Option, none, some, List, [], ◌∷◌, ◌++◌, ◌==◌, ltb,
  if◌then◌else◌, length, map,
}
use august.Base.Bytes.{Bytes, be_bytes}
use august.Base.Dict.{Dict}
use august.Blockchain.Primitives.{Crypto}
use august.Blockchain.Transaction.{Transaction, get_hash}

-- The hash over a pair.
unfoldable pub hash_pair : Crypto → ℕ → ℕ → ℕ
unfolding be_bytes
hash_pair c a b = c.sha256 (be_bytes 32 a ++ be_bytes 32 b)

-- The inner loop over a list of even length.
unfoldable pub pair_up : Crypto → List ℕ → List ℕ
unfolding hash_pair
pair_up c (a ∷ b ∷ rest) = hash_pair c a b ∷ pair_up c rest
pair_up c rest = []

abbrev last_of : ℕ → List ℕ → ℕ
last_of x [] = x
last_of x (y ∷ ys) = last_of y ys

-- `hashes = append(hashes, hashes[len(hashes)-1])`
abbrev repeat_last : List ℕ → List ℕ
repeat_last [] = []
repeat_last (x ∷ xs) = (x ∷ xs) ++ last_of x xs ∷ []

-- `if len(hashes)%2 == 1`
unfoldable pub even_out : List ℕ → List ℕ
even_out hs = if length hs % 2 == 1 then repeat_last hs else hs

abbrev first_or_zero : List ℕ → ℕ
first_or_zero [] = 0
first_or_zero (h ∷ hs) = h

-- `for len(hashes) > 1`: `none` is lack of fuel; the number of hashes is enough.
unfoldable pub merkle_loop : Crypto → ℕ → List ℕ → Option ℕ
unfolding pair_up even_out
merkle_loop c zero hs = none
merkle_loop c (suc fuel) hs =
    let rest = merkle_loop c fuel (pair_up c (even_out hs)) in
    if ltb 1 (length hs) then rest else some (first_or_zero hs)

-- The zero hash for an empty list.
unfoldable pub merkle_root : Crypto → List ℕ → Option ℕ
merkle_root c [] = some 0
merkle_root c (h ∷ hs) = merkle_loop c (suc (length hs)) (h ∷ hs)

-- `MerkleTransactions`
unfoldable pub merkle_transactions : Crypto → List Transaction → Option ℕ
merkle_transactions c ts = merkle_root c (map (get_hash c) ts)
