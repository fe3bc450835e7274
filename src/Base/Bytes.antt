-- ===== src/Base/Bytes.antt =====
-- Byte strings as lists of numbers below 256: Go's `string` and `[]byte`.
use Prim.Native.Nat.{ℕ, zero, suc, ◌+◌, ◌*◌, ◌/◌, ◌%◌, ◌^◌, ◌<◌}
use Prim.Native.Char.{code}
use Prim.Native.String.{String}
use mathlib.Core.Path.{◌≡◌}
use mathlib.Core.Logic.{◌↔◌}
use mathlib.Core.Bool.{Bool, true, false, ◌&&◌, ◌||◌}
use mathlib.Core.List.{List, [], ◌∷◌}
use native.Mathlib.Omega.{arith}
use august.Base.Tests.{◌==◌}

abbrev pub Bytes : Type 0
Bytes = List ℕ

-- The bytes of an ASCII text.
abbrev pub ascii : String → Bytes
ascii String.[] = []
ascii (String.◌∷◌ c s) = code c ∷ ascii s

abbrev pub AllBytes : Bytes → Type 0
AllBytes [] = Unit
AllBytes (b ∷ bs) = (b < 256) × AllBytes bs

-- `==` on strings
unfoldable pub bytes_eq : Bytes → Bytes → Bool
bytes_eq [] [] = true
bytes_eq (a ∷ xs) (b ∷ ys) = (a == b) && bytes_eq xs ys
bytes_eq _ _ = false

pub bytes_eq_iff : (a b : Bytes) → (bytes_eq a b ≡ true) ↔ (a ≡ b)
unfolding bytes_eq
bytes_eq_iff [] [] = ground arith
bytes_eq_iff (a ∷ xs) [] = ground arith
bytes_eq_iff [] (b ∷ bs) = ground arith
bytes_eq_iff (a ∷ xs) (b ∷ bs) = ground (arith, bytes_eq_iff xs bs)

-- `strings.HasPrefix`
unfoldable pub has_prefix : Bytes → Bytes → Bool
has_prefix [] s = true
has_prefix (p ∷ ps) [] = false
has_prefix (p ∷ ps) (c ∷ cs) = (p == c) && has_prefix ps cs

-- `strings.Contains s p`
unfoldable pub contains : Bytes → Bytes → Bool
unfolding has_prefix
contains [] p = has_prefix p []
contains (c ∷ cs) p = has_prefix p (c ∷ cs) || contains cs p

-- The `n` bytes of a number, the most significant first: `binary.BigEndian.PutUint64` at 8.
unfoldable pub be_bytes : ℕ → ℕ → Bytes
be_bytes zero x = []
be_bytes (suc n) x = x / 256 ^ n % 256 ∷ be_bytes n x

-- `big.Int.SetBytes`, with an accumulator.
unfoldable pub from_be : ℕ → Bytes → ℕ
from_be acc [] = acc
from_be acc (b ∷ bs) = from_be (acc * 256 + b) bs
