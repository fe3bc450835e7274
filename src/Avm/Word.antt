-- ===== src/Avm/Word.antt =====
-- avm/runtime.go: 256-bit arithmetic in two's complement, on `big.Int` values.
pub mod Signed
use Prim.Native.Nat.{bit_and, bit_or}
use august.Base.{ℕ, ◌^◌, ◌%◌, Bool, if◌then◌else◌, suc}
use august.Base.Int.{
  ℤ, pos, negsuc, ◌+ℤ◌, ◌-ℤ◌, ◌*ℤ◌, ltb_ℤ, eqb_ℤ, mod_ℕ, ediv, neg, abs, signed64, wrap64,
}

-- `mod256` and `sign256`
abbrev pub mod256 : ℕ
mod256 = 2 ^ 256

abbrev pub sign256 : ℕ
sign256 = 2 ^ 255

-- `toSigned256`: the subtraction from 2^256, then the negation.
unfoldable pub to_signed256 : ℤ → ℤ
unfolding ◌-ℤ◌
to_signed256 n = if ltb_ℤ n (pos sign256) then n else neg (pos mod256 -ℤ n)

-- `toUnsigned256`: a negative number has 2^256 added once, any other is reduced.
unfoldable pub to_unsigned256 : ℤ → ℤ
unfolding ◌+ℤ◌
to_unsigned256 n = if ltb_ℤ n (pos 0) then pos mod256 +ℤ n else pos (mod_ℕ n mod256)

unfoldable pub signed_add : ℤ → ℤ → ℤ
unfolding to_signed256 to_unsigned256
signed_add a b = to_unsigned256 (to_signed256 a +ℤ to_signed256 b)

unfoldable pub signed_sub : ℤ → ℤ → ℤ
unfolding to_signed256 to_unsigned256
signed_sub a b = to_unsigned256 (to_signed256 a -ℤ to_signed256 b)

unfoldable pub signed_mul : ℤ → ℤ → ℤ
signed_mul a b = to_unsigned256 (to_signed256 a *ℤ to_signed256 b)

-- `big.Int.Div` is the Euclidean division.
unfoldable pub signed_div : ℤ → ℤ → ℤ
unfolding to_signed256 to_unsigned256 ediv
signed_div a b =
    if eqb_ℤ (to_signed256 b) (pos 0)
    then pos 0
    else to_unsigned256 (ediv (to_signed256 a) (to_signed256 b))

-- `signedCmp a b < 0`; `signedCmp a b > 0` is this with the arguments exchanged.
unfoldable pub signed_lt : ℤ → ℤ → Bool
unfolding to_signed256
signed_lt a b = ltb_ℤ (to_signed256 a) (to_signed256 b)

-- `big.Int.Mod`, which for a negative divisor too takes the remainder by its size.
unfoldable pub big_mod : ℤ → ℤ → ℤ
big_mod a b = if eqb_ℤ b (pos 0) then pos 0 else pos (mod_ℕ a (abs b))

-- `And` and `Or`, then `Mod` by 2^256: the low 256 bits of each in two's complement.
unfoldable pub word_and : ℤ → ℤ → ℤ
word_and a b = pos (bit_and (mod_ℕ a mod256) (mod_ℕ b mod256))

unfoldable pub word_or : ℤ → ℤ → ℤ
word_or a b = pos (bit_or (mod_ℕ a mod256) (mod_ℕ b mod256))

-- `big.Int.Uint64`: the low 64 bits of the absolute value.
unfoldable pub to_uint64 : ℤ → ℕ
to_uint64 x = abs x % 2 ^ 64

-- `int(x.Uint64())`
unfoldable pub to_int : ℤ → ℤ
unfolding to_uint64
to_int x = signed64 (to_uint64 x)

-- `big.Int.Int64`: the low 64 bits of the absolute value as an `int64`, negated if `x` is negative.
unfoldable pub to_int64 : ℤ → ℤ
to_int64 (pos n) = signed64 (n % 2 ^ 64)
to_int64 (negsuc n) = wrap64 (neg (signed64 (suc n % 2 ^ 64)))
