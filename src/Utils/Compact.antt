-- ===== src/Utils/Compact.antt =====
-- utils/convert.go: targets in Bitcoin's compact form, an exponent of 8 bits and a mantissa of 23.
use august.Base.{
  ℕ, zero, suc, ◌+◌, ◌-◌, ◌*◌, ◌/◌, ◌%◌, ◌^◌, [], ◌∷◌, ltb, ◌==◌, if◌then◌else◌, length,
}
use august.Base.Bytes.{Bytes}

-- `CompactToBig`: the shifts are by 8 bits for each step of the exponent from 3.
unfoldable pub compact_to_big : ℕ → ℕ
compact_to_big compact =
    let exponent = compact / 2 ^ 24 in
    let mantissa = compact % 2 ^ 23 in
    if ltb 3 exponent then mantissa * 256 ^ (exponent - 3) else mantissa / 256 ^ (3 - exponent)

-- `big.Int.Bytes`: no leading zeros. Fuel above the number is enough.
unfoldable pub bytes_from : ℕ → ℕ → Bytes → Bytes
bytes_from zero n acc = acc
bytes_from (suc fuel) n acc =
    let rest = bytes_from fuel (n / 256) (n % 256 ∷ acc) in if n == 0 then acc else rest

unfoldable pub big_bytes : ℕ → Bytes
unfolding bytes_from
big_bytes n = bytes_from (suc n) n []

-- The first three bytes, with zeros for those that are not there.
abbrev leading : Bytes → ℕ
leading [] = 0
leading (a ∷ []) = a * 2 ^ 16
leading (a ∷ b ∷ []) = a * 2 ^ 16 + b * 2 ^ 8
leading (a ∷ b ∷ c ∷ rest) = a * 2 ^ 16 + b * 2 ^ 8 + c

-- A mantissa with the sign bit set moves one byte down.
abbrev normalised : ℕ → ℕ → ℕ
normalised exponent mantissa =
    if ltb mantissa (2 ^ 23)
    then exponent * 2 ^ 24 + mantissa
    else (exponent + 1) * 2 ^ 24 + mantissa / 2 ^ 8

-- `BigToCompact`
unfoldable pub big_to_compact : ℕ → ℕ
unfolding big_bytes
big_to_compact target =
    if target == 0 then 0 else normalised (length (big_bytes target)) (leading (big_bytes target))
