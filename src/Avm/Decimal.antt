-- ===== src/Avm/Decimal.antt =====
-- Decimal printing, as `%d` and `big.Int.String` do it, and the loop of STRTOINT that parses it.
pub mod Digits
use august.Base.{
  ℕ, zero, suc, ◌+◌, ◌-◌, ◌/◌, ◌%◌, Bool, Option, none, some, [], ◌∷◌, ltb, leb, ◌&&◌, ◌==◌,
  if◌then◌else◌,
}
use august.Base.Int.{ℤ, pos, negsuc, ◌+ℤ◌, ◌*ℤ◌, wrap64, neg}
use august.Base.Bytes.{Bytes}

-- `fuel` above the number is enough: each round divides it by ten.
unfoldable pub print_from : ℕ → ℕ → Bytes → Bytes
print_from zero n acc = acc
print_from (suc fuel) n acc =
    let digit = b'0' + n % 10 in
    let rest = print_from fuel (n / 10) (digit ∷ acc) in if ltb n 10 then digit ∷ acc else rest

unfoldable pub print_nat : ℕ → Bytes
unfolding print_from
print_nat n = print_from (suc n) n []

unfoldable pub print_int : ℤ → Bytes
unfolding print_nat
print_int (pos n) = print_nat n
print_int (negsuc n) = b'-' ∷ print_nat (suc n)

abbrev pub is_digit : ℕ → Bool
is_digit c = leb b'0' c && leb c b'9'

-- The digits of STRTOINT: `none` is its error on any other byte. Each step wraps as `int64` does.
unfoldable pub parse_digits : ℤ → Bytes → Option ℤ
unfolding ◌+ℤ◌ ◌*ℤ◌
parse_digits acc [] = some acc
parse_digits acc (c ∷ cs) =
    let rest = parse_digits (wrap64 (wrap64 (acc *ℤ pos 10) +ℤ pos (c - b'0'))) cs in
    if is_digit c then rest else none

abbrev negated : Option ℤ → Option ℤ
negated none = none
negated (some v) = some (wrap64 (neg v))

abbrev parse_negative : Bytes → Option ℤ
parse_negative [] = none
parse_negative (c ∷ cs) = negated (parse_digits (pos 0) (c ∷ cs))

-- The whole of STRTOINT's conversion: the empty string and a lone sign are errors.
unfoldable pub parse_int : Bytes → Option ℤ
unfolding parse_digits
parse_int [] = none
parse_int (c ∷ cs) = if c == b'-' then parse_negative cs else parse_digits (pos 0) (c ∷ cs)
