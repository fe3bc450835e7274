-- ===== src/Types/Literal.antt =====
-- types/bytecode.go: the number that an instruction's text stands for. `set_string` is
-- `big.Int.SetString` at the bases 10 and 16: an optional sign, then digits.
pub mod Digits
use august.Base.{
  ℕ, zero, suc, ◌+◌, ◌-◌, ◌*◌, ◌/◌, ◌%◌, Option, none, some, [], ◌∷◌, ◌&&◌, ltb, leb, ◌==◌,
  if◌then◌else◌, drop,
}
use august.Base.Bytes.{Bytes, has_prefix}
use august.Base.Int.{ℤ, pos, neg}

-- The value of a digit, 255 for any other byte.
unfoldable pub digit_value : ℕ → ℕ
digit_value c =
    if leb b'0' c && leb c b'9'
    then c - b'0'
    else if leb b'a' c && leb c b'z'
    then c - b'a' + 10
    else if leb b'A' c && leb c b'Z'
    then c - b'A' + 10
    else 255

unfoldable pub digits_from : ℕ → ℕ → Bytes → Option ℕ
unfolding digit_value
digits_from base acc [] = some acc
digits_from base acc (c ∷ cs) =
    let rest = digits_from base (acc * base + digit_value c) cs in
    if ltb (digit_value c) base then rest else none

-- At least one digit.
unfoldable pub digits : ℕ → Bytes → Option ℕ
unfolding digits_from
digits base [] = none
digits base (c ∷ cs) = digits_from base 0 (c ∷ cs)

abbrev pub signed_digits : ℕ → Bytes → Option ℤ
signed_digits base s = elim (digits base s) [ none ↦ none | some n ↦ some (pos n) ]

abbrev pub negated_digits : ℕ → Bytes → Option ℤ
negated_digits base s = elim (digits base s) [ none ↦ none | some n ↦ some (neg (pos n)) ]

unfoldable pub set_string : ℕ → Bytes → Option ℤ
unfolding digits
set_string base [] = none
set_string base (c ∷ cs) =
    if c == b'-'
    then negated_digits base cs
    else if c == b'+'
    then signed_digits base cs
    else signed_digits base (c ∷ cs)

abbrev pub hex_prefix : Bytes
hex_prefix = b'0' ∷ b'x' ∷ []

-- `GetValueAsBigInt` on a text that is there.
unfoldable pub value_of_text : Bytes → Option ℤ
unfolding set_string has_prefix
value_of_text [] = some (pos 0)
value_of_text (c ∷ cs) =
    if has_prefix hex_prefix (c ∷ cs)
    then set_string 16 (drop 2 (c ∷ cs))
    else set_string 10 (c ∷ cs)

unfoldable pub hex_digit : ℕ → ℕ
hex_digit d = if ltb d 10 then b'0' + d else b'a' + (d - 10)

-- Hexadecimal digits, in front of a text; `fuel` above the number is enough.
unfoldable pub print_hex_from : ℕ → ℕ → Bytes → Bytes
unfolding hex_digit
print_hex_from zero n acc = acc
print_hex_from (suc fuel) n acc =
    let digit = hex_digit (n % 16) in
    let rest = print_hex_from fuel (n / 16) (digit ∷ acc) in if ltb n 16 then digit ∷ acc else rest

-- `big.Int.Text` at the base 16, of a natural number.
unfoldable pub print_hex : ℕ → Bytes
unfolding print_hex_from
print_hex n = print_hex_from (suc n) n []
