-- ===== src/Avm/Decimal/Digits.antt =====
-- Decimal texts read back: `big.Int.String` and then `big.Int.SetString`.
use august.Base.{
  ℕ, zero, suc, ◌+◌, ◌*◌, ◌/◌, ◌%◌, ◌≤◌, ◌<◌, ◌≡◌, refl, true, false, Option, none, some, [], ◌∷◌,
  ltb, ◌==◌, arith, Bool-cases, inl, inr, ◌∙◌,
}
use august.Base.Bytes.{Bytes}
use august.Base.Int.{ℤ, pos, negsuc, neg}
use august.Types.Literal.{digit_value, digits_from, digits, set_string}
use august.Avm.Decimal.{print_from, print_nat, print_int}

digit_value_lem : (d : ℕ) → d < 10 → digit_value (b'0' + d) ≡ d
unfolding digit_value
digit_value_lem d h = ground arith

-- One digit more.
digits_from_step :
    (acc n : ℕ) (s : Bytes)
    → digits_from 10 acc ((b'0' + n % 10) ∷ s) ≡ digits_from 10 (acc * 10 + n % 10) s
unfolding digits_from
digits_from_step acc n s =
    let e : digit_value (b'0' + n % 10) ≡ n % 10 = digit_value_lem (n % 10) (omega arith) in
    let l : ltb (n % 10) 10 ≡ true = ground arith in rw (e, l) refl

digits_from-print_from :
    (fuel n : ℕ) (s : Bytes)
    → n < fuel
    → digits_from 10 0 (print_from fuel n s) ≡ digits_from 10 n s
unfolding print_from
digits_from-print_from zero n s h = absurd (omega arith)
digits_from-print_from (suc fuel) n s h = elim (Bool-cases (ltb n 10)) [
  | inl small ↦
      let e : 0 * 10 + n % 10 ≡ n = ground arith in rw small (digits_from_step 0 n s ∙ rw e refl)
  | inr big ↦
      let e : n / 10 * 10 + n % 10 ≡ n = omega arith in
      let ge : 10 ≤ n = ground arith in
      rw big (
        digits_from-print_from fuel (n / 10) ((b'0' + n % 10) ∷ s) (omega arith)
        ∙ digits_from_step (n / 10) n s
        ∙ rw e refl)
]

-- The text begins with a digit.
abbrev BeginsWithDigit : Bytes → Type 0
BeginsWithDigit s = (c : ℕ) × (cs : Bytes) × (s ≡ c ∷ cs) × (48 ≤ c)

print_onto-BeginsWithDigit :
    (fuel n : ℕ) (s : Bytes) → BeginsWithDigit s → BeginsWithDigit (print_from fuel n s)
unfolding print_from
print_onto-BeginsWithDigit zero n s h = h
print_onto-BeginsWithDigit (suc fuel) n s h = elim (Bool-cases (ltb n 10)) [
  | inl small ↦ rw small (b'0' + n % 10, s, refl, omega arith)
  | inr big ↦ rw big (
      print_onto-BeginsWithDigit fuel (n / 10) ((b'0' + n % 10) ∷ s)
        (b'0' + n % 10, s, refl, omega arith))
]

print_from-BeginsWithDigit : (fuel n : ℕ) (s : Bytes) → BeginsWithDigit (print_from (suc fuel) n s)
unfolding print_from
print_from-BeginsWithDigit fuel n s = elim (Bool-cases (ltb n 10)) [
  | inl small ↦ rw small (b'0' + n % 10, s, refl, omega arith)
  | inr big ↦ rw big (
      print_onto-BeginsWithDigit fuel (n / 10) ((b'0' + n % 10) ∷ s)
        (b'0' + n % 10, s, refl, omega arith))
]

positive :
    (o : Option ℕ) (n : ℕ)
    → o ≡ some n
    → (elim o [ none ↦ none | some k ↦ some (pos k) ]) ≡ some (pos n)
positive o n e = rw e refl

set_string_digits :
    (s : Bytes) (n : ℕ)
    → BeginsWithDigit s
    → digits_from 10 0 s ≡ some n
    → set_string 10 s ≡ some (pos n)
unfolding set_string digits digits_from
set_string_digits s n (c, cs, e, h) d =
    let d' : digits 10 (c ∷ cs) ≡ some n = rw e at d in
    let minus : (c == b'-') ≡ false = ground arith in
    let plus : (c == b'+') ≡ false = ground arith in
    rw (e, minus, plus) (positive (digits 10 (c ∷ cs)) n d')

read_digits :
    (s : Bytes) (n : ℕ) → BeginsWithDigit s → digits_from 10 0 s ≡ some n → digits 10 s ≡ some n
unfolding digits digits_from
read_digits s n (c, cs, e, h) d = rw e (rw e at d)

pub digits-print_nat : (n : ℕ) → digits 10 (print_nat n) ≡ some n
unfolding print_nat digits_from
digits-print_nat n =
    read_digits (print_from (suc n) n []) n (print_from-BeginsWithDigit n n [])
      (digits_from-print_from (suc n) n [] (omega arith))

-- The decimal text of a number is read back as the number.
pub set_string-print_nat : (n : ℕ) → set_string 10 (print_nat n) ≡ some (pos n)
unfolding print_nat digits_from
set_string-print_nat n =
    set_string_digits (print_from (suc n) n []) n (print_from-BeginsWithDigit n n [])
      (digits_from-print_from (suc n) n [] (omega arith))

negative :
    (o : Option ℕ) (n : ℕ)
    → o ≡ some (suc n)
    → (elim o [ none ↦ none | some k ↦ some (neg (pos k)) ]) ≡ some (negsuc n)
negative o n e = let signed : neg (pos (suc n)) ≡ negsuc n = ground arith in rw (e, signed) refl

set_string_negated :
    (s : Bytes) (n : ℕ) → digits 10 s ≡ some (suc n) → set_string 10 (b'-' ∷ s) ≡ some (negsuc n)
unfolding set_string
set_string_negated s n e = negative (digits 10 s) n e

-- The decimal text of an integer is read back as the integer.
pub set_string-print_int : (a : ℤ) → set_string 10 (print_int a) ≡ some a
unfolding print_int
set_string-print_int (pos n) = set_string-print_nat n
set_string-print_int (negsuc n) =
    set_string_negated (print_nat (suc n)) n (digits-print_nat (suc n))
