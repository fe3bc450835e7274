-- ===== src/Types/Literal/Digits.antt =====
-- types/bytecode.go: texts of hexadecimal digits, read and printed.
use august.Base.{
  ℕ, zero, suc, ◌+◌, ◌*◌, ◌/◌, ◌%◌, ◌≤◌, ◌<◌, ◌≡◌, ◌≢◌, refl, ap, ◌∙◌, true, false, some, [], ◌∷◌,
  ◌==◌, ltb, arith, Bool-cases, inl, inr,
}
use august.Base.Bytes.{Bytes}
use august.Base.Int.{pos}
use august.Types.Literal.{
  digit_value, digits_from, digits, set_string, signed_digits, hex_digit, print_hex_from, print_hex,
}

pub not_sign :
    (c : ℕ) → ltb (digit_value c) 16 ≡ true → ((c == b'-') ≡ false) × ((c == b'+') ≡ false)
unfolding digit_value
not_sign c h = (ground arith, ground arith)

pub first_digit :
    (c : ℕ) (cs : Bytes) (n : ℕ) → digits 16 (c ∷ cs) ≡ some n → ltb (digit_value c) 16 ≡ true
unfolding digits digits_from
first_digit c cs n h = elim (Bool-cases (ltb (digit_value c) 16)) [
  | inr bad ↦ absurd (let h' = rw bad at h in cc)
  | inl good ↦ good
]

pub no_digits : (n : ℕ) → digits 16 [] ≢ some n
unfolding digits
no_digits n h = cc

pub signed-digits : (d : Bytes) (n : ℕ) → digits 16 d ≡ some n → signed_digits 16 d ≡ some (pos n)
signed-digits d n h = rw (h, signed_digits) refl

-- Digits are read as they stand, without a sign.
pub set_string-digits : (d : Bytes) (n : ℕ) → digits 16 d ≡ some n → set_string 16 d ≡ some (pos n)
unfolding set_string
set_string-digits [] n h = absurd (no_digits n h)
set_string-digits (c ∷ cs) n h =
    let (minus, plus) = not_sign c (first_digit c cs n h) in
    rw (minus, plus) (signed-digits (c ∷ cs) n h)

hex_digit-value : (d : ℕ) → d < 16 → digit_value (hex_digit d) ≡ d
unfolding digit_value hex_digit
hex_digit-value d h = ground arith

-- One digit more.
digits_from-hex :
    (acc d : ℕ) (s : Bytes)
    → d < 16
    → digits_from 16 acc (hex_digit d ∷ s) ≡ digits_from 16 (acc * 16 + d) s
unfolding digits_from
digits_from-hex acc d s h =
    let small : ltb d 16 ≡ true = ground arith in rw (hex_digit-value d h, small) refl

digits_from-print_hex :
    (fuel n : ℕ) (s : Bytes)
    → n < fuel
    → digits_from 16 0 (print_hex_from fuel n s) ≡ digits_from 16 n s
unfolding print_hex_from
digits_from-print_hex zero n s h = absurd (omega arith)
digits_from-print_hex (suc fuel) n s h = elim (Bool-cases (ltb n 16)) [
  | inl small ↦
      let e : 0 * 16 + n % 16 ≡ n = ground arith in
      rw small (digits_from-hex 0 (n % 16) s (omega arith) ∙ ap (λ k. digits_from 16 k s) e)
  | inr big ↦
      let e : n / 16 * 16 + n % 16 ≡ n = omega arith in
      let more : 16 ≤ n = ground arith in
      rw big (
        digits_from-print_hex fuel (n / 16) (hex_digit (n % 16) ∷ s) (omega arith)
        ∙ (digits_from-hex (n / 16) (n % 16) s (omega arith) ∙ ap (λ k. digits_from 16 k s) e))
]

print_hex_from_some :
    (fuel n c : ℕ) (s : Bytes) → (d : ℕ) × (t : Bytes) × (print_hex_from fuel n (c ∷ s) ≡ d ∷ t)
unfolding print_hex_from
print_hex_from_some zero n c s = (c, s, refl)
print_hex_from_some (suc fuel) n c s = elim (Bool-cases (ltb n 16)) [
  | inl small ↦ (hex_digit (n % 16), c ∷ s, rw small refl)
  | inr big ↦ rw big (print_hex_from_some fuel (n / 16) (hex_digit (n % 16)) (c ∷ s))
]

print_hex_some : (n : ℕ) → (d : ℕ) × (t : Bytes) × (print_hex n ≡ d ∷ t)
unfolding print_hex print_hex_from
print_hex_some n = elim (Bool-cases (ltb n 16)) [
  | inl small ↦ (hex_digit (n % 16), [], rw small refl)
  | inr big ↦ rw big (print_hex_from_some n (n / 16) (hex_digit (n % 16)) [])
]

digits_some : (s : Bytes) (d : ℕ) (t : Bytes) → s ≡ d ∷ t → digits 16 s ≡ digits_from 16 0 s
unfolding digits
digits_some s d t e = rw e refl

-- A number in hexadecimal digits is read back.
pub digits-print_hex : (n : ℕ) → digits 16 (print_hex n) ≡ some n
unfolding print_hex digits_from
digits-print_hex n =
    let (d, t, e) = print_hex_some n in
    digits_some (print_hex n) d t e ∙ digits_from-print_hex (suc n) n [] (omega arith)
