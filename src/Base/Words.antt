-- ===== src/Base/Words.antt =====
-- Numbers written as bytes, the most significant first, and read back.
use native.Mathlib.Nat.{pow-succ', one-le-pow, mul-add-div_right}
use august.Base.{
  ℕ, zero, suc, ◌+◌, ◌*◌, ◌/◌, ◌%◌, ◌^◌, ◌<◌, ◌≡◌, refl, [], ◌∷◌, arith, length, ◌∙◌, ap,
}
use august.Base.Bytes.{Bytes, AllBytes, be_bytes, from_be}

pow_positive : (n : ℕ) → 0 < 256 ^ n
pow_positive n = omega (arith, one-le-pow n 256 (omega arith))

split_step : (p a b f : ℕ) → (a * 256 + b) * p + f ≡ a * (256 * p) + ((0 * 256 + b) * p + f)
split_step p a b f = grind arith

from_be_split : (acc : ℕ) (bs : Bytes) → from_be acc bs ≡ acc * 256 ^ length bs + from_be 0 bs
unfolding from_be
from_be_split acc [] = omega arith
from_be_split acc (b ∷ bs) =
    from_be_split (acc * 256 + b) bs
    ∙ split_step (256 ^ length bs) acc b (from_be 0 bs)
    ∙ rw (pow-succ' 256 (length bs), from_be_split (0 * 256 + b) bs) refl

bound_step : (p b f : ℕ) → b < 256 → f < p → (0 * 256 + b) * p + f < 256 * p
bound_step p b f h k = grind arith

pub from_be_bound : (bs : Bytes) → AllBytes bs → from_be 0 bs < 256 ^ length bs
unfolding from_be
from_be_bound [] h = omega arith
from_be_bound (b ∷ bs) (hb, h) =
    rw (pow-succ' 256 (length bs), from_be_split (0 * 256 + b) bs)
      (bound_step (256 ^ length bs) b (from_be 0 bs) hb (from_be_bound bs h))

digit_at : (p a r : ℕ) → r < p → (a * p + r) / p ≡ a
digit_at p a r h = grind arith

regroup : (p k r : ℕ) → k * (256 * p) + r ≡ k * 256 * p + r
regroup p k r = grind arith

low_digit : (p k r : ℕ) → 0 < p → (k * 256 * p + r) / p % 256 ≡ r / p % 256
low_digit p k r h = rw (mul-add-div_right h (k * 256) r) (omega arith)

-- The low bytes of a number do not depend on what is above them.
be_bytes_low : (n k r : ℕ) → be_bytes n (k * 256 ^ n + r) ≡ be_bytes n r
unfolding be_bytes
be_bytes_low zero k r = refl
be_bytes_low (suc n) k r =
    rw
      (
        pow-succ' 256 n,
        regroup (256 ^ n) k r,
        low_digit (256 ^ n) k r (pow_positive n),
        be_bytes_low n (k * 256) r,
      )
      refl

from_be_cons : (b : ℕ) (bs : Bytes) → from_be 0 (b ∷ bs) ≡ b * 256 ^ length bs + from_be 0 bs
unfolding from_be
from_be_cons b bs =
    let same : 0 * 256 + b ≡ b = omega arith in
    from_be_split (0 * 256 + b) bs ∙ ap (λ x. x * 256 ^ length bs + from_be 0 bs) same

be_bytes_cons :
    (n b f : ℕ) (bs : Bytes)
    → b < 256
    → f < 256 ^ n
    → be_bytes n f ≡ bs
    → be_bytes (suc n) (b * 256 ^ n + f) ≡ b ∷ bs
unfolding be_bytes
be_bytes_cons n b f bs hb hf e =
    let small : b % 256 ≡ b = omega arith in
    rw (digit_at (256 ^ n) b f hf, small, be_bytes_low n b f, e) refl

-- Bytes read as a number are its bytes.
pub be_bytes-from_be : (bs : Bytes) → AllBytes bs → be_bytes (length bs) (from_be 0 bs) ≡ bs
unfolding be_bytes
be_bytes-from_be [] h = refl
be_bytes-from_be (b ∷ bs) (hb, h) =
    rw (from_be_cons b bs) (
      be_bytes_cons (length bs) b (from_be 0 bs) bs hb (from_be_bound bs h) (be_bytes-from_be bs h))
