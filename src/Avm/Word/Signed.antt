-- ===== src/Avm/Word/Signed.antt =====
-- avm/runtime.go: what the signed operations are on words, numbers below 2^256.
use august.Base.{ℕ, ◌+◌, ◌-◌, ◌*◌, ◌%◌, ◌≤◌, ◌<◌, ◌≡◌, ltb, if◌then◌else◌, arith, suc, ◌∙◌}
use august.Base.Int.{ℤ, pos, negsuc, ◌+ℤ◌, ◌-ℤ◌, ◌*ℤ◌, sub_ℕ}
use august.Avm.Word.{
  mod256, sign256, to_signed256, to_unsigned256, signed_add, signed_sub, signed_mul, signed_lt,
}

-- The integer that a word stands for.
abbrev pub value_of : ℕ → ℤ
value_of a = if ltb a sign256 then pos a else negsuc (mod256 - a - 1)

pub to_signed256-word : (a : ℕ) → a < mod256 → to_signed256 (pos a) ≡ value_of a
unfolding to_signed256 ◌-ℤ◌
to_signed256-word a h = ground arith

-- Reading a word as a signed number and back changes nothing.
pub to_unsigned256-to_signed256 :
    (a : ℕ) → a < mod256 → to_unsigned256 (to_signed256 (pos a)) ≡ pos a
unfolding to_unsigned256 to_signed256 ◌-ℤ◌ ◌+ℤ◌
to_unsigned256-to_signed256 a h = ground arith

-- ADD on words is addition modulo 2^256, and SUB subtraction.
pub signed_add_word :
    (a b : ℕ)
    → a < mod256
    → b < mod256
    → (signed_add (pos a) (pos b) ≡ pos ((a + b) % mod256))
      × (signed_sub (pos a) (pos b) ≡ pos ((a + mod256 - b) % mod256))
unfolding signed_add signed_sub to_unsigned256 to_signed256 ◌-ℤ◌ ◌+ℤ◌
signed_add_word a b ha hb = (ground arith, ground arith)

-- LT on words is the order of the numbers with the sign bit turned over.
pub signed_lt_word :
    (a b : ℕ)
    → a < mod256
    → b < mod256
    → signed_lt (pos a) (pos b) ≡ ltb ((a + sign256) % mod256) ((b + sign256) % mod256)
unfolding signed_lt to_signed256 ◌-ℤ◌
signed_lt_word a b ha hb = ground arith

to_signed256_negative : (k : ℕ) → suc k ≤ sign256 → to_signed256 (pos (mod256 - suc k)) ≡ negsuc k
to_signed256_negative k h = to_signed256-word (mod256 - suc k) (omega arith) ∙ ground arith

to_signed256_positive : (m : ℕ) → m < sign256 → to_signed256 (pos m) ≡ pos m
to_signed256_positive m h = to_signed256-word m (omega arith) ∙ ground arith

times_negative : (m k : ℕ) → pos m *ℤ negsuc k ≡ sub_ℕ 0 (m * suc k)
unfolding ◌*ℤ◌
times_negative m k =
    let e : m * suc k + 0 ≡ m * suc k = omega arith in
    let z : m * 0 + 0 * suc k ≡ 0 = omega arith in rw (e, z)

times_positive : (m k : ℕ) → pos m *ℤ pos k ≡ pos (m * k)
unfolding ◌*ℤ◌
times_positive m k = ground arith

to_unsigned256_negative : (x : ℕ) → 0 < x → to_unsigned256 (sub_ℕ 0 x) ≡ sub_ℕ mod256 x
unfolding to_unsigned256 ◌+ℤ◌
to_unsigned256_negative x h = ground arith

to_unsigned256_positive : (x : ℕ) → to_unsigned256 (pos x) ≡ pos (x % mod256)
unfolding to_unsigned256 ◌+ℤ◌
to_unsigned256_positive x = ground arith

product_positive : (m k : ℕ) → 0 < m → 0 < m * suc k
product_positive m k h = grind arith

-- MUL of two words with the sign bit clear is multiplication modulo 2^256.
pub signed_mul_positive :
    (m k : ℕ) → m < sign256 → k < sign256 → signed_mul (pos m) (pos k) ≡ pos (m * k % mod256)
unfolding signed_mul
signed_mul_positive m k hm hk =
    rw (to_signed256_positive m hm, to_signed256_positive k hk, times_positive)
      (to_unsigned256_positive (m * k))

-- MUL of a positive word and a negative one, -(k + 1), is the product with 2^256 added once, which
-- is a negative number, and no word, where the product is below -2^256.
pub signed_mul_mixed :
    (m k : ℕ)
    → 0 < m
    → m < sign256
    → suc k ≤ sign256
    → signed_mul (pos m) (pos (mod256 - suc k)) ≡ sub_ℕ mod256 (m * suc k)
unfolding signed_mul
signed_mul_mixed m k pm hm hk =
    rw (to_signed256_positive m hm, to_signed256_negative k hk, times_negative)
      (to_unsigned256_negative (m * suc k) (product_positive m k pm))
