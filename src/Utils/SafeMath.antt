-- ===== src/Utils/SafeMath.antt =====
-- utils/safemath.go: `none` is the error.
use august.Base.{
  ℕ, ◌+◌, ◌-◌, ◌%◌, ◌≤◌, ◌<◌, ◌≡◌, Bool, Option, none, some, ltb, if◌then◌else◌, arith,
}
use august.Config.{u64_mod, max_amount}

-- `SafeAdd`
unfoldable pub safe_add : ℕ → ℕ → Option ℕ
safe_add a b = if ltb (max_amount - b) a then none else some ((a + b) % u64_mod)

-- `SafeSubtract`
unfoldable pub safe_subtract : ℕ → ℕ → Option ℕ
safe_subtract a b = if ltb a b then none else some (a - b)

-- `ValidateAmount`: whether there is no error.
unfoldable pub amount_in_range : ℕ → Bool
amount_in_range amount = if ltb max_amount amount then Bool.false else Bool.true

-- On `uint64` operands the checked sum is the true sum, or there is none and the true sum does not
-- fit.
pub safe_add_lem :
    (a b : ℕ)
    → a < u64_mod
    → b < u64_mod
    → safe_add a b ≡ (if ltb (a + b) u64_mod then some (a + b) else none)
unfolding safe_add
safe_add_lem a b ha hb = ground arith

pub safe_add_fits : (a b : ℕ) → a + b < u64_mod → safe_add a b ≡ some (a + b)
unfolding safe_add
safe_add_fits a b h = ground arith

pub safe_subtract_fits : (a b : ℕ) → b ≤ a → safe_subtract a b ≡ some (a - b)
unfolding safe_subtract
safe_subtract_fits a b h = ground arith
