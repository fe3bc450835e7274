-- ===== src/Blockchain/Mining/Search.antt =====
-- blockchain/mining.go: the search for a nonce ends, and leaves no nonce out.
use august.Base.{
  ℕ, zero, suc, ◌+◌, ◌-◌, ◌%◌, ◌≤◌, ◌<◌, ◌≡◌, refl, ap, ◌∙◌, Bool, true, false, some, ◌==◌, arith,
  Bool-cases, inl, inr,
}
use august.Config.{u64_mod}
use august.Blockchain.Primitives.{Crypto}
use august.Blockchain.Header.{BlockHeader, header_hash, meets_difficulty}
use august.Blockchain.Mining.{Nonce, found, nonce_overflow, with_nonce, search, mine_correct_nonce}

module _ (c : Crypto) (bits : ℕ) (h : BlockHeader) where
  -- Whether the header meets the target with a nonce.
  abbrev pub meets : ℕ → Bool
  meets n = meets_difficulty (header_hash c (with_nonce h n)) bits

  -- The first nonce from `start` on that meets the target, below the largest one.
  abbrev pub IsFirst : ℕ → Nonce → Type 0
  IsFirst start (found n) =
      (meets n ≡ true)
      × (start ≤ n)
      × (n < u64_mod - 1)
      × ((m : ℕ) → start ≤ m → m < n → meets m ≡ false)
  IsFirst start nonce_overflow = (m : ℕ) → start ≤ m → m < u64_mod - 1 → meets m ≡ false

  IsFirst-back :
      (start : ℕ) (r : Nonce) → meets start ≡ false → IsFirst (suc start) r → IsFirst start r
  IsFirst-back start (found n) miss (hit, from, below, earlier) = (
    hit,
    omega (arith, from),
    below,
    λ m p q. elim (Bool-cases (m == start)) [
      | inl same ↦ ground arith
      | inr other ↦ earlier m (ground arith) q
    ],
  )
  IsFirst-back start nonce_overflow miss later = λ m p q. elim (Bool-cases (m == start)) [
    | inl same ↦ ground arith
    | inr other ↦ later m (ground arith) q
  ]

  next_search :
      (fuel start : ℕ)
      → meets start ≡ false
      → suc start < u64_mod - 1
      → search c bits (suc fuel) (with_nonce h start)
        ≡ search c bits fuel (with_nonce h (suc start))
  unfolding search
  next_search fuel start miss more =
      let step : (start + 1) % u64_mod ≡ suc start = omega (arith, more) in
      let inner : (suc start == u64_mod - 1) ≡ false = ground arith in
      rw (miss, search, step, inner) (ap (λ n. search c bits fuel (with_nonce h n)) step)

  search-IsFirst :
      (fuel start : ℕ)
      → start < u64_mod - 1
      → u64_mod ≤ fuel + start
      → (r : Nonce) × (search c bits fuel (with_nonce h start) ≡ some r) × IsFirst start r
  unfolding search
  search-IsFirst zero start inside enough = absurd (omega arith)
  search-IsFirst (suc fuel) start inside enough = elim (Bool-cases (meets start)) [
    | inl hit ↦ (
      found start,
      rw (hit, search) refl,
      (hit, omega arith, inside, (λ m p q. absurd (omega arith))),
    )
    | inr miss ↦ elim (Bool-cases ((start + 1) % u64_mod == u64_mod - 1)) [
      | inl last ↦ (
        nonce_overflow,
        rw (miss, last, search) refl,
        λ m p q. (let here : m ≡ start = ground arith in rw here miss),
      )
      | inr more ↦
          let below : suc start < u64_mod - 1 = ground arith in
          let (r, ends, first) = search-IsFirst fuel (suc start) below (omega arith) in
          (r, next_search fuel start miss below ∙ ends, IsFirst-back start r miss first)
    ]
  ]

  -- From a nonce below the largest one, `MineCorrectNonce` ends, with the first nonce from there on
  -- that meets the target, or with the error where no nonce below the largest one does.
  pub mine_correct_nonce-IsFirst :
      (start : ℕ)
      → start < u64_mod - 1
      → (r : Nonce) × (mine_correct_nonce c (with_nonce h start) bits ≡ some r) × IsFirst start r
  unfolding mine_correct_nonce
  mine_correct_nonce-IsFirst start inside = search-IsFirst u64_mod start inside (omega arith)
