-- ===== src/Node/Ends.antt =====
-- node/header_processing.go: the walks along the headers end.
use august.Base.{
  ℕ, zero, suc, ◌+◌, ◌≡◌, ◌≢◌, ◌<◌, ◌≤◌, ap, none, some, List, [], ◌∷◌, leb, length, ◌==◌,
  if◌then◌else◌, arith, Bool-cases, Option-cases, inl, inr,
}
use august.Base.Dict.{Dict, lookup, nat_eq}
use august.Blockchain.Header.{BlockHeader}
use august.Blockchain.Block.{Chain}
use august.Node.State.{NodeState}
use august.Node.Queries.{find_block, find_header}
use august.Node.Fork.{Walk, walk_back, walk_rounds, note}
use august.Node.Candidate.{headers_to_fetch}

-- Numbers that go down from each header of a map to its parent: the links of the headers go round in
-- no circle.
abbrev pub IsRanked : (ℕ → ℕ) → Dict ℕ BlockHeader → Type 0
IsRanked rank m = (k : ℕ) (h : BlockHeader) → lookup k m ≡ some h → rank h.previous_hash < rank k

-- The entries up to a rank.
weight : (ℕ → ℕ) → ℕ → Dict ℕ BlockHeader → ℕ
weight rank r [] = 0
weight rank r ((k, h) ∷ m) = (if leb (rank k) r then 1 else 0) + weight rank r m

module _ (rank : ℕ → ℕ) where
  weight-le-length : (r : ℕ) (m : Dict ℕ BlockHeader) → weight rank r m ≤ length m
  unfolding weight
  weight-le-length r [] = omega arith
  weight-le-length r ((k, h) ∷ m) = ground (arith, weight-le-length r m)

  weight_mono : (r r' : ℕ) (m : Dict ℕ BlockHeader) → r ≤ r' → weight rank r m ≤ weight rank r' m
  unfolding weight
  weight_mono r r' [] le = omega arith
  weight_mono r r' ((k, h) ∷ m) le = ground (arith, weight_mono r r' m le)

  -- An entry counts from its own rank on.
  weight-lt :
      (r k : ℕ) (h : BlockHeader) (m : Dict ℕ BlockHeader)
      → lookup k m ≡ some h
      → r < rank k
      → weight rank r m < weight rank (rank k) m
  unfolding weight lookup
  weight-lt r k h [] found lt = cc
  weight-lt r k h ((j, g) ∷ m) found lt = elim (Bool-cases (j == k)) [
    | inl here ↦
        let same : j ≡ k = ground arith in
        rw (ap rank same) (ground (arith, weight_mono r (rank k) m))
    | inr there ↦ ground (arith, weight-lt r k h m)
  ]

  module _ (s : NodeState) (ranked : IsRanked rank s.headers_map) where
    walk_back-ends :
        (n genesis hash : ℕ) (k : Walk)
        → weight rank (rank hash) s.headers_map < n
        → walk_back n genesis hash k s ≢ none
    unfolding walk_back
    walk_back-ends zero genesis hash k lt = elim lt [ ]
    walk_back-ends (suc n) genesis hash k lt = elim (Option-cases (find_header hash s)) [
      | inl gone ↦ rw gone (ground arith)
      | inr (h, e) ↦
          let less = ranked hash h e in
          let lighter = weight-lt (rank h.previous_hash) hash h s.headers_map e less in
          let rest =
            walk_back-ends n genesis h.previous_hash (note hash (find_block hash s) k)
              (omega arith) in
          rw e (ground arith)
    ]

    headers_to_fetch-ends :
        (n hash : ℕ) (found : List ℕ) (chain : Chain)
        → weight rank (rank hash) s.headers_map < n
        → headers_to_fetch n hash found chain s ≢ none
    unfolding headers_to_fetch
    headers_to_fetch-ends zero hash found chain lt = elim lt [ ]
    headers_to_fetch-ends (suc n) hash found chain lt = elim (Option-cases (find_header hash s)) [
      | inl gone ↦ ground arith
      | inr (h, e) ↦
          let less = ranked hash h e in
          let lighter = weight-lt (rank h.previous_hash) hash h s.headers_map e less in
          let rest = headers_to_fetch-ends n h.previous_hash (hash ∷ found) chain (omega arith) in
          ground arith
    ]

    -- The rounds of both walks are enough.
    pub walk_back-enough :
        (genesis hash : ℕ) (k : Walk) → walk_back (walk_rounds s) genesis hash k s ≢ none
    walk_back-enough genesis hash k =
        walk_back-ends (walk_rounds s) genesis hash k
          (omega (arith, weight-le-length (rank hash) s.headers_map))

    pub headers_to_fetch-enough :
        (hash : ℕ) (chain : Chain) → headers_to_fetch (walk_rounds s) hash [] chain s ≢ none
    headers_to_fetch-enough hash chain =
        headers_to_fetch-ends (walk_rounds s) hash [] chain
          (omega (arith, weight-le-length (rank hash) s.headers_map))
