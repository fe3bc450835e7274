-- ===== src/Blockchain/Getters/AfterAdd.antt =====
-- blockchain/chain.go: what is read from a chain after `AddBlock`.
use august.Base.{
  ℕ, zero, suc, ◌-◌, ◌≤◌, ◌<◌, ◌≡◌, ◌≢◌, refl, ap, ◌∙◌, true, Option, none, some, List, [], ◌∷◌,
  ◌++◌, ◌==◌, leb, length, get_elem?, replicate, if◌then◌else◌, arith, Bool-cases, inl, inr,
  length-append, length-replicate, get_elem?-set_self, get_elem?-set_ne,
}
use august.Base.Dict.{nat_eq, lookup-insert}
use august.Blockchain.Primitives.{Crypto}
use august.Blockchain.Block.{Block, Chain, block_hash, place_at, add_block}
use august.Blockchain.Getters.{get_block, get_header, flatten, get_block_at_height}

get_beyond : (xs : List (Option Block)) (i : ℕ) → length xs ≤ i → get_elem? xs i ≡ none
get_beyond [] i h = refl
get_beyond (x ∷ xs) zero h = absurd (omega arith)
get_beyond (x ∷ xs) (suc i) h = get_beyond xs i (omega arith)

-- Entries that are nil, put behind a list, read as what is not there.
get_padded :
    (xs : List (Option Block)) (n i : ℕ)
    → flatten (get_elem? (xs ++ replicate n none) i) ≡ flatten (get_elem? xs i)
get_padded [] zero i = refl
get_padded [] (suc n) zero = refl
get_padded [] (suc n) (suc i) = get_padded [] n i
get_padded (x ∷ xs) n zero = refl
get_padded (x ∷ xs) n (suc i) = get_padded xs n i

-- A read by height needs no check of the length.
read_height :
    (height : ℕ) (chain : Chain)
    → get_block_at_height height chain ≡ flatten (get_elem? chain.blocks height)
unfolding get_block_at_height
read_height height chain = elim (Bool-cases (leb (length chain.blocks) height)) [
  | inl beyond ↦ rw (beyond, get_beyond chain.blocks height (ground arith)) refl
  | inr inside ↦ rw inside refl
]

get_placed :
    (xs : List (Option Block)) (height i : ℕ) (b : Block)
    → flatten (get_elem? (place_at xs height b) i)
      ≡ (if height == i then some b else flatten (get_elem? xs i))
unfolding place_at
get_placed xs height i b =
    let padded = xs ++ replicate (suc height - length xs) none in
    elim (Bool-cases (height == i)) [
      | inl here ↦
          let same : i ≡ height = ground arith in
          let inside : height < length padded = omega (
            arith,
            length-append xs (replicate (suc height - length xs) none),
            length-replicate {A = Option Block} (suc height - length xs) none,
          ) in
          let found : (height == height) ≡ true = ground arith in
          rw (same, found) (ap flatten (get_elem?-set_self padded height (some b) inside))
      | inr there ↦
          let apart : height ≢ i = ground arith in
          rw there (
            ap flatten (get_elem?-set_ne padded (some b) apart)
            ∙ get_padded xs (suc height - length xs) i)
    ]

-- After `AddBlock` the chain has the block and its header under its hash, and the block at its
-- height; under every other hash and at every other height it has what it had.
pub add_block-getters :
    (c : Crypto) (b : Block) (chain : Chain)
    → let after = add_block c b chain in
      ((k : ℕ) → get_block k after ≡ (if block_hash c b == k then some b else get_block k chain))
      × ((k : ℕ)
          → get_header k after
            ≡ (if block_hash c b == k then some b.header else get_header k chain))
      × ((h : ℕ)
          → get_block_at_height h after
            ≡ (if b.header.height == h then some b else get_block_at_height h chain))
unfolding add_block
add_block-getters c b chain = (
  (λ k. lookup-insert (block_hash c b) k b chain.block_index),
  (λ k. lookup-insert (block_hash c b) k b.header chain.headers),
  (λ h.
      read_height h _
      ∙ (get_placed chain.blocks b.header.height h b ∙ rw (read_height h chain) refl)),
)
