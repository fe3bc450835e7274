-- ===== src/Node/Indexed.antt =====
-- node/: the maps of a node and of its chains go by the hashes of what they hold.
pub mod Extending
pub mod Switching
pub mod Forking
pub mod Stepping
pub mod Beside
pub mod Always
use august.Base.{
  ℕ, suc, ◌≡◌, ◌≢◌, ◌<◌, refl, ap, ◌∙◌, Bool, true, false, Option, none, some, List, [], ◌∷◌, ◌==◌,
  if◌then◌else◌, arith, Bool-cases, Option-cases, inl, inr,
}
use august.Base.Dict.{Dict, lookup, insert, erase, nat_eq, lookup-insert, lookup-erase}
use august.Blockchain.Primitives.{Crypto}
use august.Blockchain.Account.{States}
use august.Blockchain.Header.{BlockHeader, header_hash}
use august.Blockchain.Block.{Block, Chain, block_hash, is_higher, add_header, add_block, new_chain}
use august.Blockchain.Getters.{get_block, get_header, set_account_states}
use august.Blockchain.ValidateBlock.{World}
use august.Node.Mempool.Invariant.{IsValid}
use august.Node.Orphans.Filed.{IsFiled}
use august.Node.State.{NodeState, update, Outcome, done, panics, diverges}

-- A map whose keys are the hashes of its values.
abbrev pub IsHashed : {V : Type 0} → (V → ℕ) → Dict ℕ V → Type 0
IsHashed {V} hash m = (k : ℕ) (v : V) → lookup k m ≡ some v → hash v ≡ k

module _ {V : Type 0} (hash : V → ℕ) where
  pub insert-IsHashed :
      (v : V) (m : Dict ℕ V) → IsHashed hash m → IsHashed hash (insert (hash v) v m)
  insert-IsHashed v m h k u found = ground (arith, lookup-insert (hash v) k v m, h k u)

  pub erase-IsHashed : (j : ℕ) (m : Dict ℕ V) → IsHashed hash m → IsHashed hash (erase j m)
  erase-IsHashed j m h k u found = ground (arith, lookup-erase j k m, h k u)

  pub nil-IsHashed : IsHashed hash []
  unfolding lookup
  nil-IsHashed k v found = cc

  pub single-IsHashed : (v : V) → IsHashed hash ((hash v, v) ∷ [])
  unfolding lookup
  single-IsHashed v k u found = ground arith

-- The block of a tip's hash, where a block comes in and is the tip or not.
tip-insert :
    (hash : Block → ℕ) (b t : Block) (m : Dict ℕ Block) (higher : Bool) (tip : Option Block)
    → ((u : Block) → tip ≡ some u → lookup (hash u) m ≢ none)
    → (if higher then some b else tip) ≡ some t
    → lookup (hash t) (insert (hash b) b m) ≢ none
tip-insert hash b t m true tip old found =
    let same : b ≡ t = cc in ground (arith, lookup-insert (hash b) (hash t) b m, ap hash same)
tip-insert hash b t m false tip old found =
    ground (arith, lookup-insert (hash b) (hash t) b m, old t)

-- The headers and blocks of a chain go by their hashes, and it has a block of its tip's hash.
abbrev pub IsIndexed : Crypto → Chain → Type 0
IsIndexed c chain =
    IsHashed (header_hash c) chain.headers
    × IsHashed (block_hash c) chain.block_index
    × ((t : Block) → chain.tip ≡ some t → get_block (block_hash c t) chain ≢ none)

module _ (c : Crypto) where
  pub add_header-IsIndexed :
      (h : BlockHeader) (chain : Chain) → IsIndexed c chain → IsIndexed c (add_header c h chain)
  unfolding add_header
  add_header-IsIndexed h chain (headers, blocks, tip) =
      (insert-IsHashed (header_hash c) h chain.headers headers, blocks, tip)

  pub add_block-IsIndexed :
      (b : Block) (chain : Chain) → IsIndexed c chain → IsIndexed c (add_block c b chain)
  unfolding add_block
  add_block-IsIndexed b chain (headers, blocks, tip) = (
    insert-IsHashed (header_hash c) b.header chain.headers headers,
    insert-IsHashed (block_hash c) b chain.block_index blocks,
    (λ t found.
        tip-insert (block_hash c) b t chain.block_index (is_higher b chain.tip) chain.tip tip
          found),
  )

  pub new_chain-IsIndexed : (genesis : Block) → IsIndexed c (new_chain c genesis)
  unfolding new_chain
  new_chain-IsIndexed genesis = (
    single-IsHashed (header_hash c) genesis.header,
    single-IsHashed (block_hash c) genesis,
    (λ t found. cc),
  )

-- Pointers below a bound.
abbrev pub IsLive : ℕ → Dict ℕ ℕ → Type 0
IsLive fresh [] = Unit {0}
IsLive fresh ((k, r) ∷ m) = (r < fresh) × IsLive fresh m

-- What holds of a node: of each chain, and of the maps; the pointers are in use, the orphans stand
-- under their parents, and the pool is valid.
abbrev pub IsSound : World → NodeState → Type 0
IsSound w s =
    ((r : ℕ) → IsIndexed w.crypto (s.memory r))
    × IsLive s.fresh s.chains
    × IsHashed (header_hash w.crypto) s.headers_map
    × IsHashed (block_hash w.crypto) s.submitted
    × IsFiled s.orphans
    × IsValid w.crypto s.mempool

abbrev pub SoundAfter : {E : Type 0} → World → Outcome E → Type 0
SoundAfter w (done e s) = IsSound w s
SoundAfter w panics = Unit {0}
SoundAfter w diverges = Unit {0}

-- A write to one chain keeps the others.
pub update-IsIndexed :
    (c : Crypto) (memory : ℕ → Chain) (r : ℕ) (chain : Chain)
    → ((a : ℕ) → IsIndexed c (memory a))
    → IsIndexed c chain
    → (a : ℕ) → IsIndexed c (update memory r chain a)
update-IsIndexed c memory r chain all new a = elim (Bool-cases (r == a)) [
  | inl here ↦ rw here new
  | inr there ↦ rw there (all a)
]
