-- ===== src/Node/Process/Path.antt =====
-- node/node.go: the way of a header that extends the current chain through `ProcessHeader`.
use august.Base.{ℕ, ◌≡◌, ◌≢◌, refl, ◌∙◌, false, none, some, [], ◌∷◌, ==_iff, arith}
use august.Base.Dict.{Dict, nat_eq}
use august.Blockchain.Header.{BlockHeader, header_hash}
use august.Blockchain.Block.{Block, Chain, block_hash, add_header}
use august.Blockchain.Getters.{get_header}
use august.Blockchain.HeaderChain.{validate_header_structure}
use august.Blockchain.ValidateBlock.{World, validate_block, validate_structure}
use august.Node.State.{NodeState, Environment, try_connect_orphan_children}
use august.Node.Queries.{find_block}
use august.Node.Fork.{ParentChain, check_header_exists, find_parent_chain}
use august.Node.Extend.{handle_current_chain_extension}
use august.Node.Process.{process_header, handle_chain_extension, connect_header}

-- A header with a sound structure that no chain has, on the tip of a chain of the node.
pub record Follows (w : World) (env : Environment) (h : BlockHeader) (p : ParentChain)
    (s : NodeState) : Type 0 where
  pub sound : validate_header_structure w.crypto (block_hash w.crypto w.genesis) h ≡ none
  pub unknown :
      check_header_exists (header_hash w.crypto h) (env.chains_order s.chains) s.memory ≡ false
  pub found : find_parent_chain w h (env.chains_order s.chains) s.memory ≡ some p

module _ (w : World) (env : Environment) (h : BlockHeader) (p : ParentChain) (s : NodeState)
    (f : Follows w env h p s) where
  pub process_header-follows : process_header w env h s ≡ handle_chain_extension w env h p s
  unfolding process_header
  process_header-follows = rw (f.sound, f.unknown, f.found) refl

  pub process_header-extends :
      p.tip ≡ s.current_tip
      → process_header w env h s
        ≡ handle_current_chain_extension w env h (header_hash w.crypto h) p (connect_header w h p s)
  unfolding handle_chain_extension
  process_header-extends current =
      process_header-follows ∙ rw ((==_iff p.tip s.current_tip).1 current) refl

-- The headers of a chain have no part in the validation of a block.
pub validate_block-add_header :
    (w : World) (b : Block) (h : BlockHeader) (chain : Chain)
    → validate_block w b (add_header w.crypto h chain) ≡ validate_block w b chain
unfolding validate_block validate_structure add_header
validate_block-add_header w b h chain = refl

-- A header that no chain of a visit has is not in the chain that a header is found to extend, which
-- has the header of its key.
pub parent-unknown :
    (w : World) (h : BlockHeader) (p : ParentChain) (l : Dict ℕ ℕ) (memory : ℕ → Chain)
    → check_header_exists (header_hash w.crypto h) l memory ≡ false
    → find_parent_chain w h l memory ≡ some p
    → get_header (header_hash w.crypto h) (memory p.chain) ≡ none
unfolding check_header_exists find_parent_chain
parent-unknown w h p [] memory unknown found = cc
parent-unknown w h p ((tip, r) ∷ rest) memory unknown found =
    ground (arith, parent-unknown w h p rest memory)

pub parent-known :
    (w : World) (h : BlockHeader) (p : ParentChain) (l : Dict ℕ ℕ) (memory : ℕ → Chain)
    → find_parent_chain w h l memory ≡ some p
    → get_header p.tip (memory p.chain) ≢ none
unfolding find_parent_chain
parent-known w h p [] memory found = cc
parent-known w h p ((tip, r) ∷ rest) memory found = ground (arith, parent-known w h p rest memory)

-- What a node keeps, where a header is connected.
module _ (w : World) (h : BlockHeader) (p : ParentChain) (s : NodeState) where
  pub connect_header-memory :
      (connect_header w h p s).memory p.chain ≡ add_header w.crypto h (s.memory p.chain)
  unfolding connect_header try_connect_orphan_children
  connect_header-memory = rw ((==_iff p.chain p.chain).1 refl) refl

  pub connect_header-find_block : (k : ℕ) → find_block k (connect_header w h p s) ≡ find_block k s
  unfolding connect_header try_connect_orphan_children find_block
  connect_header-find_block k = refl

  pub connect_header-tip : (connect_header w h p s).current_tip ≡ s.current_tip
  unfolding connect_header try_connect_orphan_children
  connect_header-tip = refl

  pub connect_header-fresh : (connect_header w h p s).fresh ≡ s.fresh
  unfolding connect_header try_connect_orphan_children
  connect_header-fresh = refl
