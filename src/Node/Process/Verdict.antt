-- ===== src/Node/Process/Verdict.antt =====
-- node/header_processing.go: the validation of a block that the node has, on the current chain.
use august.Base.{◌≡◌, ◌≢◌, refl, sym, ap, ◌∙◌, some}
use august.Base.Dict.{nat_eq}
use august.Blockchain.Block.{Block, block_hash}
use august.Blockchain.Getters.{get_header}
use august.Blockchain.ValidateBlock.{World, Validated, validate_block}
use august.Node.State.{NodeState, Environment}
use august.Node.Queries.{find_block}
use august.Node.Fork.{ParentChain}
use august.Node.Extend.{handle_current_chain_extension, after_validation}
use august.Node.Process.{process_header, connect_header}
use august.Node.Process.Path.{
  Follows, process_header-extends, validate_block-add_header, connect_header-memory,
  connect_header-find_block, parent-unknown, parent-known,
}

-- What is known of a node that a block is given to, whose header extends the current chain.
pub record Extends (w : World) (env : Environment) (b : Block) (p : ParentChain) (s : NodeState)
    : Type 0 where
  pub follows : Follows w env b.header p s
  pub current : p.tip ≡ s.current_tip

module _ (w : World) (env : Environment) (b : Block) (p : ParentChain) (s : NodeState)
    (x : Extends w env b p s) where
  -- The validation of a block that the node has decides about its header.
  pub process_header-validates :
      {v : Validated}
      → find_block (block_hash w.crypto b) s ≡ some b
      → validate_block w b (s.memory p.chain) ≡ v
      → process_header w env b.header s
        ≡ after_validation w b.header (block_hash w.crypto b) p b v (connect_header w b.header p s)
  unfolding handle_current_chain_extension
  process_header-validates kept verdict =
      let kept' = connect_header-find_block w b.header p s (block_hash w.crypto b) ∙ kept in
      let verdict' =
        ap (validate_block w b) (connect_header-memory w b.header p s)
        ∙ validate_block-add_header w b b.header (s.memory p.chain)
        ∙ verdict in
      process_header-extends w env b.header p s x.follows x.current ∙ rw (kept', verdict') refl

  -- The hash is not the key of the chain that is extended.
  pub hash-ne-current_tip : block_hash w.crypto b ≢ s.current_tip
  hash-ne-current_tip same =
      parent-known w b.header p (env.chains_order s.chains) s.memory x.follows.found (
        ap (λ k. get_header k (s.memory p.chain)) (x.current ∙ sym same)
        ∙ parent-unknown w b.header p (env.chains_order s.chains) s.memory x.follows.unknown
            x.follows.found)
