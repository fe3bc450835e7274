-- ===== src/Node/Process/Timeout.antt =====
-- node/header_processing.go: the wait for a block that ends without an answer.
use august.Base.{◌≡◌, ◌≢◌, refl, sym, ap, ◌∙◌, none, [], ◌∷◌, ==_iff, arith}
use august.Base.Dict.{lookup, erase, nat_eq, lookup-insert, lookup-erase}
use august.Blockchain.Header.{BlockHeader, header_hash}
use august.Blockchain.Getters.{get_header}
use august.Blockchain.ValidateBlock.{World}
use august.Node.State.{
  NodeState, Environment, done, timeout, current_chain, try_connect_orphan_children,
}
use august.Node.Queries.{find_block, get_chain_head, empty_head}
use august.Node.Fork.{ParentChain}
use august.Node.Extend.{handle_current_chain_extension}
use august.Node.Process.{process_header, handle_chain_extension, connect_header, current_states}
use august.Node.Process.Path.{
  Follows, process_header-follows, connect_header-find_block, connect_header-tip, parent-known,
  parent-unknown,
}

module _ (w : World) (env : Environment) (h : BlockHeader) (p : ParentChain) (s : NodeState) where
  connected-unlisted :
      header_hash w.crypto h ≢ p.tip → lookup p.tip (connect_header w h p s).chains ≡ none
  unfolding connect_header try_connect_orphan_children
  connected-unlisted apart = ground (
    arith,
    lookup-insert (header_hash w.crypto h) p.tip p.chain (erase p.tip s.chains),
    lookup-erase p.tip p.tip s.chains,
  )

  lost : Follows w env h p s → p.tip ≡ s.current_tip → current_chain (connect_header w h p s) ≡ none
  lost f current =
      let apart : header_hash w.crypto h ≢ p.tip = λ same.
        parent-known w h p (env.chains_order s.chains) s.memory f.found (
          ap (λ k. get_header k (s.memory p.chain)) (sym same)
          ∙ parent-unknown w h p (env.chains_order s.chains) s.memory f.unknown f.found) in
      rw (connect_header-tip w h p s ∙ sym current, connected-unlisted apart) refl

  -- Without a block the header stays connected, and that is all.
  pub handle_chain_extension-timeout :
      p.tip ≡ s.current_tip
      → find_block (header_hash w.crypto h) s ≡ none
      → env.answer_blocks (header_hash w.crypto h ∷ []) ≡ timeout
      → handle_chain_extension w env h p s ≡ done none (connect_header w h p s)
  unfolding handle_chain_extension handle_current_chain_extension
  handle_chain_extension-timeout current absent silent =
      rw
        (
          (==_iff p.tip s.current_tip).1 current,
          connect_header-find_block w h p s (header_hash w.crypto h) ∙ absent,
          silent,
        )
        refl

  -- A header that extends the current chain, whose block the node neither has nor gets in time, is no
  -- error, but leaves the node without a current chain: `GetChainHead` tells of an empty one, and
  -- `ProcessTransaction` validates against no accounts.
  pub process_header-timeout :
      Follows w env h p s
      → p.tip ≡ s.current_tip
      → find_block (header_hash w.crypto h) s ≡ none
      → env.answer_blocks (header_hash w.crypto h ∷ []) ≡ timeout
      → (s' : NodeState) × (process_header w env h s ≡ done none s')
        × (get_chain_head w s' ≡ empty_head)
        × (current_states s' ≡ [])
  unfolding get_chain_head current_states
  process_header-timeout f current absent silent =
      let gone = lost f current in
      (
        connect_header w h p s,
        process_header-follows w env h p s f ∙ handle_chain_extension-timeout current absent silent,
        (rw gone (ground arith)),
        (rw gone (ground arith)),
      )
