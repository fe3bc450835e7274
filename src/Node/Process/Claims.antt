-- ===== src/Node/Process/Claims.antt =====
-- node/header_processing.go: the total work that a header claims.
use august.Base.{ℕ, ◌≡◌, ◌≢◌, refl, false, Option, none, some, [], ◌∷◌, ==_iff, arith}
use august.Base.Dict.{lookup, insert, nat_eq, lookup-insert, lookup-insert_self}
use august.Blockchain.Header.{BlockHeader, header_hash}
use august.Blockchain.Block.{block_hash, add_header, add_block, new_chain}
use august.Blockchain.Getters.{get_block, get_header}
use august.Blockchain.HeaderChain.{
  HeaderError, validate_header_structure, validate_header_total_work,
}
use august.Blockchain.ValidateBlock.{World}
use august.Node.State.{
  NodeState, Environment, timeout, done, new_node, put_chain, genesis_chain,
  try_connect_orphan_children,
}
use august.Node.Queries.{find_block, find_header}
use august.Node.Fork.{
  ParentChain, if_work_fits, forked, walk_back, build_chain_from_blocks, build_on,
  check_header_exists, find_parent_chain, find_parent_block, handle_fork_creation,
}
use august.Node.Process.{process_header, connect_header, handle_chain_extension, extend_or_fork}
use august.Node.Process.Timeout.{handle_chain_extension-timeout}

module _ (w : World) (env : Environment) (h : BlockHeader) where
  abbrev genesis : ℕ
  genesis = block_hash w.crypto w.genesis

  connect_header-find_header :
      (p : ParentChain) (s : NodeState)
      → find_header (header_hash w.crypto h) (connect_header w h p s) ≡ some h
  unfolding connect_header try_connect_orphan_children
  connect_header-find_header p s = lookup-insert_self (header_hash w.crypto h) h s.headers_map

  -- The first chain has the genesis block and its header, and nothing else.
  genesis_header : get_header genesis (genesis_chain w) ≡ some w.genesis.header
  unfolding add_block
  genesis_header = lookup-insert_self genesis w.genesis.header _

  genesis_block : get_block genesis (genesis_chain w) ≡ some w.genesis
  unfolding add_block
  genesis_block = lookup-insert_self genesis w.genesis _

  -- The state after a fork at the genesis block.
  abbrev at_genesis : NodeState
  at_genesis = record (put_chain 1 (new_chain w.crypto w.genesis) (new_node w)) {
    fresh = 2;
    chains = insert genesis 1 (new_node w).chains;
  }

  fork_at_genesis :
      handle_fork_creation w h (record { block = w.genesis; source = 0 }) (new_node w)
      ≡ forked (record { chain = 1; tip = genesis }) at_genesis
  unfolding handle_fork_creation new_node walk_back build_chain_from_blocks build_on
  fork_at_genesis = rw ((==_iff genesis genesis).1 refl) refl

  -- A node that has just started, and a header on the genesis block.
  module _ (sound : validate_header_structure w.crypto genesis h ≡ none)
      (on_genesis : genesis ≡ h.previous_hash) (other : genesis ≢ header_hash w.crypto h)
      (one_order : env.chains_order ((genesis, 0) ∷ []) ≡ (genesis, 0) ∷ [])
      (silent : env.answer_blocks (header_hash w.crypto h ∷ []) ≡ timeout) where
    start_unknown :
        check_header_exists (header_hash w.crypto h) ((genesis, 0) ∷ []) (λ a. genesis_chain w)
        ≡ false
    unfolding check_header_exists add_block add_header new_chain lookup
    start_unknown = ground (
      arith,
      lookup-insert genesis (header_hash w.crypto h) w.genesis.header
          (insert genesis w.genesis.header ((genesis, w.genesis.header) ∷ [])),
      lookup-insert genesis (header_hash w.crypto h) w.genesis.header
          ((genesis, w.genesis.header) ∷ []),
    )

    start_parent :
        find_parent_chain w h ((genesis, 0) ∷ []) (λ a. genesis_chain w)
        ≡ if_work_fits
            (record { chain = 0; tip = genesis })
            (validate_header_total_work w.crypto genesis h w.genesis.header.total_work)
    unfolding find_parent_chain
    start_parent =
        rw ((==_iff genesis h.previous_hash).1 on_genesis, ← on_genesis, genesis_header) refl

    start_block :
        find_parent_block h ((genesis, 0) ∷ []) (λ a. genesis_chain w)
        ≡ some (record { block = w.genesis; source = 0 })
    unfolding find_parent_block
    start_block = rw (← on_genesis, genesis_block) refl

    start_no_block : find_block (header_hash w.crypto h) (new_node w) ≡ none
    unfolding find_block new_node lookup
    start_no_block = ground arith

    fork_no_block : find_block (header_hash w.crypto h) at_genesis ≡ none
    unfolding find_block
    fork_no_block = start_no_block

    taken :
        (p : ParentChain) (s : NodeState)
        → p.tip ≡ s.current_tip
        → find_block (header_hash w.crypto h) s ≡ none
        → (s' : NodeState) × (handle_chain_extension w env h p s ≡ done none s')
          × (find_header (header_hash w.crypto h) s' ≡ some h)
    taken p s current absent = (
      connect_header w h p s,
      handle_chain_extension-timeout w env h p s current absent silent,
      connect_header-find_header p s,
    )

    -- The header is added, whatever the check of its total work says.
    added :
        (v : Option HeaderError)
        → (s' : NodeState) × (extend_or_fork w env h
              (if_work_fits (record { chain = 0; tip = genesis }) v)
              (new_node w)
            ≡ done none s')
          × (find_header (header_hash w.crypto h) s' ≡ some h)
    unfolding new_node
    added none = taken (record { chain = 0; tip = genesis }) (new_node w) refl start_no_block
    added (some e) =
        rw (one_order, start_block, fork_at_genesis)
          (taken (record { chain = 1; tip = genesis }) at_genesis refl fork_no_block)

    -- A node that has just started takes a header on the genesis block that meets its target, whatever
    -- total work it claims, where the block does not come in time. The header is not the genesis header,
    -- and a map of one entry has one order.
    pub process_header-any_work :
        (s' : NodeState) × (process_header w env h (new_node w) ≡ done none s')
        × (find_header (header_hash w.crypto h) s' ≡ some h)
    unfolding process_header new_node
    process_header-any_work =
        rw (sound, one_order, start_unknown, start_parent)
          (added (validate_header_total_work w.crypto genesis h w.genesis.header.total_work))
