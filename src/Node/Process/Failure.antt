-- ===== src/Node/Process/Failure.antt =====
-- node/orphans.go and header_processing.go: what is left of a header whose block is refused.
use august.Base.{
  ℕ, ◌≡◌, refl, false, none, some, [], ◌∷◌, ◌++◌, ◌==◌, not, if◌then◌else◌, arith, Option-cases,
  inl, inr,
}
use august.Base.Dict.{lookup, insert, erase, nat_eq, lookup-insert, lookup-erase}
use august.Blockchain.Block.{Block, block_hash, add_header}
use august.Blockchain.Getters.{get_header}
use august.Blockchain.ValidateBlock.{World, BlockError, invalid, validate_block}
use august.Node.Orphans.{waiting, remove_orphan}
use august.Node.Orphans.Added.{waiting-add_orphan}
use august.Node.State.{NodeState, Environment, done, try_connect_orphan_children}
use august.Node.Queries.{find_block, find_header, get_chain_head}
use august.Node.Fork.{ParentChain}
use august.Node.Extend.{failed_block, cleanup_failed_header, is_switch}
use august.Node.Process.{process_header, connect_header}
use august.Node.Process.Verdict.{Extends, process_header-validates}
use august.Node.Process.Path.{parent-unknown}

module _ (w : World) (b : Block) (p : ParentChain) (e : BlockError) (s : NodeState) where
  abbrev hash : ℕ
  hash = block_hash w.crypto b

  -- The state after the header was added and taken out again.
  abbrev pub failed : NodeState
  failed = cleanup_failed_header b.header hash p (not (is_switch e)) (connect_header w b.header p s)

  failed-chains :
      (k : ℕ)
      → lookup p.tip s.chains ≡ some p.chain
      → lookup hash s.chains ≡ none
      → lookup k failed.chains ≡ lookup k s.chains
  unfolding cleanup_failed_header connect_header try_connect_orphan_children
  failed-chains k listed fresh = ground (
    arith,
    lookup-insert p.tip k p.chain (erase hash (insert hash p.chain (erase p.tip s.chains))),
    lookup-erase hash k (insert hash p.chain (erase p.tip s.chains)),
    lookup-insert hash k p.chain (erase p.tip s.chains),
    lookup-erase p.tip k s.chains,
  )

  failed-find_header :
      (k : ℕ) → find_header k failed ≡ (if hash == k then none else find_header k s)
  unfolding cleanup_failed_header connect_header try_connect_orphan_children
  failed-find_header k = ground (
    arith,
    lookup-erase hash k (insert hash b.header s.headers_map),
    lookup-insert hash k b.header s.headers_map,
  )

  -- The chains themselves: their headers by lookup, the rest as it was.
  failed-get_header :
      (r k : ℕ)
      → get_header hash (s.memory p.chain) ≡ none
      → get_header k (failed.memory r) ≡ get_header k (s.memory r)
  unfolding cleanup_failed_header connect_header try_connect_orphan_children add_header
  failed-get_header r k fresh = ground (
    arith,
    lookup-erase hash k (insert hash b.header (s.memory p.chain).headers),
    lookup-insert hash k b.header (s.memory p.chain).headers,
  )

  failed-tip : (r : ℕ) → (failed.memory r).tip ≡ (s.memory r).tip
  unfolding cleanup_failed_header connect_header try_connect_orphan_children add_header
  failed-tip r = ground arith

  failed-account_states : (r : ℕ) → (failed.memory r).account_states ≡ (s.memory r).account_states
  unfolding cleanup_failed_header connect_header try_connect_orphan_children add_header
  failed-account_states r = ground arith

  failed-block_index : (r : ℕ) → (failed.memory r).block_index ≡ (s.memory r).block_index
  unfolding cleanup_failed_header connect_header try_connect_orphan_children add_header
  failed-block_index r = ground arith

  failed-current_tip : failed.current_tip ≡ s.current_tip
  unfolding cleanup_failed_header connect_header try_connect_orphan_children
  failed-current_tip = refl

  failed-waiting :
      is_switch e ≡ false
      → waiting b.header.previous_hash failed.orphans
        ≡ waiting b.header.previous_hash (remove_orphan w.crypto b.header s.orphans)
          ++ b.header ∷ []
  unfolding cleanup_failed_header connect_header try_connect_orphan_children
  failed-waiting real =
      rw real (waiting-add_orphan b.header (remove_orphan w.crypto b.header s.orphans))

  failed-head :
      lookup p.tip s.chains ≡ some p.chain
      → lookup hash s.chains ≡ none
      → get_chain_head w failed ≡ get_chain_head w s
  unfolding get_chain_head
  failed-head listed fresh =
      rw (failed-current_tip, failed-chains s.current_tip listed fresh)
        (elim (Option-cases (lookup s.current_tip s.chains)) [
          | inl gone ↦ rw gone refl
          | inr (r, e) ↦ rw (e, failed-tip r) refl
        ])

module _ (w : World) (env : Environment) (b : Block) (p : ParentChain) (e : BlockError)
    (s : NodeState) where
  -- A header that extends the current chain, whose block the node has and refuses, gives that error.
  -- It leaves the head, the keys and pointers of the chains, and the headers, blocks, accounts and tip
  -- of each chain as they were, under no hash but its own another header of the node, and itself last
  -- among the orphans of its parent, unless the error is a switch of chains. The conditions say that
  -- the chain is listed under its tip, and none under the new hash.
  pub process_header-refused :
      Extends w env b p s
      → find_block (block_hash w.crypto b) s ≡ some b
      → validate_block w b (s.memory p.chain) ≡ invalid e
      → lookup p.tip s.chains ≡ some p.chain
      → lookup (block_hash w.crypto b) s.chains ≡ none
      → (s' : NodeState) × (process_header w env b.header s ≡ done (some (failed_block e)) s')
        × (get_chain_head w s' ≡ get_chain_head w s)
        × ((k : ℕ) → lookup k s'.chains ≡ lookup k s.chains)
        × ((r k : ℕ) → get_header k (s'.memory r) ≡ get_header k (s.memory r))
        × ((r : ℕ)
            → ((s'.memory r).block_index ≡ (s.memory r).block_index)
              × ((s'.memory r).account_states ≡ (s.memory r).account_states)
              × ((s'.memory r).tip ≡ (s.memory r).tip))
        × ((k : ℕ)
            → find_header k s' ≡ (if block_hash w.crypto b == k then none else find_header k s))
        × (is_switch e ≡ false
            → waiting b.header.previous_hash s'.orphans
              ≡ waiting b.header.previous_hash (remove_orphan w.crypto b.header s.orphans)
                ++ b.header ∷ [])
  process_header-refused x kept refused listed fresh = (
    failed w b p e s,
    process_header-validates w env b p s x kept refused,
    failed-head w b p e s listed fresh,
    (λ k. failed-chains w b p e s k listed fresh),
    (λ r k. failed-get_header w b p e s r k (
        parent-unknown w b.header p (env.chains_order s.chains) s.memory x.follows.unknown
          x.follows.found)),
    (λ r. (
      failed-block_index w b p e s r,
      failed-account_states w b p e s r,
      failed-tip w b p e s r,
    )),
    failed-find_header w b p e s,
    failed-waiting w b p e s,
  )
