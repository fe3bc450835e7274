-- ===== src/Node/Indexed/Switching.antt =====
-- node/header_processing.go and tasks.go: a reorganisation keeps the maps of a node indexed.
use august.Base.{
  ℕ, ◌≡◌, ◌<◌, refl, Bool, true, false, Option, none, some, List, [], ◌∷◌, arith, Bool-cases, inl,
  inr,
}
use august.Base.Dict.{Dict, insert, nat_eq}
use august.Blockchain.Account.{States}
use august.Blockchain.Header.{BlockHeader, header_hash}
use august.Blockchain.Block.{Block, Chain, block_hash, add_header, add_block}
use august.Blockchain.ValidateBlock.{World}
use august.Node.Orphans.Filed.{cleanup_stale_orphans-IsFiled}
use august.Node.State.{
  NodeState, Environment, Reply, timeout, answers, current_chain, try_connect_orphan_children,
}
use august.Node.Queries.{tip_of}
use august.Node.Fork.{ParentChain, walk_rounds}
use august.Node.Candidate.{
  headers_to_fetch, outweighs, Replayed, replayed, refused, replay_panics, drop_behind, chains_of,
  least_height, cleanup_below, cleanup_candidate_chains, add_headers, add_blocks, map_headers,
  connect_children, fill_chain, fill_node, last_of, switch_or_keep, finish_replay, replay_reply,
  fetch_and_replay, handle_candidate_chain_extension,
}
use august.Node.Indexed.{
  IsHashed, IsIndexed, IsLive, IsSound, SoundAfter, insert-IsHashed, add_header-IsIndexed,
  add_block-IsIndexed, update-IsIndexed,
}
use august.Node.Indexed.Extending.{insert-IsLive, erase-IsLive}

module _ (w : World) where
  add_headers-IsIndexed :
      (bs : List Block) (chain : Chain)
      → IsIndexed w.crypto chain
      → IsIndexed w.crypto (add_headers w bs chain)
  unfolding add_headers
  add_headers-IsIndexed [] chain indexed = indexed
  add_headers-IsIndexed (b ∷ bs) chain indexed =
      add_headers-IsIndexed bs (add_header w.crypto b.header chain)
        (add_header-IsIndexed w.crypto b.header chain indexed)

  pub add_blocks-IsIndexed :
      (bs : List Block) (chain : Chain)
      → IsIndexed w.crypto chain
      → IsIndexed w.crypto (add_blocks w bs chain)
  unfolding add_blocks
  add_blocks-IsIndexed [] chain indexed = indexed
  add_blocks-IsIndexed (b ∷ bs) chain indexed =
      add_blocks-IsIndexed bs (add_block w.crypto b chain)
        (add_block-IsIndexed w.crypto b chain indexed)

  fill_chain-IsIndexed :
      (bs : List Block) (states : States) (chain : Chain)
      → IsIndexed w.crypto chain
      → IsIndexed w.crypto (fill_chain w bs states chain)
  unfolding fill_chain
  fill_chain-IsIndexed bs states chain indexed =
      let c = w.crypto in
      let with_genesis = add_block c w.genesis (add_header c w.genesis.header chain) in
      add_blocks-IsIndexed bs (add_headers w bs with_genesis) (
        add_headers-IsIndexed bs with_genesis (
          add_block-IsIndexed c w.genesis (add_header c w.genesis.header chain)
            (add_header-IsIndexed c w.genesis.header chain indexed)))

  map_headers-IsHashed :
      (bs : List Block) (m : Dict ℕ BlockHeader)
      → IsHashed (header_hash w.crypto) m
      → IsHashed (header_hash w.crypto) (map_headers w bs m)
  unfolding map_headers
  map_headers-IsHashed [] m hashed = hashed
  map_headers-IsHashed (b ∷ bs) m hashed =
      map_headers-IsHashed bs (insert (block_hash w.crypto b) b.header m)
        (insert-IsHashed (header_hash w.crypto) b.header m hashed)

  connect_children-IsSound :
      (bs : List Block) (s : NodeState) → IsSound w s → IsSound w (connect_children w bs s)
  unfolding connect_children try_connect_orphan_children
  connect_children-IsSound [] s sound = sound
  connect_children-IsSound (b ∷ bs) s sound =
      connect_children-IsSound bs (try_connect_orphan_children (block_hash w.crypto b) s) sound

  connect_children-fresh :
      (bs : List Block) (s : NodeState) → (connect_children w bs s).fresh ≡ s.fresh
  unfolding connect_children try_connect_orphan_children
  connect_children-fresh [] s = refl
  connect_children-fresh (b ∷ bs) s =
      connect_children-fresh bs (try_connect_orphan_children (block_hash w.crypto b) s)

  fill_node-IsSound :
      (p : ParentChain) (bs : List Block) (states : States) (s : NodeState)
      → IsSound w s
      → IsSound w (fill_node w p bs states s)
  unfolding fill_node
  fill_node-IsSound p bs states s (chains, live, headers, submitted, filed, pool) =
      connect_children-IsSound bs _ (
        update-IsIndexed w.crypto s.memory p.chain (fill_chain w bs states (s.memory p.chain))
            chains (fill_chain-IsIndexed bs states (s.memory p.chain) (chains p.chain)),
        live,
        map_headers-IsHashed bs s.headers_map headers,
        submitted,
        filed,
        pool,
      )

  drop_behind-IsLive :
      (least current : ℕ) (memory : ℕ → Chain) (m : Dict ℕ ℕ) (fresh : ℕ)
      → IsLive fresh m
      → IsLive fresh (drop_behind least current memory m)
  unfolding drop_behind
  drop_behind-IsLive least current memory [] fresh live = tt
  drop_behind-IsLive least current memory ((k, r) ∷ m) fresh (first, rest) =
      ground (arith, drop_behind-IsLive least current memory m fresh rest)

  cleanup_below-IsSound :
      (tip : Option Block) (s : NodeState) → IsSound w s → IsSound w (cleanup_below tip s)
  cleanup_below-IsSound none s sound = sound
  cleanup_below-IsSound (some b) s (chains, live, headers, submitted, filed, pool) =
      let least = least_height b.header.height in
      (
        chains,
        drop_behind-IsLive least s.current_tip s.memory s.chains s.fresh live,
        headers,
        submitted,
        cleanup_stale_orphans-IsFiled
            (chains_of s.memory (drop_behind least s.current_tip s.memory s.chains)) s.orphans
            filed,
        pool,
      )

  switch_or_keep-IsSound :
      (heavier : Bool) (p : ParentChain) (last : Block) (s : NodeState)
      → p.chain < s.fresh
      → IsSound w s
      → IsSound w (switch_or_keep w heavier p last s)
  unfolding switch_or_keep cleanup_candidate_chains
  switch_or_keep-IsSound true p last s used (chains, live, headers, submitted, filed, pool) =
      cleanup_below-IsSound _ _ (
        chains,
        insert-IsLive (block_hash w.crypto last) p.chain s.fresh s.chains live used,
        headers,
        submitted,
        filed,
        pool,
      )
  switch_or_keep-IsSound false p last s used (chains, live, headers, submitted, filed, pool) = (
    chains,
    erase-IsLive p.tip s.fresh _
        (insert-IsLive (block_hash w.crypto last) p.chain s.fresh s.chains live used),
    headers,
    submitted,
    filed,
    pool,
  )

  fill_node-fresh :
      (p : ParentChain) (bs : List Block) (states : States) (s : NodeState)
      → (fill_node w p bs states s).fresh ≡ s.fresh
  unfolding fill_node
  fill_node-fresh p bs states s = connect_children-fresh bs _

  module _ (env : Environment) (p : ParentChain) (s : NodeState) (used : p.chain < s.fresh)
      (sound : IsSound w s) where
    finish_replay-Sound : (bs : List Block) (r : Replayed) → SoundAfter w (finish_replay w p bs r s)
    unfolding finish_replay
    finish_replay-Sound bs replay_panics = tt
    finish_replay-Sound bs refused = sound
    finish_replay-Sound [] (replayed states) = tt
    finish_replay-Sound (b ∷ bs) (replayed states) =
        switch_or_keep-IsSound _ p (last_of b bs) (fill_node w p (b ∷ bs) states s)
          (rw (fill_node-fresh p (b ∷ bs) states s) used)
          (fill_node-IsSound p (b ∷ bs) states s sound)

    pub replay_reply-Sound : (r : Reply Block) → SoundAfter w (replay_reply w env p r s)
    replay_reply-Sound timeout = sound
    replay_reply-Sound (answers []) = sound
    replay_reply-Sound (answers (r ∷ rs)) = finish_replay-Sound _ _

    fetch_and_replay-Sound : (ks : Option (List ℕ)) → SoundAfter w (fetch_and_replay w env p ks s)
    fetch_and_replay-Sound none = tt
    fetch_and_replay-Sound (some []) = sound
    fetch_and_replay-Sound (some (k ∷ ks)) = replay_reply-Sound (env.answer_blocks (k ∷ ks))

    pub handle_candidate_chain_extension-Sound :
        (h : BlockHeader) (hash : ℕ)
        → SoundAfter w (handle_candidate_chain_extension w env h hash p s)
    unfolding handle_candidate_chain_extension
    handle_candidate_chain_extension-Sound h hash =
        elim (Bool-cases (outweighs h.total_work (tip_of (current_chain s)))) [
          | inl more ↦ rw more (
              fetch_and_replay-Sound
                (headers_to_fetch (walk_rounds s) hash [] (s.memory p.chain) s))
          | inr less ↦ rw less sound
        ]
