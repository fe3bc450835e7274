-- ===== src/Node/Process/Switch.antt =====
-- node/header_processing.go: when a candidate chain becomes the current one.
use august.Base.{
  ℕ, ◌≡◌, ◌≢◌, ◌⊎◌, refl, sym, ◌∙◌, true, false, Option, none, some, List, [], ◌∷◌, ◌==◌, arith,
  Bool-cases, Option-cases, inl, inr,
}
use august.Base.Bytes.{Bytes}
use august.Base.Dict.{lookup, erase, nat_eq, lookup-insert, lookup-erase}
use august.Blockchain.Account.{States}
use august.Base.Int.{◌<ℤ◌}
use august.Blockchain.Header.{BlockHeader, header_hash, work_value, compare_work}
use august.Blockchain.Block.{Block, block_hash, add_header}
use august.Blockchain.ValidateBlock.{World}
use august.Node.State.{
  NodeState, Environment, Reply, timeout, answers, Outcome, done, panics, diverges, current_chain,
  try_connect_orphan_children,
}
use august.Node.Queries.{tip_of}
use august.Node.Fork.{ParentChain, walk_rounds}
use august.Node.Extend.{NodeError, fetched}
use august.Node.Candidate.{
  headers_to_fetch, outweighs, Replayed, replayed, refused, replay_panics, replay, replay_chain,
  cleanup_below, cleanup_candidate_chains, connect_children, fill_node, last_of, switch_or_keep,
  finish_replay, replay_reply, fetch_and_replay, handle_candidate_chain_extension,
}
use august.Node.Process.{process_header, connect_header, handle_chain_extension}
use august.Node.Process.Path.{Follows, process_header-follows, connect_header-tip}

-- A tip that claims less work.
abbrev pub Outweighed : Bytes → Option Block → Type 0
Outweighed work tip =
    (t : Block) × (tip ≡ some t) × (work_value t.header.total_work <ℤ work_value work)

outweighs-Outweighed :
    (work : Bytes) (tip : Option Block) → outweighs work tip ≡ true → Outweighed work tip
unfolding outweighs compare_work
outweighs-Outweighed work none more = cc
outweighs-Outweighed work (some t) more = (t, refl, ground arith)

-- The current tip is the last of blocks that were validated one after another from the genesis block,
-- and claims more work than the tip that a node had.
abbrev pub Switched : World → NodeState → NodeState → Type 0
Switched w s s' =
    (b : Block) × (bs : List Block) × (states : States) × (replay w (b ∷ bs) (replay_chain w)
      ≡ replayed states)
    × (s'.current_tip ≡ block_hash w.crypto (last_of b bs))
    × Outweighed (last_of b bs).header.total_work (tip_of (current_chain s))

abbrev Moves : World → NodeState → Outcome NodeError → Type 0
Moves w s (done e s') = (s'.current_tip ≡ s.current_tip) ⊎ Switched w s s'
Moves w s panics = Unit {0}
Moves w s diverges = Unit {0}

module _ (w : World) where
  cleanup_below-tip :
      (tip : Option Block) (s : NodeState) → (cleanup_below tip s).current_tip ≡ s.current_tip
  cleanup_below-tip none s = refl
  cleanup_below-tip (some b) s = refl

  connect_children-tip :
      (bs : List Block) (s : NodeState) → (connect_children w bs s).current_tip ≡ s.current_tip
  unfolding connect_children try_connect_orphan_children
  connect_children-tip [] s = refl
  connect_children-tip (b ∷ bs) s =
      connect_children-tip bs (try_connect_orphan_children (block_hash w.crypto b) s)

  kept-tip :
      (p : ParentChain) (last : Block) (bs : List Block) (states : States) (s : NodeState)
      → (switch_or_keep w false p last (fill_node w p bs states s)).current_tip ≡ s.current_tip
  unfolding switch_or_keep fill_node
  kept-tip p last bs states s = connect_children-tip bs _

  switched-tip :
      (p : ParentChain) (last : Block) (s : NodeState)
      → (switch_or_keep w true p last s).current_tip ≡ block_hash w.crypto last
  unfolding switch_or_keep cleanup_candidate_chains
  switched-tip p last s = cleanup_below-tip _ _

  module _ (env : Environment) (p : ParentChain) (s : NodeState) where
    finish_replay-Moves :
        (bs : List Block) (r : Replayed)
        → replay w bs (replay_chain w) ≡ r
        → Moves w s (finish_replay w p bs r s)
    unfolding finish_replay
    finish_replay-Moves bs replay_panics same = tt
    finish_replay-Moves bs refused same = inl refl
    finish_replay-Moves [] (replayed states) same = tt
    finish_replay-Moves (b ∷ bs) (replayed states) same =
        elim (Bool-cases (outweighs (last_of b bs).header.total_work (tip_of (current_chain s)))) [
          | inl more ↦ rw more (
              inr (
                b,
                bs,
                states,
                same,
                switched-tip p (last_of b bs) (fill_node w p (b ∷ bs) states s),
                outweighs-Outweighed _ _ more,
              ))
          | inr less ↦ rw less (inl (kept-tip p (last_of b bs) (b ∷ bs) states s))
        ]

    replay_reply-Moves : (r : Reply Block) → Moves w s (replay_reply w env p r s)
    replay_reply-Moves timeout = inl refl
    replay_reply-Moves (answers []) = inl refl
    replay_reply-Moves (answers (r ∷ rs)) =
        finish_replay-Moves (env.by_height (fetched w env (answers (r ∷ rs)))) _ refl

    fetch_and_replay-Moves : (ks : Option (List ℕ)) → Moves w s (fetch_and_replay w env p ks s)
    fetch_and_replay-Moves none = tt
    fetch_and_replay-Moves (some []) = inl refl
    fetch_and_replay-Moves (some (k ∷ ks)) = replay_reply-Moves (env.answer_blocks (k ∷ ks))

    handle_candidate_chain_extension-Moves :
        (h : BlockHeader) (hash : ℕ) → Moves w s (handle_candidate_chain_extension w env h hash p s)
    unfolding handle_candidate_chain_extension
    handle_candidate_chain_extension-Moves h hash =
        elim (Bool-cases (outweighs h.total_work (tip_of (current_chain s)))) [
          | inl more ↦ rw more (
              fetch_and_replay-Moves
                (headers_to_fetch (walk_rounds s) hash [] (s.memory p.chain) s))
          | inr less ↦ rw less (inl refl)
        ]

module _ (w : World) (env : Environment) (h : BlockHeader) (p : ParentChain) (s : NodeState) where
  connect_header-listed :
      header_hash w.crypto h ≢ s.current_tip
      → p.tip ≢ s.current_tip
      → lookup s.current_tip (connect_header w h p s).chains ≡ lookup s.current_tip s.chains
  unfolding connect_header try_connect_orphan_children
  connect_header-listed other apart = ground (
    arith,
    lookup-insert (header_hash w.crypto h) s.current_tip p.chain (erase p.tip s.chains),
    lookup-erase p.tip s.current_tip s.chains,
  )

  pub connect_header-chain_tip :
      (r : ℕ) → ((connect_header w h p s).memory r).tip ≡ (s.memory r).tip
  unfolding connect_header try_connect_orphan_children add_header
  connect_header-chain_tip r = ground arith

  -- A candidate chain that grows is not yet the current one.
  connect_header-current :
      header_hash w.crypto h ≢ s.current_tip
      → p.tip ≢ s.current_tip
      → tip_of (current_chain (connect_header w h p s)) ≡ tip_of (current_chain s)
  connect_header-current other apart =
      rw (connect_header-tip w h p s, connect_header-listed other apart)
        (elim (Option-cases (lookup s.current_tip s.chains)) [
          | inl gone ↦ rw gone refl
          | inr (r, e) ↦ rw (e, connect_header-chain_tip r) refl
        ])

  pub process_header-candidate :
      Follows w env h p s
      → p.tip ≢ s.current_tip
      → process_header w env h s
        ≡ handle_candidate_chain_extension w env h
            (header_hash w.crypto h)
            p
            (connect_header w h p s)
  unfolding handle_chain_extension
  process_header-candidate f apart =
      let differ : (p.tip == s.current_tip) ≡ false = ground arith in
      process_header-follows w env h p s f ∙ rw differ refl

  -- After a header that extends a candidate chain, and is not the current tip itself, the node has its
  -- current tip as before, or that of the last of blocks that it validated one after another from the
  -- genesis block and that claims more work than the tip of the current chain.
  pub process_header-switch :
      {e : Option NodeError} {s' : NodeState}
      → Follows w env h p s
      → p.tip ≢ s.current_tip
      → header_hash w.crypto h ≢ s.current_tip
      → process_header w env h s ≡ done e s'
      → (s'.current_tip ≡ s.current_tip) ⊎ Switched w s s'
  process_header-switch {e} {s'} f apart other ends =
      let moves : Moves w (connect_header w h p s) (done e s') =
        rw (sym (process_header-candidate f apart) ∙ ends) at (
          handle_candidate_chain_extension-Moves w env p (connect_header w h p s) h
            (header_hash w.crypto h)) in
      elim moves [
        | inl same ↦ inl (same ∙ connect_header-tip w h p s)
        | inr (b, bs, states, valid_all, tip, more) ↦
            inr (b, bs, states, valid_all, tip, rw (connect_header-current other apart) at more)
      ]
