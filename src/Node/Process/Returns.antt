-- ===== src/Node/Process/Returns.antt =====
-- node/node.go: `ProcessHeader` comes to an end.
use august.Base.{
  ℕ, ◌≡◌, ◌≢◌, ◌<◌, refl, Option, none, some, List, [], ◌∷◌, ◌==◌, arith, Bool-cases, inl, inr,
}
use august.Base.Dict.{nat_eq, lookup-insert}
use august.Blockchain.Header.{BlockHeader, header_hash}
use august.Blockchain.Block.{Block, Chain, block_hash, add_block, new_chain}
use august.Blockchain.Account.{States}
use august.Blockchain.Getters.{set_account_states}
use august.Blockchain.HeaderChain.{HeaderError, validate_header_structure}
use august.Blockchain.ValidateBlock.{World, Validated, valid, invalid, crashed, validate_block}
use august.Node.State.{
  NodeState, Environment, current_chain, Reply, timeout, answers, diverges,
  try_connect_orphan_children,
}
use august.Node.Queries.{find_block, tip_of}
use august.Node.Fork.{
  ParentChain, ParentBlock, Walk, Built, built, build_failed, build_panics, Forked, forked,
  fetching, fork_failed, fork_panics, fork_diverges, walk_rounds, finish_walk, fetch_or_build,
  build_next, keep_built, build_chain_from_blocks, build_on, check_header_exists, find_parent_chain,
  find_parent_block, handle_fork_creation,
}
use august.Node.Extend.{
  after_validation, validate_first, local_or_fetched, fetched, handle_current_chain_extension,
}
use august.Node.Candidate.{
  Replayed, replayed, refused, replay_panics, replay, replay_chain, finish_replay, replay_reply,
  fetch_and_replay, headers_to_fetch, outweighs, handle_candidate_chain_extension,
}
use august.Node.Process.{
  process_header, connect_header, handle_chain_extension, extend_fork, fork_or_orphan,
  extend_or_fork, if_sound,
}
use august.Node.Ends.{IsRanked, walk_back-enough, headers_to_fetch-enough}

module _ (w : World) (env : Environment) (h : BlockHeader) (p : ParentChain) where
  after_validation-returns :
      (hash : ℕ) (b : Block) (v : Validated) (s : NodeState)
      → after_validation w h hash p b v s ≢ diverges
  after_validation-returns hash b crashed s = cc
  after_validation-returns hash b (invalid e) s = cc
  after_validation-returns hash b (valid states) s = cc

  validate_first-returns :
      (hash : ℕ) (bs : List Block) (s : NodeState) → validate_first w h hash p bs s ≢ diverges
  validate_first-returns hash [] s = cc
  validate_first-returns hash (b ∷ bs) s =
      after_validation-returns hash b (validate_block w b (s.memory p.chain)) s

  handle_current_chain_extension-returns :
      (hash : ℕ) (s : NodeState) → handle_current_chain_extension w env h hash p s ≢ diverges
  unfolding handle_current_chain_extension
  handle_current_chain_extension-returns hash s =
      validate_first-returns hash (local_or_fetched w env hash (find_block hash s)) s

  finish_replay-returns :
      (bs : List Block) (r : Replayed) (s : NodeState) → finish_replay w p bs r s ≢ diverges
  unfolding finish_replay
  finish_replay-returns bs replay_panics s = cc
  finish_replay-returns bs refused s = cc
  finish_replay-returns [] (replayed states) s = cc
  finish_replay-returns (b ∷ bs) (replayed states) s = cc

  replay_reply-returns : (r : Reply Block) (s : NodeState) → replay_reply w env p r s ≢ diverges
  replay_reply-returns timeout s = cc
  replay_reply-returns (answers []) s = cc
  replay_reply-returns (answers (r ∷ rs)) s =
      let bs = env.by_height (fetched w env (answers (r ∷ rs))) in
      finish_replay-returns bs (replay w bs (replay_chain w)) s

  fetch_and_replay-returns :
      (ks : Option (List ℕ)) (s : NodeState) → ks ≢ none → fetch_and_replay w env p ks s ≢ diverges
  fetch_and_replay-returns none s there = absurd (there refl)
  fetch_and_replay-returns (some []) s there = cc
  fetch_and_replay-returns (some (k ∷ ks)) s there =
      replay_reply-returns (env.answer_blocks (k ∷ ks)) s

  module _ (rank : ℕ → ℕ) where
    handle_candidate_chain_extension-returns :
        (hash : ℕ) (s : NodeState)
        → IsRanked rank s.headers_map
        → handle_candidate_chain_extension w env h hash p s ≢ diverges
    unfolding handle_candidate_chain_extension
    handle_candidate_chain_extension-returns hash s ranked =
        elim (Bool-cases (outweighs h.total_work (tip_of (current_chain s)))) [
          | inl more ↦ rw more (
              fetch_and_replay-returns
                (headers_to_fetch (walk_rounds s) hash [] (s.memory p.chain) s) s
                (headers_to_fetch-enough rank s ranked hash (s.memory p.chain)))
          | inr less ↦ rw less (cc)
        ]

    pub connect_header-IsRanked :
        (s : NodeState)
        → IsRanked rank s.headers_map
        → rank h.previous_hash < rank (header_hash w.crypto h)
        → IsRanked rank (connect_header w h p s).headers_map
    unfolding connect_header try_connect_orphan_children
    connect_header-IsRanked s ranked above k g found =
        ground (arith, lookup-insert (header_hash w.crypto h) k h s.headers_map, ranked k g)

    handle_chain_extension-returns :
        (s : NodeState)
        → IsRanked rank s.headers_map
        → rank h.previous_hash < rank (header_hash w.crypto h)
        → handle_chain_extension w env h p s ≢ diverges
    unfolding handle_chain_extension
    handle_chain_extension-returns s ranked above = elim (Bool-cases (p.tip == s.current_tip)) [
      | inl current ↦
          rw current (
            handle_current_chain_extension-returns (header_hash w.crypto h)
              (connect_header w h p s))
      | inr candidate ↦ rw candidate (
          handle_candidate_chain_extension-returns (header_hash w.crypto h) (connect_header w h p s)
            (connect_header-IsRanked s ranked above))
    ]

-- The making of a fork ends, and keeps the headers of the node.
abbrev KeepsBuilt : NodeState → Built → Type 0
KeepsBuilt s (built chain s') = s'.headers_map ≡ s.headers_map
KeepsBuilt s (build_failed e s') = Unit {0}
KeepsBuilt s build_panics = Unit {0}

abbrev KeepsForked : NodeState → Forked → Type 0
KeepsForked s (forked p s') = s'.headers_map ≡ s.headers_map
KeepsForked s fork_diverges = ⊥
KeepsForked s other = Unit {0}

build_next-KeepsBuilt :
    (rest : States → Built) (s0 s : NodeState) (v : Validated)
    → ((states : States) → KeepsBuilt s0 (rest states))
    → KeepsBuilt s0 (build_next rest s v)
build_next-KeepsBuilt rest s0 s crashed keeps = tt
build_next-KeepsBuilt rest s0 s (invalid e) keeps = tt
build_next-KeepsBuilt rest s0 s (valid states) keeps = keeps states

build_on-KeepsBuilt :
    (w : World) (bs : List Block) (chain : Chain) (s s0 : NodeState)
    → s.headers_map ≡ s0.headers_map
    → KeepsBuilt s0 (build_on w bs chain s)
unfolding build_on try_connect_orphan_children
build_on-KeepsBuilt w [] chain s s0 same = same
build_on-KeepsBuilt w (b ∷ bs) chain s s0 same =
    build_next-KeepsBuilt _ s0 s (validate_block w b chain) (λ states.
      build_on-KeepsBuilt w bs (add_block w.crypto b (set_account_states states chain))
        (try_connect_orphan_children (block_hash w.crypto b) s) s0 same)

keep_built-KeepsForked :
    (parent : ℕ) (s : NodeState) (r : Built) → KeepsBuilt s r → KeepsForked s (keep_built parent r)
keep_built-KeepsForked parent s (built chain s') same = same
keep_built-KeepsForked parent s (build_failed e s') same = tt
keep_built-KeepsForked parent s build_panics same = tt

module _ (w : World) (h : BlockHeader) (parent : ParentBlock) (s : NodeState) where
  fetch_or_build-KeepsForked :
      (bs : List Block) (ms : List ℕ) → KeepsForked s (fetch_or_build w h parent bs ms s)
  unfolding build_chain_from_blocks
  fetch_or_build-KeepsForked bs [] =
      keep_built-KeepsForked (block_hash w.crypto parent.block) s
        (build_on w bs (new_chain w.crypto w.genesis) s)
        (build_on-KeepsBuilt w bs (new_chain w.crypto w.genesis) s s refl)
  fetch_or_build-KeepsForked bs (m ∷ ms) = tt

  finish_walk-KeepsForked :
      (k : Option Walk) → k ≢ none → KeepsForked s (finish_walk w h parent k s)
  finish_walk-KeepsForked none there = there refl
  finish_walk-KeepsForked (some k) there = fetch_or_build-KeepsForked k.blocks k.missing

module _ (w : World) (env : Environment) (h : BlockHeader) (rank : ℕ → ℕ) (s : NodeState)
    (ranked : IsRanked rank s.headers_map)
    (above : rank h.previous_hash < rank (header_hash w.crypto h)) where
  extend_fork-returns : (f : Forked) → KeepsForked s f → extend_fork w env h f ≢ diverges
  extend_fork-returns fork_panics keeps = cc
  extend_fork-returns fork_diverges keeps = absurd keeps
  extend_fork-returns (fork_failed e s') keeps = cc
  extend_fork-returns (fetching s') keeps = cc
  extend_fork-returns (forked p s') keeps =
      handle_chain_extension-returns w env h p rank s' (rw keeps ranked) above

  fork_or_orphan-returns : (o : Option ParentBlock) → fork_or_orphan w env h o s ≢ diverges
  unfolding handle_fork_creation
  fork_or_orphan-returns none = cc
  fork_or_orphan-returns (some parent) = extend_fork-returns (handle_fork_creation w h parent s) (
      finish_walk-KeepsForked w h parent s _ (
        walk_back-enough rank s ranked (block_hash w.crypto w.genesis)
          (block_hash w.crypto parent.block) (record { missing = []; blocks = [] })))

  extend_or_fork-returns : (o : Option ParentChain) → extend_or_fork w env h o s ≢ diverges
  extend_or_fork-returns (some p) = handle_chain_extension-returns w env h p rank s ranked above
  extend_or_fork-returns none =
      fork_or_orphan-returns (find_parent_block h (env.chains_order s.chains) s.memory)

  if_sound-returns : (e : Option HeaderError) → if_sound w env h e s ≢ diverges
  if_sound-returns (some e) = cc
  if_sound-returns none =
      elim (Bool-cases
        (check_header_exists (header_hash w.crypto h) (env.chains_order s.chains) s.memory)) [
          | inl there ↦ rw there (cc)
          | inr new ↦
              rw new (
                extend_or_fork-returns (find_parent_chain w h (env.chains_order s.chains) s.memory))
        ]

  -- `ProcessHeader` ends, with or without an error, or panics, where the links of the headers of the
  -- node and of the new one go round in no circle: its walks along the headers have rounds enough.
  pub process_header-returns : process_header w env h s ≢ diverges
  unfolding process_header
  process_header-returns =
      if_sound-returns (validate_header_structure w.crypto (block_hash w.crypto w.genesis) h)
