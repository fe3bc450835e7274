-- ===== src/Node/Indexed/Forking.antt =====
-- node/header_processing.go: a new candidate chain keeps the maps of a node indexed, and so does
-- `ProcessHeader`.
use mathlib.Core.Logic.Or
use mathlib.Core.List.{Mem, Perm, mem-cons, mem-cons_self, mem-cons_of_mem, not-mem-nil}
use mathlib.Core.List.Perm
use native.Mathlib.Bridge.{le_prop}
use august.Base.{
  ℕ, suc, ◌≡◌, ◌⊎◌, ◌<◌, refl, ap, Option, none, some, List, [], ◌∷◌, ◌==◌, arith, Bool-cases, inl,
  inr,
}
use august.Base.Dict.{Dict, nat_eq}
use august.Blockchain.Account.{States}
use august.Blockchain.Header.{BlockHeader, header_hash}
use august.Blockchain.Block.{Block, Chain, block_hash, add_block, new_chain}
use august.Blockchain.Getters.{get_header, set_account_states}
use august.Blockchain.HeaderChain.{HeaderError}
use august.Blockchain.ValidateBlock.{World, Validated, valid, invalid, crashed, validate_block}
use august.Node.Orphans.Filed.{add_orphan-IsFiled}
use august.Node.State.{NodeState, Environment, try_connect_orphan_children}
use august.Node.Fork.{
  ParentChain, if_work_fits, check_parent_header, ParentBlock, Walk, Built, built, build_failed,
  build_panics, Forked, forked, fetching, fork_failed, fork_panics, fork_diverges, finish_walk,
  fetch_or_build, build_next, keep_built, build_chain_from_blocks, build_on, check_header_exists,
  find_parent_chain, find_parent_block, handle_fork_creation,
}
use august.Node.Process.{
  process_header, connect_header, handle_chain_extension, handle_orphan_header, extend_fork,
  fork_or_orphan, extend_or_fork, if_sound,
}
use august.Node.Process.Path.{connect_header-fresh}
use august.Node.Indexed.{
  IsIndexed, IsLive, IsSound, SoundAfter, add_block-IsIndexed, new_chain-IsIndexed,
  update-IsIndexed,
}
use august.Node.Indexed.Extending.{
  insert-IsLive, connect_header-IsSound, handle_current_chain_extension-Sound,
}
use august.Node.Indexed.Switching.{handle_candidate_chain_extension-Sound}

-- Pointers that are in use stay so when one more is.
IsLive-suc : (fresh : ℕ) (m : Dict ℕ ℕ) → IsLive fresh m → IsLive (suc fresh) m
IsLive-suc fresh [] live = tt
IsLive-suc fresh ((k, r) ∷ m) (first, rest) = (omega arith, IsLive-suc fresh m rest)

pub IsLive-mem : (fresh : ℕ) (m : Dict ℕ ℕ) (k r : ℕ) → IsLive fresh m → Mem (k, r) m → r < fresh
IsLive-mem fresh [] k r live p = absurd (not-mem-nil p)
IsLive-mem fresh ((j, q) ∷ m) k r (first, rest) p =
    Or.elim le_prop (mem-cons.0 p) (λ e. rw (ap (λ (x : ℕ × ℕ). x.1) e) first)
      (IsLive-mem fresh m k r rest)

if_work_fits-eq : (q p : ParentChain) (e : Option HeaderError) → if_work_fits q e ≡ some p → q ≡ p
if_work_fits-eq q p none found = cc
if_work_fits-eq q p (some e) found = cc

check_parent_header-cases :
    (w : World) (h : BlockHeader) (q p : ParentChain) (o : Option BlockHeader)
    (rest : Option ParentChain)
    → check_parent_header w h q o rest ≡ some p
    → (q ≡ p) ⊎ (rest ≡ some p)
check_parent_header-cases w h q p none rest found = inr found
check_parent_header-cases w h q p (some g) rest found = inl (if_work_fits-eq q p _ found)

IsLive-of_mem : (fresh : ℕ) (m : Dict ℕ ℕ) → ((k r : ℕ) → Mem (k, r) m → r < fresh) → IsLive fresh m
IsLive-of_mem fresh [] all = tt
IsLive-of_mem fresh ((k, r) ∷ m) all =
    (all k r mem-cons_self, IsLive-of_mem fresh m (λ j q p. all j q (mem-cons_of_mem _ p)))

pub IsLive-visit : (fresh : ℕ) (l m : Dict ℕ ℕ) → Perm l m → IsLive fresh m → IsLive fresh l
IsLive-visit fresh l m visit live =
    IsLive-of_mem fresh l (λ k r p. IsLive-mem fresh m k r live (Perm.subset visit (k, r) p))

-- A chain that is found stands among those that were visited.
pub find_parent_chain-mem :
    (w : World) (h : BlockHeader) (p : ParentChain) (l : Dict ℕ ℕ) (memory : ℕ → Chain)
    → find_parent_chain w h l memory ≡ some p
    → Mem (p.tip, p.chain) l
unfolding find_parent_chain
find_parent_chain-mem w h p [] memory found = cc
find_parent_chain-mem w h p ((tip, r) ∷ rest) memory found =
    elim (Bool-cases (tip == h.previous_hash)) [
      | inr other ↦ mem-cons_of_mem _ (find_parent_chain-mem w h p rest memory (rw other at found))
      | inl here ↦
          elim (check_parent_header-cases w h (record { chain = r; tip = tip }) p
            (get_header h.previous_hash (memory r)) (find_parent_chain w h rest memory)
            (rw here at found)) [
              | inl same ↦ rw (← same) mem-cons_self
              | inr later ↦ mem-cons_of_mem _ (find_parent_chain-mem w h p rest memory later)
            ]
    ]

module _ (w : World) where
  abbrev SoundBuilt : Built → Type 0
  SoundBuilt (built chain s) = IsIndexed w.crypto chain × IsSound w s
  SoundBuilt (build_failed e s) = IsSound w s
  SoundBuilt build_panics = Unit {0}

  abbrev pub SoundForked : Forked → Type 0
  SoundForked (forked p s) = (p.chain < s.fresh) × IsSound w s
  SoundForked (fork_failed e s) = IsSound w s
  SoundForked (fetching s) = IsSound w s
  SoundForked fork_panics = Unit {0}
  SoundForked fork_diverges = Unit {0}

  build_next-Sound :
      (rest : States → Built) (s : NodeState) (v : Validated)
      → IsSound w s
      → ((states : States) → SoundBuilt (rest states))
      → SoundBuilt (build_next rest s v)
  build_next-Sound rest s crashed sound keeps = tt
  build_next-Sound rest s (invalid e) sound keeps = sound
  build_next-Sound rest s (valid states) sound keeps = keeps states

  build_on-Sound :
      (bs : List Block) (chain : Chain) (s : NodeState)
      → IsIndexed w.crypto chain
      → IsSound w s
      → SoundBuilt (build_on w bs chain s)
  unfolding build_on try_connect_orphan_children
  build_on-Sound [] chain s indexed sound = (indexed, sound)
  build_on-Sound (b ∷ bs) chain s indexed sound =
      build_next-Sound _ s (validate_block w b chain) sound (λ states.
        build_on-Sound bs (add_block w.crypto b (set_account_states states chain))
          (try_connect_orphan_children (block_hash w.crypto b) s)
          (add_block-IsIndexed w.crypto b (set_account_states states chain) indexed) sound)

  keep_built-Sound : (parent : ℕ) (r : Built) → SoundBuilt r → SoundForked (keep_built parent r)
  keep_built-Sound parent build_panics sound = tt
  keep_built-Sound parent (build_failed e s) sound = sound
  keep_built-Sound parent (built chain s)
        (indexed, (chains, live, headers, submitted, filed, pool)) =
      (
        omega arith,
        (
          update-IsIndexed w.crypto s.memory s.fresh chain chains indexed,
          insert-IsLive parent s.fresh (suc s.fresh) s.chains (IsLive-suc s.fresh s.chains live)
              (omega arith),
          headers,
          submitted,
          filed,
          pool,
        ),
      )

  fetch_or_build-Sound :
      (h : BlockHeader) (parent : ParentBlock) (bs : List Block) (ms : List ℕ) (s : NodeState)
      → IsSound w s
      → SoundForked (fetch_or_build w h parent bs ms s)
  unfolding build_chain_from_blocks
  fetch_or_build-Sound h parent bs [] s sound =
      keep_built-Sound (block_hash w.crypto parent.block)
        (build_on w bs (new_chain w.crypto w.genesis) s)
        (build_on-Sound bs (new_chain w.crypto w.genesis) s (new_chain-IsIndexed w.crypto w.genesis)
          sound)
  fetch_or_build-Sound h parent bs (m ∷ ms) s sound = sound

  pub finish_walk-Sound :
      (h : BlockHeader) (parent : ParentBlock) (k : Option Walk) (s : NodeState)
      → IsSound w s
      → SoundForked (finish_walk w h parent k s)
  finish_walk-Sound h parent none s sound = tt
  finish_walk-Sound h parent (some k) s sound =
      fetch_or_build-Sound h parent k.blocks k.missing s sound

  module _ (env : Environment) (h : BlockHeader) where
    handle_chain_extension-Sound :
        (p : ParentChain) (s : NodeState)
        → p.chain < s.fresh
        → IsSound w s
        → SoundAfter w (handle_chain_extension w env h p s)
    unfolding handle_chain_extension
    handle_chain_extension-Sound p s used sound =
        let next = connect_header-IsSound w h p s used sound in
        let used' : p.chain < (connect_header w h p s).fresh =
          rw (connect_header-fresh w h p s) used in
        elim (Bool-cases (p.tip == s.current_tip)) [
          | inl current ↦ rw current (
              handle_current_chain_extension-Sound w h p (connect_header w h p s) used' next env
                (header_hash w.crypto h))
          | inr candidate ↦ rw candidate (
              handle_candidate_chain_extension-Sound w env p (connect_header w h p s) used' next h
                (header_hash w.crypto h))
        ]

    extend_fork-Sound : (f : Forked) → SoundForked f → SoundAfter w (extend_fork w env h f)
    extend_fork-Sound fork_panics sound = tt
    extend_fork-Sound fork_diverges sound = tt
    extend_fork-Sound (fork_failed e s) sound = sound
    extend_fork-Sound (fetching s) sound = sound
    extend_fork-Sound (forked p s) (used, sound) = handle_chain_extension-Sound p s used sound

    module _ (s : NodeState) (sound : IsSound w s) where
      handle_orphan_header-IsSound : IsSound w (handle_orphan_header h s)
      unfolding handle_orphan_header
      handle_orphan_header-IsSound =
          let (chains, live, headers, submitted, filed, pool) = sound in
          (chains, live, headers, submitted, add_orphan-IsFiled w.crypto h s.orphans filed, pool)

      fork_or_orphan-Sound : (o : Option ParentBlock) → SoundAfter w (fork_or_orphan w env h o s)
      unfolding handle_fork_creation
      fork_or_orphan-Sound none = handle_orphan_header-IsSound
      fork_or_orphan-Sound (some parent) =
          extend_fork-Sound (handle_fork_creation w h parent s)
            (finish_walk-Sound h parent _ s sound)

      extend_or_fork-Sound :
          (o : Option ParentChain)
          → ((p : ParentChain) → o ≡ some p → p.chain < s.fresh)
          → SoundAfter w (extend_or_fork w env h o s)
      extend_or_fork-Sound (some p) used = handle_chain_extension-Sound p s (used p refl) sound
      extend_or_fork-Sound none used =
          fork_or_orphan-Sound (find_parent_block h (env.chains_order s.chains) s.memory)

      if_sound-Sound :
          (e : Option HeaderError)
          → Perm (env.chains_order s.chains) s.chains
          → SoundAfter w (if_sound w env h e s)
      if_sound-Sound (some e) visit = sound
      if_sound-Sound none visit =
          let l = env.chains_order s.chains in
          elim (Bool-cases (check_header_exists (header_hash w.crypto h) l s.memory)) [
            | inl there ↦ rw there sound
            | inr new ↦ rw new (
                extend_or_fork-Sound (find_parent_chain w h l s.memory) (λ p found.
                  IsLive-mem s.fresh s.chains p.tip p.chain sound.1 (
                    Perm.subset visit (p.tip, p.chain)
                      (find_parent_chain-mem w h p l s.memory found))))
          ]

      pub process_header-Sound :
          Perm (env.chains_order s.chains) s.chains → SoundAfter w (process_header w env h s)
      unfolding process_header
      process_header-Sound visit = if_sound-Sound _ visit
