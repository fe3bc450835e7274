-- ===== src/Node/Process/Again.antt =====
-- node/header_processing.go: an orphan that comes again.
use august.Base.{ℕ, zero, suc, ◌≡◌, refl, sym, ap, ◌∙◌, false, none, [], ◌∷◌, ◌++◌, replicate}
use mathlib.Core.List.{append-nil, append_assoc}
use august.Blockchain.Header.{BlockHeader, header_hash}
use august.Blockchain.Block.{block_hash}
use august.Blockchain.HeaderChain.{validate_header_structure}
use august.Blockchain.ValidateBlock.{World}
use august.Node.Orphans.{waiting}
use august.Node.Orphans.Added.{waiting-add_orphan}
use august.Node.State.{NodeState, Environment, Outcome, done, panics, diverges}
use august.Node.Fork.{check_header_exists, find_parent_chain, find_parent_block}
use august.Node.Extend.{NodeError}
use august.Node.Process.{process_header, handle_orphan_header}

-- A header with a sound structure that no chain has, nor its parent on a tip or as a block.
pub record IsOrphan (w : World) (env : Environment) (h : BlockHeader) (s : NodeState) : Type 0 where
  pub sound : validate_header_structure w.crypto (block_hash w.crypto w.genesis) h ≡ none
  pub unknown :
      check_header_exists (header_hash w.crypto h) (env.chains_order s.chains) s.memory ≡ false
  pub no_chain : find_parent_chain w h (env.chains_order s.chains) s.memory ≡ none
  pub no_block : find_parent_block h (env.chains_order s.chains) s.memory ≡ none

-- The announcement of one header, so many times.
abbrev pub process_times : World → Environment → BlockHeader → ℕ → NodeState → Outcome NodeError
process_times w env h zero s = done none s
process_times w env h (suc n) s = elim (process_header w env h s) [
  | panics ↦ panics
  | diverges ↦ diverges
  | done e s' ↦ process_times w env h n s'
]

module _ (w : World) (env : Environment) (h : BlockHeader) where
  process_header-orphan :
      (s : NodeState)
      → IsOrphan w env h s
      → process_header w env h s ≡ done none (handle_orphan_header h s)
  unfolding process_header
  process_header-orphan s o = rw (o.sound, o.unknown, o.no_chain, o.no_block) refl

  handle_orphan_header-IsOrphan :
      (s : NodeState) → IsOrphan w env h s → IsOrphan w env h (handle_orphan_header h s)
  unfolding handle_orphan_header
  handle_orphan_header-IsOrphan s o = record {
    sound = o.sound;
    unknown = o.unknown;
    no_chain = o.no_chain;
    no_block = o.no_block;
  }

  waiting-handle_orphan_header :
      (s : NodeState)
      → waiting h.previous_hash (handle_orphan_header h s).orphans
        ≡ waiting h.previous_hash s.orphans ++ h ∷ []
  unfolding handle_orphan_header
  waiting-handle_orphan_header s = waiting-add_orphan h s.orphans

  -- A header that is an orphan waits for its parent as often as it is announced.
  pub process_times-orphan :
      (n : ℕ) (s : NodeState)
      → IsOrphan w env h s
      → (s' : NodeState) × (process_times w env h n s ≡ done none s')
        × (waiting h.previous_hash s'.orphans ≡ waiting h.previous_hash s.orphans ++ replicate n h)
  process_times-orphan zero s o = (s, refl, sym (append-nil (waiting h.previous_hash s.orphans)))
  process_times-orphan (suc n) s o =
      let (s', ends, waits) =
        process_times-orphan n (handle_orphan_header h s) (handle_orphan_header-IsOrphan s o) in
      (
        s',
        rw (process_header-orphan s o, process_times) ends,
        waits
            ∙ ap (λ l. l ++ replicate n h) (waiting-handle_orphan_header s)
            ∙ append_assoc (waiting h.previous_hash s.orphans) (h ∷ []) (replicate n h),
      )
