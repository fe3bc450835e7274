-- ===== src/Node/Indexed/Extending.antt =====
-- node/header_processing.go: the handling of a header keeps the maps of a node indexed.
use august.Base.{
  ℕ, ◌<◌, Bool, true, false, List, [], ◌∷◌, ◌==◌, not, ◌&&◌, if◌then◌else◌, arith, Bool-cases, inl,
  inr,
}
use august.Base.Dict.{Dict, insert, erase, nat_eq}
use august.Blockchain.Account.{States}
use august.Blockchain.Header.{BlockHeader, header_hash}
use august.Blockchain.Block.{Block, add_header, add_block}
use august.Blockchain.Getters.{set_account_states}
use august.Blockchain.ValidateBlock.{World, Validated, valid, invalid, crashed, validate_block}
use august.Node.Orphans.{add_orphan}
use august.Node.Orphans.Filed.{IsFiled, add_orphan-IsFiled, remove_orphan-IsFiled}
use august.Node.State.{NodeState, Environment, try_connect_orphan_children}
use august.Node.Queries.{find_block}
use august.Node.Fork.{ParentChain}
use august.Node.Extend.{
  cleanup_failed_header, accept_block, after_validation, validate_first, is_switch,
  local_or_fetched, handle_current_chain_extension, drop_old_tip,
}
use august.Node.Process.{connect_header}
use august.Node.Indexed.{
  IsLive, IsSound, SoundAfter, insert-IsHashed, erase-IsHashed, add_header-IsIndexed,
  add_block-IsIndexed, update-IsIndexed,
}

-- Pointers stay below a bound where a key comes in or goes.
pub insert-IsLive :
    (k r fresh : ℕ) (m : Dict ℕ ℕ) → IsLive fresh m → r < fresh → IsLive fresh (insert k r m)
unfolding insert
insert-IsLive k r fresh [] live new = (new, tt)
insert-IsLive k r fresh ((j, q) ∷ m) (first, rest) new =
    ground (arith, insert-IsLive k r fresh m rest new)

pub erase-IsLive : (k fresh : ℕ) (m : Dict ℕ ℕ) → IsLive fresh m → IsLive fresh (erase k m)
unfolding erase
erase-IsLive k fresh [] live = tt
erase-IsLive k fresh ((j, q) ∷ m) (first, rest) = ground (arith, erase-IsLive k fresh m rest)

module _ (w : World) (h : BlockHeader) (p : ParentChain) (s : NodeState) (used : p.chain < s.fresh)
    (sound : IsSound w s) where
  pub connect_header-IsSound : IsSound w (connect_header w h p s)
  unfolding connect_header try_connect_orphan_children
  connect_header-IsSound =
      let (chains, live, headers, submitted, filed, pool) = sound in
      (
        update-IsIndexed w.crypto s.memory p.chain (add_header w.crypto h (s.memory p.chain)) chains
            (add_header-IsIndexed w.crypto h (s.memory p.chain) (chains p.chain)),
        insert-IsLive (header_hash w.crypto h) p.chain s.fresh (erase p.tip s.chains)
            (erase-IsLive p.tip s.fresh s.chains live) used,
        insert-IsHashed (header_hash w.crypto) h s.headers_map headers,
        submitted,
        remove_orphan-IsFiled w.crypto h s.orphans filed,
        pool,
      )

  restored-IsFiled :
      (restore : Bool) → IsFiled (if restore then add_orphan h s.orphans else s.orphans)
  restored-IsFiled true = add_orphan-IsFiled w.crypto h s.orphans (sound.4)
  restored-IsFiled false = sound.4

  cleanup_failed_header-IsSound :
      (hash : ℕ) (restore : Bool) → IsSound w (cleanup_failed_header h hash p restore s)
  unfolding cleanup_failed_header
  cleanup_failed_header-IsSound hash restore =
      let (chains, live, headers, submitted, filed, pool) = sound in
      (
        update-IsIndexed w.crypto s.memory p.chain _ chains (
          erase-IsHashed (header_hash w.crypto) hash (s.memory p.chain).headers (chains p.chain).0,
          (chains p.chain).1,
          (chains p.chain).2,
        ),
        insert-IsLive p.tip p.chain s.fresh (erase hash s.chains)
            (erase-IsLive hash s.fresh s.chains live) used,
        erase-IsHashed (header_hash w.crypto) hash s.headers_map headers,
        submitted,
        restored-IsFiled restore,
        pool,
      )

  drop_old_tip-IsLive :
      (old hash : ℕ) (m : Dict ℕ ℕ) → IsLive s.fresh m → IsLive s.fresh (drop_old_tip old hash m)
  drop_old_tip-IsLive old hash m live = elim (Bool-cases (not (old == 0) && not (old == hash))) [
    | inl other ↦ rw other (erase-IsLive old s.fresh m live)
    | inr same ↦ rw same live
  ]

  accept_block-IsSound :
      (hash : ℕ) (b : Block) (states : States) → IsSound w (accept_block w hash p b states s)
  unfolding accept_block try_connect_orphan_children
  accept_block-IsSound hash b states =
      let (chains, live, headers, submitted, filed, pool) = sound in
      (
        update-IsIndexed w.crypto s.memory p.chain
            (add_block w.crypto b (set_account_states states (s.memory p.chain))) chains
            (add_block-IsIndexed w.crypto b (set_account_states states (s.memory p.chain))
              (chains p.chain)),
        drop_old_tip-IsLive s.current_tip hash (insert hash p.chain s.chains)
            (insert-IsLive hash p.chain s.fresh s.chains live used),
        headers,
        submitted,
        filed,
        pool,
      )

  after_validation-Sound :
      (hash : ℕ) (b : Block) (v : Validated) → SoundAfter w (after_validation w h hash p b v s)
  after_validation-Sound hash b crashed = tt
  after_validation-Sound hash b (invalid e) = cleanup_failed_header-IsSound hash (not (is_switch e))
  after_validation-Sound hash b (valid states) = accept_block-IsSound hash b states

  pub validate_first-Sound :
      (hash : ℕ) (bs : List Block) → SoundAfter w (validate_first w h hash p bs s)
  validate_first-Sound hash [] = sound
  validate_first-Sound hash (b ∷ bs) =
      after_validation-Sound hash b (validate_block w b (s.memory p.chain))

  pub handle_current_chain_extension-Sound :
      (env : Environment) (hash : ℕ)
      → SoundAfter w (handle_current_chain_extension w env h hash p s)
  unfolding handle_current_chain_extension
  handle_current_chain_extension-Sound env hash =
      validate_first-Sound hash (local_or_fetched w env hash (find_block hash s))
