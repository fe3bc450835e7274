-- ===== src/Node/Indexed/Always.antt =====
-- node/: the maps of a node are indexed after any history.
use mathlib.Core.List.Perm
use august.Base.{ℕ, ◌≡◌, ◌<◌, Option, List, [], ◌∷◌}
use august.Blockchain.Header.{BlockHeader}
use august.Blockchain.ValidateBlock.{World}
use august.Node.State.{NodeState, Outcome, done, Environment, Task, spawn}
use august.Node.Fork.{ParentChain, Forked, forked, handle_fork_creation}
use august.Node.Extend.{NodeError, fetched}
use august.Node.Process.{connect_header}
use august.Node.Process.Path.{connect_header-fresh}
use august.Node.Steps.{IsVisit}
use august.Node.Turns.{
  Wait, for_block, for_branch, resume, Reaches, on_tip, on_fork, Asks, asks_block, asks_branch,
  Status, idle, waiting, Turn, whole, beside, starts, starts_task, goes_on, Reachable, start, next,
}
use august.Node.Indexed.{IsSound, SoundAfter}
use august.Node.Indexed.Extending.{connect_header-IsSound, validate_first-Sound}
use august.Node.Indexed.Switching.{replay_reply-Sound}
use august.Node.Indexed.Forking.{SoundForked, IsLive-mem, find_parent_chain-mem, finish_walk-Sound}
use august.Node.Indexed.Stepping.{new_node-IsSound, Step-IsSound}
use august.Node.Indexed.Beside.{RunsBeside-fresh}

-- The chain that a wait has in hand.
abbrev held : Wait → ℕ
held (for_block h hash p) = p.chain
held (for_branch p ks) = p.chain

-- While `ProcessHeader` waits, its pointer is in use too.
abbrev Holds : World → NodeState → Status → Type 0
Holds w s idle = IsSound w s
Holds w s (waiting x later) = (held x < s.fresh) × IsSound w s

module _ (w : World) where
  forked-Sound :
      (f : Forked) (p : ParentChain) (s : NodeState)
      → f ≡ forked p s
      → SoundForked w f
      → (p.chain < s.fresh) × IsSound w s
  forked-Sound f p s ends sound = rw ends at sound

  Reaches-Sound :
      (env : Environment) (h : BlockHeader) {s s' : NodeState} {p : ParentChain}
      → IsVisit env
      → Reaches w env h s p s'
      → IsSound w s
      → (p.chain < s'.fresh) × IsSound w s'
  unfolding handle_fork_creation
  Reaches-Sound env h {s} {s'} {p} visit (on_tip valid new found) sound = (
    IsLive-mem s.fresh s.chains p.tip p.chain sound.1 (
        Perm.subset (visit s.chains) (p.tip, p.chain)
          (find_parent_chain-mem w h p (env.chains_order s.chains) s.memory found)),
    sound,
  )
  Reaches-Sound env h {s} {s'} {p} visit (on_fork {b = b} valid new nowhere found made) sound =
      forked-Sound _ p s' made (finish_walk-Sound w h b _ s sound)

  connected-Sound :
      (h : BlockHeader) (p : ParentChain) (s : NodeState)
      → (p.chain < s.fresh) × IsSound w s
      → (p.chain < (connect_header w h p s).fresh) × IsSound w (connect_header w h p s)
  connected-Sound h p s (used, sound) =
      (rw (connect_header-fresh w h p s) used, connect_header-IsSound w h p s used sound)

  Asks-Sound :
      (env : Environment) (h : BlockHeader) {s s' : NodeState} {x : Wait}
      → IsVisit env
      → Asks w env h s x s'
      → IsSound w s
      → (held x < s'.fresh) × IsSound w s'
  Asks-Sound env h visit (asks_block {p} {s'} path current missing) sound =
      connected-Sound h p s' (Reaches-Sound env h visit path sound)
  Asks-Sound env h visit (asks_branch {p} {s'} path other heavier missing) sound =
      connected-Sound h p s' (Reaches-Sound env h visit path sound)

  resume-Sound :
      (env : Environment) (x : Wait) (s : NodeState)
      → held x < s.fresh
      → IsSound w s
      → SoundAfter w (resume w env x s)
  unfolding resume
  resume-Sound env (for_block h hash p) s used sound =
      validate_first-Sound w h p s used sound hash (fetched w env (env.answer_blocks (hash ∷ [])))
  resume-Sound env (for_branch p ks) s used sound =
      replay_reply-Sound w env p s used sound (env.answer_blocks ks)

  resumed-IsSound :
      (o : Outcome NodeError) (later : List Task) {e : Option NodeError} {s : NodeState}
      → o ≡ done e s
      → SoundAfter w o
      → IsSound w (spawn later s)
  resumed-IsSound o later ends sound = rw ends at sound

  Turn-Holds :
      {s s' : NodeState} {status status' : Status}
      → Turn w s status s' status'
      → Holds w s status
      → Holds w s' status'
  Turn-Holds (whole order any_order step) sound = Step-IsSound w order any_order step sound
  Turn-Holds (beside order x later any_order step free) (used, sound) =
      (rw (RunsBeside-fresh w order step free) used, Step-IsSound w order any_order step sound)
  Turn-Holds (starts env h visit asks) sound = Asks-Sound env h visit asks sound
  Turn-Holds (starts_task env before after t h later visit split runs asks) sound =
      Asks-Sound env h visit asks sound
  Turn-Holds (goes_on env x later {s} ends) (used, sound) =
      resumed-IsSound _ later ends (resume-Sound env x s used sound)

  Reachable-Holds : {s : NodeState} {status : Status} → Reachable w s status → Holds w s status
  Reachable-Holds start = new_node-IsSound w
  Reachable-Holds (next r turn) = Turn-Holds turn (Reachable-Holds r)

  Holds-IsSound : (s : NodeState) (status : Status) → Holds w s status → IsSound w s
  Holds-IsSound s idle sound = sound
  Holds-IsSound s (waiting x later) (used, sound) = sound

  -- In every state that a node can come to, where the code from one wait for peers to the next is
  -- one step, whatever the node is sent, in whatever order its goroutines run and its maps are
  -- visited, also while one ProcessHeader waits for its peers and everything but another
  -- ProcessHeader goes on: each chain has its headers and its blocks under their hashes, and a
  -- block of its tip's hash; the pointers to chains are in use; the headers and the submitted
  -- blocks of the node stand under their hashes; each orphan waits under its parent, and each
  -- parent once; and the pool is valid.
  pub Reachable-IsSound : {s : NodeState} {status : Status} → Reachable w s status → IsSound w s
  Reachable-IsSound {s} {status} r = Holds-IsSound s status (Reachable-Holds r)
