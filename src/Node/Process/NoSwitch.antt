-- ===== src/Node/Process/NoSwitch.antt =====
-- node/header_processing.go: a branch from above the genesis block never becomes the current chain.
use august.Base.{
  ℕ, ◌≡◌, ◌≢◌, ◌<◌, refl, ◌∙◌, false, Option, none, some, List, [], ◌∷◌, ◌==◌, arith, Bool-cases,
  inl, inr,
}
use august.Base.Dict.{lookup, nat_eq}
use august.Blockchain.Header.{BlockHeader, header_hash}
use august.Blockchain.Block.{Block, block_hash, new_chain}
use august.Blockchain.ValidateBlock.{
  World, missing_parent, invalid, is_genesis, validate_block, validate_structure,
}
use august.Node.State.{NodeState, Environment, Reply, timeout, answers, done, current_chain}
use august.Node.Queries.{tip_of}
use august.Node.Fork.{ParentChain, walk_rounds}
use august.Node.Extend.{fetched}
use august.Node.Candidate.{
  headers_to_fetch, outweighs, refused, replay, replay_chain, finish_replay, replay_reply,
  fetch_and_replay, handle_candidate_chain_extension,
}
use august.Node.Ends.{IsRanked, headers_to_fetch-enough}
use august.Node.Process.Returns.{connect_header-IsRanked}
use august.Node.Process.{process_header, connect_header}
use august.Node.Process.Path.{Follows, connect_header-tip}
use august.Node.Process.Switch.{process_header-candidate, connect_header-chain_tip}

-- Blocks of which the first is not the genesis block, nor right above it.
abbrev pub StartsAbove : World → List Block → Type 0
StartsAbove w [] = ⊥
StartsAbove w (b ∷ bs) =
    (is_genesis w b ≡ false) × (block_hash w.crypto w.genesis ≢ b.header.previous_hash)

-- No answer, or blocks that start above the genesis block.
abbrev pub AnswersAbove : World → Environment → Reply Block → Type 0
AnswersAbove w env timeout = Unit {0}
AnswersAbove w env (answers []) = Unit {0}
AnswersAbove w env (answers (r ∷ rs)) =
    StartsAbove w (env.by_height (fetched w env (answers (r ∷ rs))))

validate_block-above :
    (w : World) (b : Block)
    → is_genesis w b ≡ false
    → block_hash w.crypto w.genesis ≢ b.header.previous_hash
    → validate_block w b (replay_chain w) ≡ invalid missing_parent
unfolding validate_block validate_structure new_chain lookup
validate_block-above w b other above =
    let differ : (block_hash w.crypto w.genesis == b.header.previous_hash) ≡ false = ground arith in
    rw (other, differ) refl

replay-above :
    (w : World) (bs : List Block) → StartsAbove w bs → replay w bs (replay_chain w) ≡ refused
unfolding replay
replay-above w [] starts = absurd starts
replay-above w (b ∷ bs) (other, above) = rw (validate_block-above w b other above, replay) refl

module _ (w : World) (env : Environment) (p : ParentChain) (s : NodeState) where
  replay_reply-above :
      (r : Reply Block) → AnswersAbove w env r → replay_reply w env p r s ≡ done none s
  unfolding finish_replay
  replay_reply-above timeout starts = refl
  replay_reply-above (answers []) starts = refl
  replay_reply-above (answers (r ∷ rs)) starts = rw (replay-above w _ starts) refl

  fetch_and_replay-above :
      (ks : Option (List ℕ))
      → ks ≢ none
      → ((l : List ℕ) → AnswersAbove w env (env.answer_blocks l))
      → fetch_and_replay w env p ks s ≡ done none s
  fetch_and_replay-above none there starts = absurd (there refl)
  fetch_and_replay-above (some []) there starts = refl
  fetch_and_replay-above (some (k ∷ ks)) there starts =
      replay_reply-above (env.answer_blocks (k ∷ ks)) (starts (k ∷ ks))

  handle_candidate_chain_extension-above :
      (h : BlockHeader) (hash : ℕ) (rank : ℕ → ℕ)
      → IsRanked rank s.headers_map
      → ((l : List ℕ) → AnswersAbove w env (env.answer_blocks l))
      → handle_candidate_chain_extension w env h hash p s ≡ done none s
  unfolding handle_candidate_chain_extension
  handle_candidate_chain_extension-above h hash rank ranked starts =
      elim (Bool-cases (outweighs h.total_work (tip_of (current_chain s)))) [
        | inl more ↦ rw more (
            fetch_and_replay-above (headers_to_fetch (walk_rounds s) hash [] (s.memory p.chain) s)
              (headers_to_fetch-enough rank s ranked hash (s.memory p.chain)) starts)
        | inr less ↦ rw less refl
      ]

-- A header that extends a candidate chain, where the links of the headers go round in no circle, never
-- changes the current tip, nor the tip of any chain, where the blocks that its peers send start above
-- the block after the genesis block, whatever work it claims.
pub process_header-no_switch :
    (w : World) (env : Environment) (h : BlockHeader) (p : ParentChain) (s : NodeState)
    (rank : ℕ → ℕ)
    → Follows w env h p s
    → p.tip ≢ s.current_tip
    → IsRanked rank s.headers_map
    → rank h.previous_hash < rank (header_hash w.crypto h)
    → ((l : List ℕ) → AnswersAbove w env (env.answer_blocks l))
    → (s' : NodeState) × (process_header w env h s ≡ done none s')
      × (s'.current_tip ≡ s.current_tip)
      × ((r : ℕ) → (s'.memory r).tip ≡ (s.memory r).tip)
process_header-no_switch w env h p s rank f apart ranked above starts = (
  connect_header w h p s,
  process_header-candidate w env h p s f apart
      ∙ handle_candidate_chain_extension-above w env p (connect_header w h p s) h
          (header_hash w.crypto h) rank (connect_header-IsRanked w env h p rank s ranked above)
          starts,
  connect_header-tip w h p s,
  connect_header-chain_tip w env h p s,
)
