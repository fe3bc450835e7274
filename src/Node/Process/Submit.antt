-- ===== src/Node/Process/Submit.antt =====
-- node/api.go and node.go: a block that is submitted to a node becomes the head of its chain.
use august.Base.{
  ℕ, ◌≡◌, ◌≢◌, ◌<◌, lt→ltb, Option-cases, inl, inr, refl, ◌∙◌, false, none, some, ◌==◌, ==_iff,
  arith,
}
use august.Base.Dict.{lookup, insert, nat_eq, lookup-erase, lookup-insert_self}
use august.Blockchain.Primitives.{Crypto}
use august.Blockchain.Account.{States}
use august.Blockchain.Block.{Block, Chain, block_hash, add_header, add_block}
use august.Blockchain.Getters.{set_account_states}
use august.Blockchain.ValidateBlock.{World, valid, validate_block}
use august.Node.State.{NodeState, Environment, done, current_chain, try_connect_orphan_children}
use august.Node.Queries.{find_block, get_chain_head, head_of}
use august.Node.Fork.{ParentChain}
use august.Node.Extend.{accept_block}
use august.Node.Process.{submit_block, store_block, connect_header, current_states}
use august.Node.Process.Verdict.{Extends, process_header-validates, hash-ne-current_tip}
use august.Node.Process.Path.{connect_header-memory, connect_header-tip}

-- A stored block is found under its hash.
find_block-store_block :
    (w : World) (b : Block) (s : NodeState)
    → find_block (block_hash w.crypto b) (store_block w b s) ≡ some b
unfolding find_block store_block
find_block-store_block w b s = rw (lookup-insert_self (block_hash w.crypto b) b s.submitted) refl

module _ (w : World) (b : Block) (p : ParentChain) (states : States) (s : NodeState) where
  abbrev pub hash : ℕ
  hash = block_hash w.crypto b

  -- The state after a block is accepted, under its hash.
  accept_block-listed :
      hash ≢ s.current_tip → lookup hash (accept_block w hash p b states s).chains ≡ some p.chain
  unfolding accept_block try_connect_orphan_children
  accept_block-listed apart = ground (
    arith,
    lookup-erase s.current_tip hash (insert hash p.chain s.chains),
    lookup-insert_self hash p.chain s.chains,
  )

  accept_block-memory :
      (accept_block w hash p b states s).memory p.chain
      ≡ add_block w.crypto b (set_account_states states (s.memory p.chain))
  unfolding accept_block try_connect_orphan_children
  accept_block-memory = rw ((==_iff p.chain p.chain).1 refl) refl

  accept_block-tip : (accept_block w hash p b states s).current_tip ≡ hash
  unfolding accept_block try_connect_orphan_children
  accept_block-tip = refl

  current_chain-accept_block :
      hash ≢ s.current_tip
      → current_chain (accept_block w hash p b states s)
        ≡ some (add_block w.crypto b (set_account_states states (s.memory p.chain)))
  current_chain-accept_block apart =
      rw (accept_block-tip, accept_block-listed apart, accept_block-memory) refl

is_real : (k : ℕ) → k ≢ 0 → (k == 0) ≡ false
is_real k h = ground arith

-- A block above the tip is the new tip.
add_block-tip :
    (c : Crypto) (b : Block) (chain : Chain)
    → ((t : Block) → chain.tip ≡ some t → t.header.height < b.header.height)
    → (add_block c b chain).tip ≡ some b
unfolding add_block
add_block-tip c b chain above = elim (Option-cases chain.tip) [
  | inl empty ↦ rw empty refl
  | inr (t, e) ↦ rw e (rw (lt→ltb _ _ (above t e)) refl)
]

module _ (w : World) (env : Environment) (b : Block) (p : ParentChain) (states : States)
    (s : NodeState) where
  store_block-Extends : Extends w env b p s → Extends w env b p (store_block w b s)
  unfolding store_block
  store_block-Extends x = record {
    follows = record {
      sound = x.follows.sound;
      unknown = x.follows.unknown;
      found = x.follows.found;
    };
    current = x.current;
  }

  abbrev result : NodeState
  result =
      accept_block w (block_hash w.crypto b) p b states
        (connect_header w b.header p (store_block w b s))

  abbrev new_current : Chain
  new_current =
      add_block w.crypto b
        (set_account_states states (add_header w.crypto b.header (s.memory p.chain)))

  current_chain-result : Extends w env b p s → current_chain result ≡ some new_current
  unfolding store_block
  current_chain-result x =
      current_chain-accept_block w b p states (connect_header w b.header p (store_block w b s))
        (λ e.
          hash-ne-current_tip w env b p s x
            (e ∙ connect_header-tip w b.header p (store_block w b s)))
      ∙ rw (connect_header-memory w b.header p (store_block w b s)) refl

  new_current-tip :
      ((t : Block) → (s.memory p.chain).tip ≡ some t → t.header.height < b.header.height)
      → new_current.tip ≡ some b
  unfolding add_header
  new_current-tip above =
      add_block-tip w.crypto b
        (set_account_states states (add_header w.crypto b.header (s.memory p.chain))) above

  submit_block-result :
      Extends w env b p s
      → validate_block w b (s.memory p.chain) ≡ valid states
      → submit_block w env b s ≡ done none result
  unfolding submit_block store_block
  submit_block-result x is_valid =
      process_header-validates w env b p (store_block w b s) (store_block-Extends x)
        (find_block-store_block w b s) is_valid

  result-is_real : block_hash w.crypto b ≢ 0 → (result.current_tip == 0) ≡ false
  unfolding accept_block try_connect_orphan_children
  result-is_real real = is_real (block_hash w.crypto b) real

  result-head :
      Extends w env b p s
      → block_hash w.crypto b ≢ 0
      → ((t : Block) → (s.memory p.chain).tip ≡ some t → t.header.height < b.header.height)
      → get_chain_head w result ≡ head_of w (some b)
  unfolding get_chain_head
  result-head x real above =
      rw (current_chain-result x, new_current-tip above) (rw (result-is_real real) refl)

  result-states : Extends w env b p s → block_hash w.crypto b ≢ 0 → current_states result ≡ states
  unfolding current_states add_block
  result-states x real = rw (current_chain-result x) (rw (result-is_real real) refl)

  result-find_block : find_block (block_hash w.crypto b) result ≡ some b
  unfolding find_block accept_block connect_header store_block try_connect_orphan_children
  result-find_block = rw (lookup-insert_self (block_hash w.crypto b) b s.submitted) refl

  -- A submitted block whose header extends the current chain, that is valid there, higher than the
  -- tip and of a hash that is not zero, becomes the head of the node: `GetChainHead` tells of it, `ProcessTransaction` validates
  -- against its accounts, and the node finds it under its hash.
  pub submit_block-head :
      Extends w env b p s
      → block_hash w.crypto b ≢ 0
      → ((t : Block) → (s.memory p.chain).tip ≡ some t → t.header.height < b.header.height)
      → validate_block w b (s.memory p.chain) ≡ valid states
      → (s' : NodeState) × (submit_block w env b s ≡ done none s')
        × (get_chain_head w s' ≡ head_of w (some b))
        × (current_states s' ≡ states)
        × (find_block (block_hash w.crypto b) s' ≡ some b)
  submit_block-head x real above is_valid = (
    result,
    submit_block-result x is_valid,
    result-head x real above,
    result-states x real,
    result-find_block,
  )
