-- ===== src/Node/Extend.antt =====
-- node/header_processing.go: a header that extends a chain of the node.
use august.Base.{
  ℕ, Bool, true, false, Option, none, some, List, [], ◌∷◌, ◌==◌, ◌&&◌, not, if◌then◌else◌,
}
use august.Base.Dict.{Dict, insert, erase, nat_eq}
use august.Blockchain.Account.{States}
use august.Blockchain.Header.{BlockHeader, header_hash}
use august.Blockchain.Block.{Block, block_hash, add_block}
use august.Blockchain.Getters.{set_account_states}
use august.Blockchain.HeaderChain.{HeaderError}
use august.Blockchain.ValidateBlock.{
  World, BlockError, switch_chain, Validated, valid, invalid, crashed, validate_block,
}
use august.Node.Orphans.{add_orphan}
use august.Node.State.{
  NodeState, Outcome, done, panics, Reply, timeout, answers, Environment, put_chain,
  try_connect_orphan_children,
}
use august.Node.Queries.{find_block}
use august.Node.Fork.{ParentChain}

-- The errors of `ProcessHeader`.
pub data NodeError : Type 0 where
  invalid_header : HeaderError → NodeError
  failed_build failed_block : BlockError → NodeError

-- `blocksMap`: the blocks of the answers, by their hashes.
unfoldable pub index_blocks : World → List Block → Dict ℕ Block → Dict ℕ Block
unfolding header_hash
index_blocks w [] m = m
index_blocks w (b ∷ bs) m = index_blocks w bs (insert (block_hash w.crypto b) b m)

unfoldable pub collect : World → List (List Block) → Dict ℕ Block → Dict ℕ Block
unfolding index_blocks
collect w [] m = m
collect w (bs ∷ more) m = collect w more (index_blocks w bs m)

abbrev pub values : Dict ℕ Block → List Block
values [] = []
values ((k, b) ∷ m) = b ∷ values m

abbrev pub fetched : World → Environment → Reply Block → List Block
fetched w env timeout = []
fetched w env (answers replies) = values (env.blocks_order (collect w replies []))

-- The blocks that `handleCurrentChainExtension` takes from what the node has, or from its peers.
abbrev pub local_or_fetched : World → Environment → ℕ → Option Block → List Block
local_or_fetched w env hash (some b) = b ∷ []
local_or_fetched w env hash none = fetched w env (env.answer_blocks (hash ∷ []))

abbrev pub is_switch : BlockError → Bool
is_switch switch_chain = true
is_switch e = false

-- `cleanupFailedHeader`
unfoldable pub cleanup_failed_header : BlockHeader → ℕ → ParentChain → Bool → NodeState → NodeState
unfolding add_orphan erase insert
cleanup_failed_header h hash parent restore s =
    let chain = s.memory parent.chain in
    record (put_chain parent.chain (record chain { headers = erase hash chain.headers }) s) {
      headers_map = erase hash s.headers_map;
      chains = insert parent.tip parent.chain (erase hash s.chains);
      orphans = if restore then add_orphan h s.orphans else s.orphans;
    }

abbrev pub drop_old_tip : ℕ → ℕ → Dict ℕ ℕ → Dict ℕ ℕ
drop_old_tip old hash chains =
    if not (old == 0) && not (old == hash) then erase old chains else chains

-- The end of `handleCurrentChainExtension` once a block is validated, with `ApplyBlock`.
unfoldable pub accept_block : World → ℕ → ParentChain → Block → States → NodeState → NodeState
unfolding header_hash try_connect_orphan_children erase insert add_block
accept_block w hash parent b states s =
    let chain = add_block w.crypto b (set_account_states states (s.memory parent.chain)) in
    try_connect_orphan_children hash (record (put_chain parent.chain chain s) {
      blocks_map = insert hash b s.blocks_map;
      chains = drop_old_tip s.current_tip hash (insert hash parent.chain s.chains);
      current_tip = hash;
    })

abbrev pub after_validation :
    World → BlockHeader → ℕ → ParentChain → Block → Validated → NodeState → Outcome NodeError
after_validation w h hash parent b crashed s = panics
after_validation w h hash parent b (invalid e) s =
    done (some (failed_block e)) (cleanup_failed_header h hash parent (not (is_switch e)) s)
after_validation w h hash parent b (valid states) s =
    done none (accept_block w hash parent b states s)

abbrev pub validate_first :
    World → BlockHeader → ℕ → ParentChain → List Block → NodeState → Outcome NodeError
validate_first w h hash parent [] s = done none s
validate_first w h hash parent (b ∷ bs) s =
    after_validation w h hash parent b (validate_block w b (s.memory parent.chain)) s

-- `handleCurrentChainExtension`
unfoldable pub handle_current_chain_extension :
    World → Environment → BlockHeader → ℕ → ParentChain → NodeState → Outcome NodeError
unfolding find_block collect cleanup_failed_header accept_block
handle_current_chain_extension w env h hash parent s =
    validate_first w h hash parent (local_or_fetched w env hash (find_block hash s)) s
