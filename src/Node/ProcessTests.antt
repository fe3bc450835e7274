-- ===== src/Node/ProcessTests.antt =====
-- Tests of the processing of headers, and instances of its theorems, on the blocks of
-- Blockchain/BlockTests.antt: a header's hash is its nonce.
use mathlib.Core.List.Perm
use august.Base.{
  ℕ, ◌≡◌, ◌≢◌, ◌⊎◌, ◌<◌, refl, false, none, some, List, [], ◌∷◌, ◌++◌, ◌==◌, if◌then◌else◌, arith,
}
use august.Base.Bytes.{ascii, be_bytes, bytes_eq}
use august.Base.Dict.{lookup, insert, erase, nat_eq}
use august.Config.{block_reward, target_compact}
use august.Types.Literal.{set_string, digit_value, digits, digits_from, value_of_text}
use august.Utils.Compact.{big_bytes, bytes_from, compact_to_big}
use august.Blockchain.Header.{
  BlockHeader, header_hash, work_value, meets_difficulty, add_work, work_from_bits,
}
use august.Blockchain.Block.{Block, block_hash, add_block, add_header, new_chain, target_bits}
use august.Blockchain.HeaderChain.{validate_header_structure, validate_header_total_work}
use august.Blockchain.BlockTests.{
  check, toy, world, states, header, chain, payment, payment-IsTransfer, coinbase, next_block,
  after_block,
}
use august.Blockchain.ValidateBlock.{
  run_transactions, copy_states, validate_block, validate_structure, valid, invalid, wrong_gas_used,
}
use august.Node.Mempool.{new_mempool, add_transaction, add_entry}
use august.Node.State.{
  NodeState, Environment, timeout, answers, Outcome, done, panics, diverges, new_node, update,
  try_connect_orphan_children,
}
use august.Node.Fork.{ParentChain, check_header_exists, find_parent_chain, find_parent_block}
use august.Utils.SafeMath.{safe_add, safe_subtract, amount_in_range}
use august.Blockchain.Transaction.{get_hash, is_deployment}
use august.Blockchain.Validate.{validate_transaction, gas_cost_overflows, max_gas_cost, total_cost}
use august.Blockchain.Apply.{apply_transaction, apply_coinbase, pay, transfer}
use august.Blockchain.Merkle.{
  merkle_transactions, merkle_root, merkle_loop, even_out, hash_pair, pair_up,
}
use august.Node.Process.Switch.{Switched, process_header-switch}
use august.Node.Process.NoSwitch.{AnswersAbove, process_header-no_switch}
use august.Node.Process.Claims.{process_header-any_work}
use august.Node.Process.Path.{Follows}
use august.Node.Process.Verdict.{Extends}
use august.Node.Process.Submit.{submit_block-head}
use august.Node.Process.Timeout.{process_header-timeout}
use august.Node.Process.Returns.{process_header-returns}
use august.Node.Process.Again.{IsOrphan, process_times, process_times-orphan}
use august.Node.Process.Failure.{process_header-refused}
use august.Node.Process.Admission.{Admission, process_transaction-Admission}
use august.Blockchain.ValidateBlock.Loop.{supply-Fits}
use august.Blockchain.Account.{supply}
use august.Node.Process.{
  process_header, process_transaction, connect_header, submit_block, store_block, current_states,
  rejected_by_mempool,
}
use august.Node.Queries.{get_chain_head, head_of, empty_head, find_block, find_header}
use august.Node.Orphans.{waiting, remove_orphan, take_out}
use august.Node.Extend.{NodeError, failed_block, is_switch, collect, index_blocks}
use august.Blockchain.Getters.{get_header}
use august.Node.Ends.{IsRanked}
use august.Node.Steps.{store}
use august.Node.Turns.{for_block, on_tip, Asks, asks_block, starts, beside, start, next}
use august.Node.Indexed.{IsSound}
use august.Node.Indexed.Always.{Reachable-IsSound}

abbrev env : Environment
env = record {
  chains_order = λ m. m;
  blocks_order = λ m. m;
  by_height = λ bs. bs;
  answer_blocks = λ hashes. timeout;
  answer_headers = λ hashes. timeout;
}

-- A node whose current chain has one block.
abbrev node : NodeState
node = record {
  memory = λ a. chain;
  fresh = 1;
  chains = (1, 0) ∷ [];
  current_tip = 1;
  headers_map = (1, header) ∷ [];
  blocks_map = [];
  submitted = [];
  orphans = [];
  mempool = new_mempool;
  spawned = [];
}

-- The next block, with the work of its header.
abbrev worked : ℕ → Block
worked gas = record (next_block gas (coinbase ∷ payment ∷ [])) {
  header = record (next_block gas []).header {
    total_work = add_work (ascii "0") (work_from_bits target_compact);
  };
}

follows_found :
    (gas : ℕ)
    → find_parent_chain world (worked gas).header (env.chains_order node.chains) node.memory
      ≡ some (record { chain = 0; tip = 1 })
unfolding find_parent_chain lookup validate_header_total_work validate_header_structure
    meets_difficulty header_hash set_string add_work work_from_bits bytes_eq
follows_found gas = refl

follows : (gas : ℕ) → Follows world env (worked gas).header (record { chain = 0; tip = 1 }) node
unfolding check_header_exists lookup validate_header_structure meets_difficulty header_hash
    set_string add_work work_from_bits
follows gas = record { sound = refl; unknown = refl; found = follows_found gas }

extends : (gas : ℕ) → Extends world env (worked gas) (record { chain = 0; tip = 1 }) node
extends gas = record { follows = follows gas; current = refl }

accepts : validate_block world (worked 21000) chain ≡ valid after_block
unfolding check add_work work_from_bits
accepts = refl

refuses : validate_block world (worked 20999) chain ≡ invalid wrong_gas_used
unfolding check add_work work_from_bits
refuses = refl

above : (t : Block) → chain.tip ≡ some t → t.header.height < 1
above t e = ground arith

submit_block-head_example :
    (s' : NodeState) × (submit_block world env (worked 21000) node ≡ done none s')
    × (get_chain_head world s' ≡ head_of world (some (worked 21000)))
    × (current_states s' ≡ after_block)
    × (find_block (block_hash world.crypto (worked 21000)) s' ≡ some (worked 21000))
unfolding header_hash set_string add_work work_from_bits
submit_block-head_example =
    submit_block-head world env (worked 21000) (record { chain = 0; tip = 1 }) after_block node
      (extends 21000) (omega arith) above accepts

process_header-timeout_example :
    (s' : NodeState) × (process_header world env (worked 21000).header node ≡ done none s')
    × (get_chain_head world s' ≡ empty_head)
    × (current_states s' ≡ [])
unfolding find_block lookup
process_header-timeout_example =
    process_header-timeout world env (worked 21000).header (record { chain = 0; tip = 1 }) node
      (follows 21000) refl refl refl

ranked : IsRanked (λ k. k) node.headers_map
unfolding lookup
ranked k h e = ground arith

process_header-returns_example : process_header world env (worked 21000).header node ≢ diverges
unfolding header_hash set_string add_work work_from_bits
process_header-returns_example =
    process_header-returns world env (worked 21000).header (λ k. k) node ranked (omega arith)

-- The node has the block, which reports the wrong gas.
abbrev holding : NodeState
holding = record node { submitted = (2, worked 20999) ∷ [] }

holding-Extends : Extends world env (worked 20999) (record { chain = 0; tip = 1 }) holding
holding-Extends = record {
  follows = record {
    sound = (follows 20999).sound;
    unknown = (follows 20999).unknown;
    found = follows_found 20999;
  };
  current = refl;
}

held : find_block (block_hash world.crypto (worked 20999)) holding ≡ some (worked 20999)
unfolding find_block lookup header_hash set_string add_work work_from_bits
held = refl

listed : lookup 1 holding.chains ≡ some 0
unfolding lookup
listed = refl

unlisted : lookup (block_hash world.crypto (worked 20999)) holding.chains ≡ none
unfolding lookup header_hash set_string add_work work_from_bits
unlisted = refl

process_header-refused_example :
    (s' : NodeState) × (process_header world env (worked 20999).header holding
      ≡ done (some (failed_block wrong_gas_used)) s')
    × (get_chain_head world s' ≡ get_chain_head world holding)
    × ((k : ℕ) → lookup k s'.chains ≡ lookup k holding.chains)
    × ((r k : ℕ) → get_header k (s'.memory r) ≡ get_header k (holding.memory r))
    × ((r : ℕ)
        → ((s'.memory r).block_index ≡ (holding.memory r).block_index)
          × ((s'.memory r).account_states ≡ (holding.memory r).account_states)
          × ((s'.memory r).tip ≡ (holding.memory r).tip))
    × ((k : ℕ)
        → find_header k s'
          ≡ (if block_hash world.crypto (worked 20999) == k then none else find_header k holding))
    × (is_switch wrong_gas_used ≡ false
        → waiting 1 s'.orphans
          ≡ waiting 1 (remove_orphan world.crypto (worked 20999).header holding.orphans)
            ++ (worked 20999).header ∷ [])
process_header-refused_example =
    process_header-refused world env (worked 20999) (record { chain = 0; tip = 1 }) wrong_gas_used
      holding holding-Extends held refuses listed unlisted

-- A header whose parent no chain has.
abbrev lonely : BlockHeader
lonely = record (worked 21000).header { previous_hash = 5 }

lonely-IsOrphan : IsOrphan world env lonely node
unfolding check_header_exists lookup validate_header_structure meets_difficulty header_hash
    set_string find_parent_chain find_parent_block add_work work_from_bits
lonely-IsOrphan = record { sound = refl; unknown = refl; no_chain = refl; no_block = refl }

process_times-orphan_example :
    (s' : NodeState) × (process_times world env lonely 3 node ≡ done none s')
    × (waiting 5 s'.orphans ≡ lonely ∷ lonely ∷ lonely ∷ [])
unfolding lookup
process_times-orphan_example = process_times-orphan world env lonely 3 node lonely-IsOrphan

-- A second chain, of the genesis block alone, and a block on it that a peer sends.
abbrev rival : Block
rival = record {
  header = record (worked 0).header { previous_hash = 0 };
  transactions = record coinbase { amount = block_reward } ∷ [];
}

abbrev two_chains : NodeState
two_chains = record node {
  memory = update node.memory 1 (new_chain toy world.genesis);
  fresh = 2;
  chains = (1, 0) ∷ (0, 1) ∷ [];
}

abbrev sending : Environment
sending = record env { answer_blocks = λ hashes. answers ((rival ∷ []) ∷ []) }

abbrev result_of : {E : Type 0} → Outcome E → NodeState
result_of (done e s) = s
result_of panics = node
result_of diverges = node

rival-Follows : Follows world sending rival.header (record { chain = 1; tip = 0 }) two_chains
unfolding check_header_exists lookup validate_header_structure meets_difficulty header_hash
    set_string add_work work_from_bits find_parent_chain validate_header_total_work bytes_eq
    new_chain
rival-Follows = record { sound = refl; unknown = refl; found = refl }

processed : Outcome NodeError
unfolding process_header meets_difficulty set_string add_work work_from_bits lookup new_chain
    validate_header_total_work bytes_eq validate_block validate_structure target_bits
    merkle_transactions merkle_root merkle_loop get_hash run_transactions validate_transaction
    amount_in_range apply_transaction apply_coinbase copy_states be_bytes insert pay transfer
    work_value even_out hash_pair pair_up is_deployment gas_cost_overflows max_gas_cost total_cost
    digit_value digits digits_from value_of_text big_bytes bytes_from compact_to_big safe_add
    safe_subtract header_hash
processed = process_header world sending rival.header two_chains

abbrev switched : NodeState
unfolding processed
switched = result_of processed

switch_ends : process_header world sending rival.header two_chains ≡ done none switched
unfolding processed
switch_ends = refl

-- The rival has become the current tip.
switch_moves : switched.current_tip ≡ 2
unfolding processed
switch_moves = refl

process_header-switch_example : (switched.current_tip ≡ 1) ⊎ Switched world two_chains switched
unfolding header_hash set_string add_work work_from_bits
process_header-switch_example =
    process_header-switch world sending rival.header (record { chain = 1; tip = 0 }) two_chains
      rival-Follows (omega arith) (omega arith) switch_ends

-- The peer sends a block from higher up.
abbrev far : Block
far = record rival { header = record rival.header { previous_hash = 9; nonce = 8 } }

abbrev sending_far : Environment
sending_far = record env { answer_blocks = λ hashes. answers ((far ∷ []) ∷ []) }

far-AnswersAbove : (l : List ℕ) → AnswersAbove world sending_far (answers ((far ∷ []) ∷ []))
unfolding collect index_blocks insert header_hash set_string add_work work_from_bits
far-AnswersAbove l = (refl, omega arith)

process_header-no_switch_example :
    (s' : NodeState) × (process_header world sending_far rival.header two_chains ≡ done none s')
    × (s'.current_tip ≡ 1)
    × ((r : ℕ) → (s'.memory r).tip ≡ (two_chains.memory r).tip)
unfolding header_hash set_string add_work work_from_bits
process_header-no_switch_example =
    process_header-no_switch world sending_far rival.header (record { chain = 1; tip = 0 })
      two_chains (λ k. k)
      (record {
        sound = rival-Follows.sound;
        unknown = rival-Follows.unknown;
        found = rival-Follows.found;
      })
      (omega arith) ranked (omega arith) far-AnswersAbove

-- A header on the genesis block that claims no work at all.
abbrev idle : BlockHeader
idle = record rival.header { total_work = ascii "0" }

idle_sound : validate_header_structure toy (block_hash toy world.genesis) idle ≡ none
unfolding validate_header_structure meets_difficulty header_hash set_string
idle_sound = refl

process_header-any_work_example :
    (s' : NodeState) × (process_header world env idle (new_node world) ≡ done none s')
    × (find_header (header_hash toy idle) s' ≡ some idle)
unfolding header_hash set_string
process_header-any_work_example =
    process_header-any_work world env idle idle_sound refl (omega arith) refl refl

-- The pool has the payment after it was sent, and rejects it the next time.
pooled : NodeState
unfolding process_transaction
pooled = (process_transaction world payment 5 node).1

sent_once : (process_transaction world payment 5 node).0 ≡ none
unfolding process_transaction validate_transaction lookup amount_in_range is_deployment
    gas_cost_overflows max_gas_cost total_cost get_hash be_bytes safe_add
sent_once = refl

sent_twice : (process_transaction world payment 6 pooled).0 ≡ some rejected_by_mempool
unfolding pooled process_transaction validate_transaction lookup amount_in_range is_deployment
    gas_cost_overflows max_gas_cost total_cost get_hash be_bytes safe_add add_transaction add_entry
    insert
sent_twice = refl

process_transaction-Admission_example :
    Admission world payment 5 node (process_transaction world payment 5 node)
unfolding current_states lookup supply
process_transaction-Admission_example =
    process_transaction-Admission world payment 5 node payment-IsTransfer.0.0
      (supply-Fits states (omega arith)) (omega arith)

-- A header on the genesis block, of whose block the node knows nothing: it asks for it.
abbrev genesis_tip : ParentChain
genesis_tip = record { chain = 0; tip = 0 }

asked : NodeState
asked = connect_header world rival.header genesis_tip (new_node world)

not_there : find_block (header_hash toy rival.header) asked ≡ none
unfolding asked connect_header find_block lookup insert erase add_header new_node header_hash
    set_string new_chain add_block remove_orphan take_out try_connect_orphan_children add_work
    work_from_bits
not_there = refl

rival-Asks :
    Asks world sending rival.header
      (new_node world)
      (for_block rival.header (header_hash toy rival.header) genesis_tip)
      asked
unfolding asked validate_header_structure meets_difficulty header_hash set_string add_work
    work_from_bits check_header_exists new_node lookup add_block add_header new_chain
    find_parent_chain validate_header_total_work bytes_eq
rival-Asks = asks_block (on_tip refl refl refl) refl not_there

-- A block is stored while the node waits.
Reachable-IsSound_example : IsSound world (store_block world (worked 1) asked)
Reachable-IsSound_example = Reachable-IsSound world (
    next (next start (starts sending rival.header (λ m. Perm.refl m) rival-Asks)) (
      beside (λ l. l) (for_block rival.header (header_hash toy rival.header) genesis_tip) []
        (λ l. Perm.refl l) (store (worked 1) asked) tt))
