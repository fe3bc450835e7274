-- ===== src/Blockchain/MiningTests.antt =====
-- Tests of mining, on the chain of one block of the tests of blocks.
use august.Base.{◌+◌, ◌≡◌, refl, false, none, some, [], ◌∷◌, arith}
use august.Base.Bytes.{ascii, be_bytes}
use august.Base.Dict.{lookup, insert, nat_eq}
use august.Config.{target_compact, block_reward}
use august.Blockchain.Account.{States, new_account}
use august.Blockchain.Transaction.{get_hash, is_deployment}
use august.Types.Literal.{set_string, digit_value, digits, digits_from, value_of_text}
use august.Utils.Compact.{big_bytes, bytes_from, compact_to_big}
use august.Utils.SafeMath.{safe_add, safe_subtract, amount_in_range}
use august.Blockchain.Validate.{validate_transaction, gas_cost_overflows, max_gas_cost, total_cost}
use august.Blockchain.Apply.{apply_transaction, apply_coinbase, pay, transfer}
use august.Blockchain.Merkle.{
  merkle_transactions, merkle_root, merkle_loop, even_out, hash_pair, pair_up,
}
use august.Blockchain.Header.{header_hash, work_value, meets_difficulty, add_work, work_from_bits}
use august.Blockchain.Block.{Block, target_bits}
use august.Blockchain.ValidateBlock.{
  World, valid, all_applied, run_transactions, copy_states, validate_block, is_genesis,
}
use august.Blockchain.Mining.{
  BlockCreationParams, Nonce, with_nonce, search, mine_correct_nonce, gather, made, new_block,
}
use august.Blockchain.Mining.Search.{IsFirst, mine_correct_nonce-IsFirst}
use august.Blockchain.Mining.Loops.{AllKnown}
use august.Blockchain.Mining.Accepted.{Follows, mined_block_valid}
use august.Blockchain.BlockTests.{
  toy, payment, coinbase, header, parent, world, states, chain, states-NoCode, payment-IsTransfer,
}

mine_correct_nonce-IsFirst_example :
    (r : Nonce) × (mine_correct_nonce toy (with_nonce header 7) target_compact ≡ some r)
    × IsFirst toy target_compact header 7 r
mine_correct_nonce-IsFirst_example =
    mine_correct_nonce-IsFirst toy target_compact header 7 (omega arith)

abbrev mining_world : World
mining_world = record world {
  genesis = record { header = record header { nonce = 77 }; transactions = [] };
}

abbrev params : BlockCreationParams
params = record {
  version = 1;
  previous_hash = 1;
  height = 1;
  previous_work = ascii "0";
  coinbase = coinbase;
  transactions = payment ∷ [];
  timestamp = 1600;
  target_bits = target_compact;
  current_states = states;
}

abbrev mined : Block
mined = record {
  header = record {
    version = 1;
    previous_hash = 1;
    height = 1;
    timestamp = 1600;
    nonce = 0;
    merkle_root = 2;
    state_root = 0;
    receipt_root = 0;
    bits = target_compact;
    total_work = add_work (ascii "0") (work_from_bits target_compact);
    gas_limit = 8000000;
    gas_used = 21000;
    beneficiary = 9;
  };
  transactions = coinbase ∷ payment ∷ [];
}

is_made : new_block toy none 0 params ≡ made mined
unfolding new_block gather copy_states apply_transaction transfer lookup insert pay safe_add
    safe_subtract is_deployment merkle_transactions merkle_root merkle_loop get_hash even_out
    hash_pair pair_up be_bytes mine_correct_nonce search header_hash meets_difficulty work_value
    set_string digit_value digits digits_from value_of_text big_bytes bytes_from compact_to_big
    add_work work_from_bits
is_made = refl

follows : Follows toy 0 params chain
unfolding lookup target_bits header_hash be_bytes work_value set_string digit_value digits
    digits_from value_of_text big_bytes bytes_from
follows = record {
  parent = parent;
  is_tip = refl;
  is_known = refl;
  is_parent = refl;
  same_bits = refl;
  later = omega arith;
  same_states = refl;
}

abbrev after_block : States
after_block =
    (7, record (new_account 7 957500) { nonce = 1 })
    ∷ (8, new_account 8 540)
    ∷ (9, new_account 9 (block_reward + 42000))
    ∷ []

all_run :
    run_transactions mining_world (coinbase ∷ payment ∷ []) (copy_states states) 0 0
    ≡ all_applied after_block 21000 42000
unfolding run_transactions lookup get_hash be_bytes validate_transaction amount_in_range
    apply_transaction apply_coinbase copy_states insert pay transfer is_deployment
    gas_cost_overflows max_gas_cost total_cost safe_add safe_subtract
all_run = refl

mined_other : is_genesis mining_world mined ≡ false
unfolding header_hash be_bytes work_value big_bytes set_string bytes_from digits digits_from
    digit_value value_of_text add_work work_from_bits
mined_other = refl

senders_known : AllKnown (payment ∷ []) states
unfolding lookup
senders_known = ((λ e. cc), tt)

mined_block_valid_example : validate_block mining_world mined chain ≡ valid after_block
mined_block_valid_example =
    mined_block_valid mining_world 0 params mined chain after_block 21000 42000 is_made follows
      mined_other refl payment-IsTransfer states-NoCode senders_known all_run
