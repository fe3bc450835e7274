-- ===== src/Blockchain/BlockTests.antt =====
-- Tests of the validation of blocks, on a chain of one block and its successor.
use august.Base.{
  ℕ, ◌+◌, ◌≡◌, ◌≢◌, ◌↔◌, refl, false, none, some, List, [], ◌∷◌, ◌++◌, arith, ◌==◌, if◌then◌else◌,
}
use august.Base.Bytes.{Bytes, ascii, be_bytes}
use august.Base.Dict.{lookup, insert, nat_eq}
use august.Config.{block_reward, target_compact}
use august.Blockchain.Primitives.{Crypto}
use august.Blockchain.Account.{States, new_account, supply}
use august.Blockchain.Transaction.{Transaction, IsTransaction, get_hash, is_deployment}
use august.Types.Literal.{set_string, digit_value, digits, digits_from, value_of_text}
use august.Utils.Compact.{big_bytes, bytes_from, compact_to_big}
use august.Utils.SafeMath.{safe_add, safe_subtract, amount_in_range}
use august.Blockchain.Validate.{
  validate_transaction, gas_cost_overflows, max_gas_cost, total_cost, invalid_nonce,
}
use august.Blockchain.Apply.{apply_transaction, apply_coinbase, pay, transfer}
use august.Blockchain.Merkle.{
  merkle_transactions, merkle_root, merkle_loop, even_out, hash_pair, pair_up,
}
use august.Blockchain.Header.{BlockHeader, header_hash, work_value, meets_difficulty}
use august.Blockchain.Block.{Block, Chain, target_bits, block_hash, add_block}
use august.Blockchain.Getters.{get_block, get_header, get_block_at_height}
use august.Blockchain.Getters.AfterAdd.{add_block-getters}
use august.Blockchain.ValidateBlock.{
  World, Validated, valid, invalid, crashed, panics, wrong_gas_used, invalid_transaction,
  run_transactions, copy_states, validate_block, validate_structure, is_genesis,
}
use august.Blockchain.ValidateBlock.Loop.{NoCode, AllTransfers}
use august.Blockchain.HeaderChain.{validate_header_structure}
use august.Blockchain.ValidateBlock.Structure.{
  passed, invalid_signature_at, check_signatures, check_transactions, validate_block_structure,
}
use august.Blockchain.ValidateBlock.Structure.Agrees.{Others, validate_block_structure_iff}
use august.Blockchain.ValidateBlock.Calm.{validate_block-calm}

abbrev pub last_byte : ℕ → Bytes → ℕ
last_byte x [] = x
last_byte x (b ∷ bs) = last_byte b bs

-- A hash that keeps the last byte, and signatures that repeat the hash: a header's hash is its
-- nonce, and a transaction's its gas price.
abbrev pub toy : Crypto
toy = record { sha256 = λ bs. last_byte 0 bs; verify = λ key hash signature. hash == signature }

abbrev pub draft : Transaction
draft = record {
  sender = 7;
  recipient = 8;
  amount = 500;
  signature = 0;
  nonce = 1;
  timestamp = 1000;
  chain_id = 1;
  instructions = [];
  gas_limit = 30000;
  gas_price = 2;
  payload = [];
}

abbrev pub payment : Transaction
payment = record draft { signature = 2 }

-- The fees of the payment and the reward.
abbrev pub coinbase : Transaction
coinbase = record draft { sender = 0; recipient = 9; amount = block_reward + 42000 }

abbrev pub header : BlockHeader
header = record {
  version = 1;
  previous_hash = 0;
  height = 0;
  timestamp = 1000;
  nonce = 1;
  merkle_root = 0;
  state_root = 0;
  receipt_root = 0;
  bits = target_compact;
  total_work = ascii "0";
  gas_limit = 1000000;
  gas_used = 0;
  beneficiary = 0;
}

abbrev pub parent : Block
parent = record { header = header; transactions = [] }

abbrev pub world : World
world = record {
  crypto = toy;
  executor = none;
  genesis = record { header = record header { nonce = 0 }; transactions = [] };
}

abbrev pub states : States
states = (7, new_account 7 1000000) ∷ (8, new_account 8 40) ∷ []

abbrev pub chain : Chain
chain = record {
  blocks = some parent ∷ [];
  block_index = (1, parent) ∷ [];
  headers = (1, header) ∷ [];
  account_states = states;
  tip = some parent;
}

abbrev pub next_block : ℕ → List Transaction → Block
next_block gas ts = record {
  header = record header {
    previous_hash = 1;
    height = 1;
    timestamp = 1600;
    nonce = 2;
    merkle_root = 2;
    gas_used = gas;
  };
  transactions = ts;
}

abbrev pub after_block : States
after_block =
    (7, record (new_account 7 957500) { nonce = 1 })
    ∷ (8, new_account 8 540)
    ∷ (9, new_account 9 (block_reward + 42000))
    ∷ []

unfoldable pub check : Block → Validated
unfolding validate_block validate_structure header_hash set_string lookup meets_difficulty
    target_bits merkle_transactions merkle_root merkle_loop get_hash run_transactions
    validate_transaction amount_in_range apply_transaction apply_coinbase copy_states be_bytes
    insert pay transfer work_value even_out hash_pair pair_up is_deployment gas_cost_overflows
    max_gas_cost total_cost digit_value digits digits_from value_of_text big_bytes bytes_from
    compact_to_big safe_add safe_subtract
check b = validate_block world b chain

is_valid : check (next_block 21000 (coinbase ∷ payment ∷ [])) ≡ valid after_block
unfolding check
is_valid = refl

wrong_gas : check (next_block 20999 (coinbase ∷ payment ∷ [])) ≡ invalid wrong_gas_used
unfolding check
wrong_gas = refl

-- A block that spends twice.
twice :
    check (next_block 42000 (coinbase ∷ payment ∷ payment ∷ []))
    ≡ invalid (invalid_transaction invalid_nonce)
unfolding check
twice = refl

not_genesis : (gas : ℕ) (ts : List Transaction) → is_genesis world (next_block gas ts) ≡ false
unfolding header_hash be_bytes work_value big_bytes set_string bytes_from digits digits_from
    digit_value value_of_text
not_genesis gas ts = refl

valid_block :
    validate_block world (next_block 21000 (coinbase ∷ payment ∷ [])) chain ≡ valid after_block
unfolding check
valid_block = is_valid

pub states-NoCode : NoCode states
unfolding lookup
states-NoCode k a e = ground arith

coinbase-IsTransaction : IsTransaction coinbase
coinbase-IsTransaction = record {
  amount_fits = omega arith;
  nonce_fits = omega arith;
  gas_limit_fits = omega arith;
  gas_price_fits = omega arith;
}

pub payment-IsTransfer : AllTransfers (payment ∷ [])
payment-IsTransfer = (
  (
    record {
      amount_fits = omega arith;
      nonce_fits = omega arith;
      gas_limit_fits = omega arith;
      gas_price_fits = omega arith;
    },
    omega arith,
    omega arith,
  ),
  tt,
)

abbrev empty_block : Block
empty_block = record {
  header = record (next_block 0 []).header { merkle_root = 0 };
  transactions = [];
}

-- A block of no transactions makes the code panic.
empty_crashes : check empty_block ≡ crashed
unfolding check
empty_crashes = refl

structure_calm :
    validate_structure world (next_block 21000 (coinbase ∷ payment ∷ [])) chain ≢ panics
unfolding check
structure_calm h = cc

validate_block-calm_example :
    validate_block world (next_block 21000 (coinbase ∷ payment ∷ [])) chain ≢ crashed
unfolding supply
validate_block-calm_example =
    validate_block-calm world (next_block 21000 (coinbase ∷ payment ∷ [])) chain coinbase
      (payment ∷ []) structure_calm refl coinbase-IsTransaction refl payment-IsTransfer
      states-NoCode (omega arith)

add_block-getters_example :
    let b = next_block 21000 (coinbase ∷ payment ∷ []) in
    let after = add_block toy b chain in
    ((k : ℕ) → get_block k after ≡ (if block_hash toy b == k then some b else get_block k chain))
    × ((k : ℕ)
        → get_header k after
          ≡ (if block_hash toy b == k then some b.header else get_header k chain))
    × ((h : ℕ)
        → get_block_at_height h after
          ≡ (if b.header.height == h then some b else get_block_at_height h chain))
add_block-getters_example = add_block-getters toy (next_block 21000 (coinbase ∷ payment ∷ [])) chain

validate_block_structure_iff_example :
    (validate_block_structure toy
        (block_hash toy world.genesis)
        (next_block 21000 (coinbase ∷ payment ∷ []))
      ≡ passed)
    ↔ (◌≢◌ {A = ℕ} 1 0 × Others toy (coinbase ∷ payment ∷ []))
unfolding header_hash
validate_block_structure_iff_example =
    validate_block_structure_iff world (next_block 21000 (coinbase ∷ payment ∷ [])) chain
      (not_genesis 21000 (coinbase ∷ payment ∷ [])) valid_block

-- A second transaction without a sender makes money out of nothing in a valid block.
abbrev minting : Block
minting = next_block 0 (record coinbase { amount = block_reward } ∷ coinbase ∷ [])

mint_accepted :
    check minting
    ≡ valid (states ++ ((9, new_account 9 (block_reward + (block_reward + 42000))) ∷ []))
unfolding check
mint_accepted = refl

-- Only the check without a chain finds it.
mint_found : validate_block_structure toy 0 minting ≡ invalid_signature_at 1
unfolding validate_block_structure validate_header_structure check_transactions check_signatures
    header_hash set_string meets_difficulty merkle_transactions merkle_root be_bytes work_value
    digit_value digits digits_from value_of_text big_bytes bytes_from compact_to_big merkle_loop
    get_hash even_out hash_pair pair_up
mint_found = refl
