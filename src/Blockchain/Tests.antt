-- ===== src/Blockchain/Tests.antt =====
-- Tests of blockchain/, and instances of its theorems.
use august.Base.{ℕ, ◌+◌, ◌*◌, ◌%◌, ◌^◌, ◌≡◌, ◌≢◌, ◌↔◌, refl, none, some, [], ◌∷◌, ◌++◌, ◌==◌, arith}
use august.Base.Bytes.{from_be, be_bytes}
use august.Base.Dict.{lookup, nat_eq}
use august.Blockchain.Primitives.{Crypto}
use august.Blockchain.Account.{States, new_account, supply}
use august.Blockchain.Transaction.{Transaction, IsTransaction, get_hash, is_deployment}
use august.Blockchain.Validate.{validate_transaction}
use august.Blockchain.Validate.Spec.{Fits, IsPayable, validate_transaction_iff}
use august.Blockchain.Apply.{ok, apply_transaction}
use august.Blockchain.Apply.Transfer.{
  Takes, gas_of, paid, with_amount, transferred, apply_transaction-transfer,
}
use august.Blockchain.Apply.Transfer.Effects.{
  transfer_conserves, transfer_moves, transfer_no_replay,
}
use august.Blockchain.Apply.Unpaid.{coinbase_mints}
use august.Blockchain.ValidateBlock.{World, all_applied, run_transactions}
use august.Blockchain.ValidateBlock.Free.{times, run_transactions-free}
use august.Blockchain.Merkle.{merkle_transactions}
use august.Blockchain.Merkle.Levels.{merkle_transactions-twice}
use august.Blockchain.ValidateBlock.Loop.{supply-Fits}

-- A hash that keeps the last bytes, and signatures that repeat the hash.
abbrev toy : Crypto
toy = record {
  sha256 = λ bs. from_be 0 bs % 2 ^ 255;
  verify = λ key hash signature. hash == signature;
}

abbrev draft : Transaction
draft = record {
  sender = 7;
  recipient = 8;
  amount = 500;
  signature = 0;
  nonce = 1;
  timestamp = 1000;
  chain_id = 1;
  instructions = [];
  gas_limit = 30000;
  gas_price = 2;
  payload = [];
}

abbrev payment : Transaction
payment = record draft { signature = get_hash toy draft }

abbrev states : States
states = (7, record (new_account 7 1000000) { nonce = 0 }) ∷ (8, new_account 8 40) ∷ []

payment-IsTransaction : IsTransaction payment
payment-IsTransaction = record {
  amount_fits = omega arith;
  nonce_fits = omega arith;
  gas_limit_fits = omega arith;
  gas_price_fits = omega arith;
}

states-Fits : Fits states
unfolding supply
states-Fits = supply-Fits states (omega arith)

unfoldable payment-IsPayable : IsPayable toy payment states
unfolding lookup get_hash be_bytes is_deployment from_be
payment-IsPayable = (new_account 7 1000000, refl, omega arith, omega arith, refl, omega arith, refl)

validate_transaction_iff_example :
    (validate_transaction toy payment states ≡ none) ↔ IsPayable toy payment states
validate_transaction_iff_example =
    validate_transaction_iff toy payment states payment-IsTransaction states-Fits (omega arith)

payment-Takes : Takes payment (lookup 8 states)
unfolding lookup
payment-Takes = (refl, omega arith)

apply_transaction-transfer_example :
    apply_transaction toy none payment states
    ≡ (ok (gas_of payment), transferred payment (new_account 7 1000000) states)
unfolding payment-IsPayable
apply_transaction-transfer_example =
    apply_transaction-transfer toy none payment states payment-IsPayable states-Fits
      payment-IsTransaction (omega arith) (omega arith) payment-Takes (omega arith)

transfer_conserves_example :
    let (r, after) = apply_transaction toy none payment states in
    (r ≡ ok (gas_of payment)) × (supply after + gas_of payment * 2 ≡ supply states)
transfer_conserves_example =
    transfer_conserves toy none payment states payment-IsPayable states-Fits payment-IsTransaction
      (omega arith) (omega arith) payment-Takes (omega arith)

transfer_moves_example :
    let after = (apply_transaction toy none payment states).1 in
    (lookup 7 after ≡ some (paid payment (gas_of payment) (new_account 7 1000000)))
    × (lookup 8 after ≡ some (with_amount payment (lookup 8 states)))
    × ((k : ℕ) → k ≢ 7 → k ≢ 8 → lookup k after ≡ lookup k states)
unfolding payment-IsPayable
transfer_moves_example =
    transfer_moves toy none payment states payment-IsPayable states-Fits payment-IsTransaction
      (omega arith) (omega arith) (omega arith) payment-Takes (omega arith)

transfer_no_replay_example : ¬ IsPayable toy payment (apply_transaction toy none payment states).1
transfer_no_replay_example =
    transfer_no_replay toy none payment states payment-IsPayable states-Fits payment-IsTransaction
      (omega arith) (omega arith) payment-Takes (omega arith)

-- A transaction that creates money for account 9, with no signature.
abbrev gift : Transaction
gift = record draft { sender = 0; recipient = 9; amount = 1000000000 }

coinbase_mints_example :
    let (r, after) = apply_transaction toy none gift states in
    (validate_transaction toy gift states ≡ none)
    × (r ≡ ok 0)
    × (supply after ≡ supply states + 1000000000)
unfolding lookup
coinbase_mints_example =
    coinbase_mints toy none gift states
      (record {
        amount_fits = omega arith;
        nonce_fits = omega arith;
        gas_limit_fits = omega arith;
        gas_price_fits = omega arith;
      })
      refl (omega arith)

-- A transaction to nobody.
abbrev nothing_draft : Transaction
nothing_draft = record draft { recipient = 0; gas_limit = 1 }

abbrev nothing : Transaction
nothing = record nothing_draft { signature = get_hash toy nothing_draft }

nothing-IsPayable : IsPayable toy nothing states
unfolding lookup get_hash be_bytes is_deployment from_be
nothing-IsPayable = (new_account 7 1000000, refl, omega arith, omega arith, refl, omega arith, refl)

abbrev plain_world : World
plain_world = record {
  crypto = toy;
  executor = none;
  genesis = record {
    header = record {
      version = 1;
      previous_hash = 0;
      height = 0;
      timestamp = 0;
      nonce = 0;
      merkle_root = 0;
      state_root = 0;
      receipt_root = 0;
      bits = 0;
      total_work = [];
      gas_limit = 0;
      gas_used = 0;
      beneficiary = 0;
    };
    transactions = [];
  };
}

nothing-IsTransaction : IsTransaction nothing
nothing-IsTransaction = record {
  amount_fits = omega arith;
  nonce_fits = omega arith;
  gas_limit_fits = omega arith;
  gas_price_fits = omega arith;
}

run_transactions-free_example :
    run_transactions plain_world (times 3 nothing) states 0 0
    ≡ all_applied states (0 + 3 * 21000) (0 + 3 * (21000 * nothing.gas_price))
run_transactions-free_example =
    run_transactions-free plain_world nothing states nothing-IsTransaction states-Fits (omega arith)
      refl refl nothing-IsPayable 3 0 0 (omega arith) (omega arith)

merkle_transactions-twice_example :
    merkle_transactions toy ((payment ∷ gift ∷ []) ++ nothing ∷ [])
    ≡ merkle_transactions toy ((payment ∷ gift ∷ []) ++ nothing ∷ nothing ∷ [])
merkle_transactions-twice_example =
    merkle_transactions-twice toy (payment ∷ gift ∷ []) nothing refl (omega arith)
