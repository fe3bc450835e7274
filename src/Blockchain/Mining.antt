-- ===== src/Blockchain/Mining.antt =====
-- blockchain/mining.go: a new block from transactions, and the search for its nonce.
pub mod Search
pub mod Loops
pub mod Made
pub mod First
pub mod Accepted
use august.Base.{
  ℕ, zero, suc, ◌+◌, ◌-◌, ◌*◌, ◌%◌, Bool, true, false, Option, none, some, List, [], ◌∷◌, ltb, ◌==◌,
  if◌then◌else◌,
}
use august.Config.{u64_mod, block_reward}
use august.Utils.SafeMath.{safe_add}
use august.Base.Bytes.{Bytes}
use august.Blockchain.Primitives.{Crypto}
use august.Blockchain.Merkle.{merkle_transactions}
use august.Blockchain.Account.{States}
use august.Blockchain.Transaction.{Transaction}
use august.Blockchain.Executor.{ContractExecutor}
use august.Blockchain.Apply.{Applied, ok, err, panic, apply_transaction}
use august.Blockchain.Header.{BlockHeader, header_hash, meets_difficulty, add_work, work_from_bits}
use august.Blockchain.Block.{Block}
use august.Blockchain.ValidateBlock.{copy_states}

-- `BlockCreationParams`
pub record BlockCreationParams : Type 0 where
  pub version : ℕ
  pub previous_hash : ℕ
  pub height : ℕ
  pub previous_work : Bytes
  pub coinbase : Transaction
  pub transactions : List Transaction
  pub timestamp : ℕ
  pub target_bits : ℕ
  pub current_states : States

-- A nonce, or the error of `MineCorrectNonce`.
pub data Nonce : Type 0 where
  found : ℕ → Nonce
  nonce_overflow : Nonce

abbrev pub with_nonce : BlockHeader → ℕ → BlockHeader
with_nonce h n = record h { nonce = n }

-- The loop of `MineCorrectNonce`; `none` is a lack of fuel.
unfoldable pub search : Crypto → ℕ → ℕ → BlockHeader → Option Nonce
unfolding header_hash meets_difficulty
search c bits zero h = none
search c bits (suc fuel) h =
    let next = (h.nonce + 1) % u64_mod in
    elim (meets_difficulty (header_hash c h) bits) [
      | true ↦ some (found h.nonce)
      | false ↦ elim (next == u64_mod - 1) [
        | true ↦ some nonce_overflow
        | false ↦ search c bits fuel (with_nonce h next)
      ]
    ]

-- `MineCorrectNonce`; there are no more rounds than nonces.
unfoldable pub mine_correct_nonce : Crypto → BlockHeader → ℕ → Option Nonce
unfolding search
mine_correct_nonce c h bits = search c bits u64_mod h

pub data MiningError : Type 0 where
  fees_overflow gas_overflow wrong_coinbase over_gas_limit no_nonce : MiningError

-- What the loop over the transactions adds up: gas and fees.
pub data Gathered : Type 0 where
  gathered : ℕ → ℕ → Gathered
  stopped : MiningError → Gathered
  halted : Gathered

abbrev pub add_gas : (ℕ → Gathered) → Option ℕ → Gathered
add_gas rest none = stopped gas_overflow
add_gas rest (some gas) = rest gas

abbrev pub add_fees : (ℕ → ℕ → Gathered) → ℕ → ℕ → Option ℕ → Gathered
add_fees rest gas used none = stopped fees_overflow
add_fees rest gas used (some fees) = add_gas (λ g. rest g fees) (safe_add gas used)

-- A transaction that fails is passed over; what it has done to the accounts stays.
abbrev pub gather_next :
    (States → ℕ → ℕ → Gathered) → Transaction → ℕ → ℕ → Applied × States → Gathered
gather_next rest t gas fees (panic, states) = halted
gather_next rest t gas fees (err used e, states) = rest states gas fees
gather_next rest t gas fees (ok used, states) =
    add_fees (rest states) gas used (safe_add fees (used * t.gas_price % u64_mod))

-- The loop of `NewBlock`.
unfoldable pub gather :
    Crypto → Option ContractExecutor → List Transaction → States → ℕ → ℕ → Gathered
gather c x [] states gas fees = gathered gas fees
gather c x (t ∷ ts) states gas fees =
    if t.sender == 0
    then gather c x ts states gas fees
    else gather_next (gather c x ts) t gas fees (apply_transaction c x t states)

pub data NewBlock : Type 0 where
  made : Block → NewBlock
  not_made : MiningError → NewBlock
  panics : NewBlock

abbrev pub block_gas_limit : ℕ
block_gas_limit = 8000000

-- The header before the search.
abbrev pub draft_header : BlockCreationParams → ℕ → ℕ → ℕ → BlockHeader
draft_header p now root gas = record {
  version = p.version;
  previous_hash = p.previous_hash;
  height = p.height;
  timestamp = if p.timestamp == 0 then now else p.timestamp;
  nonce = 0;
  merkle_root = root;
  state_root = 0;
  receipt_root = 0;
  bits = p.target_bits;
  total_work = add_work p.previous_work (work_from_bits p.target_bits);
  gas_limit = block_gas_limit;
  gas_used = gas;
  beneficiary = p.coinbase.recipient;
}

abbrev pub finish : BlockHeader → List Transaction → Option Nonce → NewBlock
finish h ts none = panics
finish h ts (some nonce_overflow) = not_made no_nonce
finish h ts (some (found n)) = made (record { header = with_nonce h n; transactions = ts })

abbrev pub with_root : Crypto → ℕ → BlockCreationParams → ℕ → Option ℕ → NewBlock
with_root c now p gas none = panics
with_root c now p gas (some root) =
    if ltb block_gas_limit gas
    then not_made over_gas_limit
    else finish (draft_header p now root gas) (p.coinbase ∷ p.transactions)
        (mine_correct_nonce c (draft_header p now root gas) p.target_bits)

abbrev pub with_reward : Crypto → ℕ → BlockCreationParams → ℕ → Option ℕ → NewBlock
with_reward c now p gas none = not_made wrong_coinbase
with_reward c now p gas (some expected) =
    if p.coinbase.amount == expected
    then with_root c now p gas (merkle_transactions c (p.coinbase ∷ p.transactions))
    else not_made wrong_coinbase

abbrev pub from_gathered : Crypto → ℕ → BlockCreationParams → Gathered → NewBlock
from_gathered c now p halted = panics
from_gathered c now p (stopped e) = not_made e
from_gathered c now p (gathered gas fees) = with_reward c now p gas (safe_add block_reward fees)

-- `NewBlock` at the time `now` in seconds.
unfoldable pub new_block : Crypto → Option ContractExecutor → ℕ → BlockCreationParams → NewBlock
new_block c x now p =
    from_gathered c now p (gather c x p.transactions (copy_states p.current_states) 0 0)
