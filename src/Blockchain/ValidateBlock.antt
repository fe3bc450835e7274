-- ===== src/Blockchain/ValidateBlock.antt =====
-- blockchain/validation.go: the validation of a block against a chain, and its application.
pub mod Loop
pub mod Reward
pub mod Structure
pub mod Free
pub mod Calm
use august.Base.{
  ℕ, ◌+◌, ◌*◌, ◌%◌, Bool, true, false, Option, none, some, List, [], ◌∷◌, ltb, leb, ◌==◌, ◌&&◌,
  ◌||◌, not, if◌then◌else◌, length, map,
}
use august.Base.Dict.{lookup, nat_eq}
use august.Config.{u64_mod, block_reward, aug, first_user}
use august.Blockchain.Primitives.{Crypto}
use august.Blockchain.Merkle.{merkle_transactions}
use august.Blockchain.Account.{AccountState, States}
use august.Blockchain.Transaction.{Transaction}
use august.Blockchain.Validate.{TxError, validate_transaction}
use august.Blockchain.Executor.{ContractExecutor}
use august.Blockchain.Apply.{Applied, ok, err, panic, apply_transaction}
use august.Blockchain.Header.{BlockHeader, header_hash, meets_difficulty}
use august.Blockchain.Block.{Block, Chain, block_hash, add_block, target_bits}

pub data BlockError : Type 0 where
  bad_genesis missing_parent switch_chain low_work wrong_bits wrong_merkle_root : BlockError
  timestamp_order wrong_gas_used gas_limit_exceeded wrong_coinbase : BlockError
  invalid_transaction failed_transaction : TxError → BlockError

-- What the check of a block reads besides the block and the chain.
pub record World : Type 0 where
  pub crypto : Crypto
  pub executor : Option ContractExecutor
  pub genesis : Block

-- No error, an error, or a panic.
pub data Verdict : Type 0 where
  good : Verdict
  bad : BlockError → Verdict
  panics : Verdict

abbrev check_genesis : Block → List Transaction → Verdict
check_genesis b (coinbase ∷ []) =
    if (b.header.previous_hash == 0)
      && (coinbase.sender == 0)
      && (coinbase.recipient == first_user)
      && (coinbase.amount == 10 * aug)
    then good
    else bad bad_genesis
check_genesis b ts = bad bad_genesis

-- Whether the parent is not the tip of a chain that has one.
abbrev is_fork : Crypto → Block → Option Block → Bool
is_fork c b none = false
is_fork c b (some tip) = not (block_hash c tip == b.header.previous_hash)

abbrev check_root : Crypto → Block → Block → Option ℕ → Verdict
check_root c b parent none = panics
check_root c b parent (some root) =
    if not (root == b.header.merkle_root)
    then bad wrong_merkle_root
    else if leb b.header.timestamp parent.header.timestamp
    then bad timestamp_order
    else good

abbrev check_bits : Crypto → Block → Block → Option ℕ → Verdict
check_bits c b parent none = panics
check_bits c b parent (some bits) =
    if b.header.bits == bits
    then check_root c b parent (merkle_transactions c b.transactions)
    else bad wrong_bits

abbrev check_parent : Crypto → Block → Chain → Option Block → Verdict
check_parent c b chain none = bad missing_parent
check_parent c b chain (some parent) =
    if is_fork c b chain.tip
    then bad switch_chain
    else if meets_difficulty (block_hash c b) b.header.bits
    then check_bits c b parent (target_bits chain.blocks)
    else bad low_work

abbrev pub is_genesis : World → Block → Bool
is_genesis w b = block_hash w.crypto b == block_hash w.crypto w.genesis

-- `validateBlockStructure`
unfoldable pub validate_structure : World → Block → Chain → Verdict
validate_structure w b chain =
    if is_genesis w b
    then check_genesis b b.transactions
    else check_parent w.crypto b chain (lookup b.header.previous_hash chain.block_index)

-- The copy of an account, which leaves the two hashes of its deployment out.
abbrev copied : AccountState → AccountState
copied a = record a { deployment_tsx_hash = 0; deployment_block_hash = 0 }

unfoldable pub copy_states : States → States
copy_states [] = []
copy_states ((k, a) ∷ rest) = (k, copied a) ∷ copy_states rest

-- The end of the loop over the transactions: the accounts, the gas used and the fees.
pub data Executed : Type 0 where
  all_applied : States → ℕ → ℕ → Executed
  refused : BlockError → Executed
  crashes : Executed

-- The next round after an application; a transaction with no sender counts for no gas.
abbrev pub next_round :
    (States → ℕ → ℕ → Executed) → Transaction → ℕ → ℕ → Applied × States → Executed
next_round rest t gas fees (panic, states) = crashes
next_round rest t gas fees (err used e, states) = refused (failed_transaction e)
next_round rest t gas fees (ok used, states) =
    if t.sender == 0
    then rest states gas fees
    else rest states ((gas + used) % u64_mod) ((fees + used * t.gas_price % u64_mod) % u64_mod)

abbrev pub if_valid : Option TxError → Executed → Executed
if_valid (some e) next = refused (invalid_transaction e)
if_valid none next = next

-- The loop of `ValidateBlock`.
unfoldable pub run_transactions : World → List Transaction → States → ℕ → ℕ → Executed
run_transactions w [] states gas fees = all_applied states gas fees
run_transactions w (t ∷ ts) states gas fees =
    if_valid (validate_transaction w.crypto t states) (
      next_round (run_transactions w ts) t gas fees
        (apply_transaction w.crypto w.executor t states))

-- The new accounts, an error, or a panic.
pub data Validated : Type 0 where
  valid : States → Validated
  invalid : BlockError → Validated
  crashed : Validated

-- The check of `block.Transactions[0]`, which is not there in a block of no transactions.
abbrev check_coinbase : States → ℕ → List Transaction → Validated
check_coinbase states fees [] = crashed
check_coinbase states fees (t ∷ ts) =
    if t.amount == (fees + block_reward) % u64_mod then valid states else invalid wrong_coinbase

abbrev pub check_totals : World → Block → Executed → Validated
check_totals w b crashes = crashed
check_totals w b (refused e) = invalid e
check_totals w b (all_applied states gas fees) =
    if not (gas == b.header.gas_used)
    then invalid wrong_gas_used
    else if ltb b.header.gas_limit gas
    then invalid gas_limit_exceeded
    else if is_genesis w b
    then valid states
    else check_coinbase states fees b.transactions

abbrev pub if_good : Verdict → Validated → Validated
if_good panics next = crashed
if_good (bad e) next = invalid e
if_good good next = next

-- `ValidateBlock`
unfoldable pub validate_block : World → Block → Chain → Validated
validate_block w b chain =
    if_good (validate_structure w b chain)
      (check_totals w b (run_transactions w b.transactions (copy_states chain.account_states) 0 0))

abbrev pub apply_validated : World → Block → Chain → Validated → Option (Option BlockError × Chain)
apply_validated w b chain crashed = none
apply_validated w b chain (invalid e) = some (some e, chain)
apply_validated w b chain (valid states) =
    some (none, add_block w.crypto b (record chain { account_states = states }))

-- `ValidateAndApplyBlock`, with `ApplyBlock`: the error and the chain, or `none` for a panic.
unfoldable pub validate_and_apply_block : World → Block → Chain → Option (Option BlockError × Chain)
validate_and_apply_block w b chain = apply_validated w b chain (validate_block w b chain)
