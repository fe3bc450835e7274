-- ===== src/Blockchain/ValidateBlock/Structure.antt =====
-- blockchain/validation.go: the exported `ValidateBlockStructure`, which looks at a block without a
-- chain, beside `ValidateBlock`.
pub mod Agrees
use august.Base.{ℕ, suc, Option, none, some, List, [], ◌∷◌, ◌==◌, not, if◌then◌else◌}
use august.Blockchain.Primitives.{Crypto}
use august.Blockchain.Transaction.{Transaction, get_hash}
use august.Blockchain.Merkle.{merkle_transactions}
use august.Blockchain.HeaderChain.{HeaderError, validate_header_structure}
use august.Blockchain.Block.{Block}

-- No error, an error, or a panic.
pub data Checked : Type 0 where
  passed panicked : Checked
  invalid_header : HeaderError → Checked
  root_mismatch : Checked
  invalid_signature_at : ℕ → Checked

-- The loop over the transactions behind the first one, with the index of the next.
unfoldable pub check_signatures : Crypto → ℕ → List Transaction → Checked
check_signatures c i [] = passed
check_signatures c i (t ∷ ts) =
    let rest = check_signatures c (suc i) ts in
    if not (c.verify t.sender (get_hash c t) t.signature) then invalid_signature_at i else rest

unfoldable pub check_transactions : Crypto → List Transaction → Checked
unfolding check_signatures
check_transactions c [] = passed
check_transactions c (t ∷ ts) = check_signatures c 1 ts

abbrev pub if_same_root : Crypto → Block → Option ℕ → Checked
if_same_root c b none = panicked
if_same_root c b (some root) =
    if not (root == b.header.merkle_root)
    then root_mismatch
    else check_transactions c b.transactions

abbrev pub if_header_valid : Crypto → Block → Option HeaderError → Checked
if_header_valid c b (some e) = invalid_header e
if_header_valid c b none = if_same_root c b (merkle_transactions c b.transactions)

-- `ValidateBlockStructure`, with the hash of the genesis header.
unfoldable pub validate_block_structure : Crypto → ℕ → Block → Checked
unfolding validate_header_structure check_transactions
validate_block_structure c genesis b =
    if_header_valid c b (validate_header_structure c genesis b.header)
