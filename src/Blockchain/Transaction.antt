-- ===== src/Blockchain/Transaction.antt =====
-- blockchain/transaction.go. A key is the number of its bytes, so that the empty key is 0; the
-- `uint64` fields are numbers below 2^64 (`IsTransaction`).
use august.Base.{ℕ, ◌<◌, List, [], ◌∷◌, ◌++◌, ◌&&◌, ◌==◌, Bool, true, false}
use august.Base.Bytes.{Bytes, be_bytes}
use august.Config.{u64_mod}
use august.Types.Instruction.{Instruction}
use august.Blockchain.Primitives.{Crypto, compute_code_hash}

pub record Transaction : Type 0 where
  pub sender : ℕ
  pub recipient : ℕ
  pub amount : ℕ
  pub signature : ℕ
  pub nonce : ℕ
  pub timestamp : ℕ
  pub chain_id : ℕ
  pub instructions : List Instruction
  pub gas_limit : ℕ
  pub gas_price : ℕ
  pub payload : Bytes

-- The ranges that the Go types give.
pub record IsTransaction (t : Transaction) : Type 0 where
  pub amount_fits : t.amount < u64_mod
  pub nonce_fits : t.nonce < u64_mod
  pub gas_limit_fits : t.gas_limit < u64_mod
  pub gas_price_fits : t.gas_price < u64_mod

abbrev hashed_code : Crypto → List Instruction → Bytes
hashed_code c [] = []
hashed_code c (i ∷ rest) = be_bytes 32 (compute_code_hash c (i ∷ rest))

-- `Transaction.GetHash`
unfoldable pub get_hash : Crypto → Transaction → ℕ
unfolding be_bytes compute_code_hash
get_hash c t = c.sha256 (
    be_bytes 32 t.sender
    ++ (be_bytes 32 t.recipient
        ++ (be_bytes 8 t.amount
            ++ (be_bytes 8 t.nonce
                ++ (be_bytes 8 t.timestamp
                    ++ (be_bytes 8 t.chain_id
                        ++ (be_bytes 8 t.gas_limit
                            ++ (be_bytes 8 t.gas_price
                                ++ (hashed_code c t.instructions ++ t.payload)))))))))

abbrev pub has_code : List Instruction → Bool
has_code [] = false
has_code (i ∷ rest) = true

-- `tsx.To == (PublicKey{}) && len(tsx.Instructions) > 0`
unfoldable pub is_deployment : Transaction → Bool
is_deployment t = (t.recipient == 0) && has_code t.instructions
