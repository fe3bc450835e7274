-- ===== src/Blockchain/Primitives.antt =====
-- The cryptography that the program takes from Go's standard library, as a parameter, and the
-- hashes of blockchain/crypto.go that are built on it.
use august.Base.{ℕ, List, [], ◌∷◌, ◌++◌, Option, none, some, Bool}
use august.Base.Bytes.{Bytes, be_bytes}
use august.Types.Opcode.{to_byte}
use august.Types.Instruction.{Instruction}

-- `sha256.Sum256` gives the number of the 32 bytes; `verify key message signature` is
-- `ed25519.Verify` on the numbers of their bytes.
pub record Crypto : Type 0 where
  pub sha256 : Bytes → ℕ
  pub verify : ℕ → ℕ → ℕ → Bool

abbrev text_of : Option Bytes → Bytes
text_of none = []
text_of (some s) = s

-- What is written into the hash for a list of instructions.
unfoldable pub code_bytes : List Instruction → Bytes
unfolding to_byte
code_bytes [] = []
code_bytes (i ∷ rest) = to_byte i.opcode ∷ (text_of i.value ++ code_bytes rest)

-- `ComputeCodeHash`: the zero hash for no code.
unfoldable pub compute_code_hash : Crypto → List Instruction → ℕ
unfolding code_bytes
compute_code_hash c [] = 0
compute_code_hash c (i ∷ rest) = c.sha256 (code_bytes (i ∷ rest))

-- `GenerateContractAddress`
unfoldable pub generate_contract_address : Crypto → ℕ → ℕ → ℕ
unfolding be_bytes
generate_contract_address c deployer nonce = c.sha256 (be_bytes 32 deployer ++ be_bytes 8 nonce)
