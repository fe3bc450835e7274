-- ===== src/Blockchain/StateRoot.antt =====
-- blockchain/account.go and crypto.go: the hash of an account and the root of all accounts.
pub mod Root
use august.Base.{ℕ, List, [], ◌∷◌, ◌++◌, map, length, ltb, Bool}
use august.Base.Bytes.{be_bytes}
use august.Blockchain.Primitives.{Crypto, code_bytes}
use august.Blockchain.Account.{AccountState, States}
use august.Blockchain.Merkle.{merkle_root}
use august.Blockchain.Sorting.{sort_entries}
use august.Blockchain.Storage.{or_zero}

-- `AccountState.GetHash`
unfoldable pub account_hash : Crypto → AccountState → ℕ
unfolding be_bytes code_bytes
account_hash c a = c.sha256 (
    be_bytes 32 a.address
    ++ (be_bytes 8 a.balance
        ++ (be_bytes 8 a.nonce
            ++ (code_bytes a.instructions
                ++ (be_bytes 32 a.storage_root
                    ++ (be_bytes 32 a.code_hash
                        ++ (be_bytes 32 a.deployment_tsx_hash
                            ++ be_bytes 32 a.deployment_block_hash)))))))

-- `>` of the bytes of two keys, from the first one on.
abbrev pub key_gt : ℕ → ℕ → Bool
key_gt a b = ltb b a

abbrev pub state_hash : Crypto → ℕ × AccountState → ℕ
state_hash c (k, a) = account_hash c a

-- `ComputeStateRoot`. On the fuel of `merkle_root` see Blockchain/Merkle/Levels.antt; `none` would be a
-- lack of it.
unfoldable pub compute_state_root : Crypto → States → ℕ
unfolding merkle_root account_hash
compute_state_root c states =
    or_zero (merkle_root c (map (state_hash c) (sort_entries key_gt (length states) states)))

-- `DeepCopyAccountStates`: the values of every field, in accounts of their own.
unfoldable pub deep_copy_states : States → States
deep_copy_states [] = []
deep_copy_states ((k, a) ∷ rest) =
    (
      k,
      record {
        address = a.address;
        balance = a.balance;
        nonce = a.nonce;
        instructions = a.instructions;
        persistent = a.persistent;
        storage_root = a.storage_root;
        code_hash = a.code_hash;
        deployment_tsx_hash = a.deployment_tsx_hash;
        deployment_block_hash = a.deployment_block_hash;
      },
    )
    ∷ deep_copy_states rest
