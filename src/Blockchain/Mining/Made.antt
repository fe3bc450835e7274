-- ===== src/Blockchain/Mining/Made.antt =====
-- blockchain/mining.go: what a block that `NewBlock` has made has gone through.
use august.Base.{
  ℕ, ◌+◌, ◌%◌, ◌≤◌, ◌≡◌, refl, Option, none, some, List, ◌∷◌, ◌==◌, arith, Bool-cases, Option-cases,
  inl, inr, ltb,
}
use august.Base.Dict.{nat_eq}
use august.Config.{u64_mod, block_reward}
use august.Utils.SafeMath.{safe_add}
use august.Blockchain.Primitives.{Crypto}
use august.Blockchain.Merkle.{merkle_transactions}
use august.Blockchain.Transaction.{Transaction}
use august.Blockchain.Header.{BlockHeader}
use august.Blockchain.Block.{Block}
use august.Blockchain.Mining.{
  BlockCreationParams, Nonce, found, nonce_overflow, with_nonce, mine_correct_nonce, Gathered,
  gathered, stopped, halted, made, draft_header, finish, from_gathered, block_gas_limit,
}
use august.Blockchain.Mining.Loops.{safe_add-mod}

-- What a block that has been made has gone through.
pub record Made (c : Crypto) (now : ℕ) (p : BlockCreationParams) (gas fees : ℕ) (b : Block)
    : Type 0 where
  pub root : ℕ
  pub nonce : ℕ
  pub rewarded : p.coinbase.amount ≡ (block_reward + fees) % u64_mod
  pub rooted : merkle_transactions c (p.coinbase ∷ p.transactions) ≡ some root
  pub within : gas ≤ block_gas_limit
  pub mined : mine_correct_nonce c (draft_header p now root gas) p.target_bits ≡ some (found nonce)
  pub is_block : b ≡ record {
    header = with_nonce (draft_header p now root gas) nonce;
    transactions = p.coinbase ∷ p.transactions;
  }

made_block :
    (h : BlockHeader) (ts : List Transaction) (o : Option Nonce) (b : Block)
    → finish h ts o ≡ made b
    → (n : ℕ) × (o ≡ some (found n)) × (b ≡ record { header = with_nonce h n; transactions = ts })
made_block h ts none b e = absurd (cc)
made_block h ts (some nonce_overflow) b e = absurd (cc)
made_block h ts (some (found n)) b e = (n, refl, ground arith)

made_inversion :
    (c : Crypto) (now : ℕ) (p : BlockCreationParams) (gas fees : ℕ) (b : Block)
    → from_gathered c now p (gathered gas fees) ≡ made b
    → Made c now p gas fees b
made_inversion c now p gas fees b e = elim (Option-cases (safe_add block_reward fees)) [
  | inl over ↦ absurd (let e' = rw over at e in cc)
  | inr (x, sum) ↦ elim (Bool-cases (p.coinbase.amount == x)) [
    | inr other ↦ absurd (let e' = rw (sum, other) at e in cc)
    | inl same ↦ elim (Option-cases (merkle_transactions c (p.coinbase ∷ p.transactions))) [
      | inl bare ↦ absurd (let e' = rw (sum, same, bare) at e in cc)
      | inr (root, rooted) ↦ elim (Bool-cases (ltb block_gas_limit gas)) [
        | inl over ↦ absurd (let e' = rw (sum, same, rooted, over) at e in cc)
        | inr within ↦
            let h = draft_header p now root gas in
            let ts = p.coinbase ∷ p.transactions in
            let (n, mined, is_block) =
              made_block h ts (mine_correct_nonce c h p.target_bits) b
                (rw (sum, same, rooted, within) at e) in
            record {
              root = root;
              nonce = n;
              rewarded = ground (arith, safe_add-mod block_reward fees x sum);
              rooted = rooted;
              within = ground arith;
              mined = mined;
              is_block = is_block;
            }
      ]
    ]
  ]
]

pub gathered_inversion :
    (c : Crypto) (now : ℕ) (p : BlockCreationParams) (r : Gathered) (b : Block)
    → from_gathered c now p r ≡ made b
    → (gas : ℕ) × (fees : ℕ) × (r ≡ gathered gas fees) × Made c now p gas fees b
gathered_inversion c now p halted b e = absurd (cc)
gathered_inversion c now p (stopped x) b e = absurd (cc)
gathered_inversion c now p (gathered gas fees) b e =
    (gas, fees, refl, made_inversion c now p gas fees b e)
