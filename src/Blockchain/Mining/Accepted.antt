-- ===== src/Blockchain/Mining/Accepted.antt =====
-- blockchain/mining.go: a block of transfers that `NewBlock` has made is a valid block.
use august.Base.{
  ℕ, ◌+◌, ◌%◌, ◌<◌, ◌≡◌, refl, sym, ap, ◌∙◌, true, false, Option, some, ◌∷◌, ◌==◌, arith, ltb, leb,
  if◌then◌else◌,
}
use august.Base.Dict.{lookup, nat_eq}
use august.Config.{u64_mod, block_reward}
use august.Blockchain.Primitives.{Crypto}
use august.Blockchain.Account.{States}
use august.Blockchain.Header.{BlockHeader, header_hash, meets_difficulty}
use august.Blockchain.Block.{Block, Chain, block_hash, target_bits}
use august.Blockchain.ValidateBlock.Loop.{NoCode, AllTransfers, copy_states-NoCode}
use august.Blockchain.ValidateBlock.{
  World, all_applied, run_transactions, copy_states, valid, good, validate_structure,
  validate_block, check_totals, is_genesis,
}
use august.Blockchain.Mining.{
  BlockCreationParams, Nonce, found, nonce_overflow, with_nonce, made, draft_header, new_block,
  block_gas_limit,
}
use august.Blockchain.Mining.Search.{IsFirst, mine_correct_nonce-IsFirst}
use august.Blockchain.Mining.Loops.{AllKnown, AllKnown-Keeps, loops-Agree}
use august.Blockchain.Mining.Made.{Made, gathered_inversion}
use august.Blockchain.Mining.First.{coinbase_first, copied-AllKnown}

-- The parameters follow the tip of the chain.
pub record Follows (c : Crypto) (now : ℕ) (p : BlockCreationParams) (chain : Chain) : Type 0 where
  pub parent : Block
  pub is_tip : chain.tip ≡ some parent
  pub is_known : lookup p.previous_hash chain.block_index ≡ some parent
  pub is_parent : block_hash c parent ≡ p.previous_hash
  pub same_bits : target_bits chain.blocks ≡ some p.target_bits
  pub later : parent.header.timestamp < (if p.timestamp == 0 then now else p.timestamp)
  pub same_states : chain.account_states ≡ p.current_states

found_meets :
    (c : Crypto) (bits : ℕ) (h : BlockHeader) (r : Nonce) (n : ℕ)
    → IsFirst c bits h 0 r
    → ◌≡◌ {A = Option Nonce} (some r) (some (found n))
    → meets_difficulty (header_hash c (with_nonce h n)) bits ≡ true
found_meets c bits h (found k) n first e = let same : k ≡ n = ground arith in rw (sym same) first.0
found_meets c bits h nonce_overflow n first e = absurd (cc)

module _ (w : World) (now : ℕ) (p : BlockCreationParams) (b : Block) (gas fees : ℕ)
    (m : Made w.crypto now p gas fees b) where
  made_meets : meets_difficulty (block_hash w.crypto b) b.header.bits ≡ true
  made_meets =
      let h = draft_header p now m.root gas in
      let (r, ends, first) = mine_correct_nonce-IsFirst w.crypto p.target_bits h 0 (omega arith) in
      rw m.is_block (found_meets w.crypto p.target_bits h r m.nonce first (sym ends ∙ m.mined))

  made-good :
      (chain : Chain)
      → Follows w.crypto now p chain
      → is_genesis w b ≡ false
      → validate_structure w b chain ≡ good
  unfolding validate_structure
  made-good chain f other =
      let previous : b.header.previous_hash ≡ p.previous_hash =
        ap (λ (d : Block). d.header.previous_hash) m.is_block in
      let bits : b.header.bits ≡ p.target_bits = ap (λ (d : Block). d.header.bits) m.is_block in
      let ts : b.transactions ≡ p.coinbase ∷ p.transactions =
        ap (λ (d : Block). d.transactions) m.is_block in
      let root : b.header.merkle_root ≡ m.root =
        ap (λ (d : Block). d.header.merkle_root) m.is_block in
      let time : b.header.timestamp ≡ (if p.timestamp == 0 then now else p.timestamp) =
        ap (λ (d : Block). d.header.timestamp) m.is_block in
      let linked : (block_hash w.crypto f.parent == b.header.previous_hash) ≡ true =
        ground (arith, f.is_parent) in
      let same_bits : (b.header.bits == p.target_bits) ≡ true = ground arith in
      let same_root : (m.root == b.header.merkle_root) ≡ true = ground arith in
      let later : leb b.header.timestamp f.parent.header.timestamp ≡ false =
        ground (arith, f.later) in
      rw
        (
          other,
          previous,
          f.is_known,
          f.is_tip,
          sym previous,
          linked,
          made_meets,
          f.same_bits,
          same_bits,
          ts,
          m.rooted,
          same_root,
          later,
        )
        refl

  made_totals :
      (after : States)
      → is_genesis w b ≡ false
      → check_totals w b (all_applied after gas fees) ≡ valid after
  made_totals after other =
      let used : (gas == b.header.gas_used) ≡ true =
        (let e : b.header.gas_used ≡ gas = ap (λ (d : Block). d.header.gas_used) m.is_block in
          ground arith) in
      let within : ltb b.header.gas_limit gas ≡ false =
        (let e : b.header.gas_limit ≡ block_gas_limit =
            ap (λ (d : Block). d.header.gas_limit) m.is_block in
          ground (arith, m.within)) in
      let ts : b.transactions ≡ p.coinbase ∷ p.transactions =
        ap (λ (d : Block). d.transactions) m.is_block in
      let rewarded : (p.coinbase.amount == (fees + block_reward) % u64_mod) ≡ true =
        ground (arith, m.rewarded) in
      rw (used, within, other, ts, rewarded) refl

-- A block that NewBlock makes passes ValidateBlock with the accounts of the loop over its
-- transactions, given that it is made on the tip of a chain, with the chain's accounts and the
-- target bits that the chain expects next, at a time later than the tip's, and is not the genesis
-- block; that its first transaction has no sender and the others are transfers whose senders have
-- accounts; that no account holds code; and that the loop accepts the transactions one after
-- another.
pub mined_block_valid :
    (w : World) (now : ℕ) (p : BlockCreationParams) (b : Block) (chain : Chain) (after : States)
    (gas fees : ℕ)
    → new_block w.crypto w.executor now p ≡ made b
    → Follows w.crypto now p chain
    → is_genesis w b ≡ false
    → p.coinbase.sender ≡ 0
    → AllTransfers p.transactions
    → NoCode p.current_states
    → AllKnown p.transactions p.current_states
    → run_transactions w (p.coinbase ∷ p.transactions) (copy_states p.current_states) 0 0
      ≡ all_applied after gas fees
    → validate_block w b chain ≡ valid after
unfolding new_block validate_block
mined_block_valid w now p b chain after gas fees mined f other coinbase transfers plain known run =
    let s = copy_states p.current_states in
    let n = copy_states-NoCode p.current_states plain in
    let k = copied-AllKnown p.transactions p.current_states known in
    let (s', kept, rest) =
      coinbase_first w p.coinbase p.transactions s after gas fees coinbase n run in
    let (gas', fees', sum, m) = gathered_inversion w.crypto now p _ b mined in
    let agree =
      loops-Agree w p.transactions s s' 0 0 transfers n kept.0 k
        (AllKnown-Keeps p.transactions s s' kept k) in
    let (same_gas, same_fees) = rw (sum, rest) at agree in
    let ts : b.transactions ≡ p.coinbase ∷ p.transactions =
      ap (λ (d : Block). d.transactions) m.is_block in
    let whole : run_transactions w b.transactions (copy_states chain.account_states) 0 0
        ≡ all_applied after gas' fees' =
      rw (ts, f.same_states, same_gas, same_fees) run in
    rw (made-good w now p b gas' fees' m chain f other, whole)
      (made_totals w now p b gas' fees' m after other)
