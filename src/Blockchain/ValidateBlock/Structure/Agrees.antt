-- ===== src/Blockchain/ValidateBlock/Structure/Agrees.antt =====
-- blockchain/validation.go: `ValidateBlockStructure` beside `ValidateBlock`.
use august.Base.{
  ℕ, suc, true, false, Option, none, some, List, [], ◌∷◌, ◌==◌, ◌≡◌, ◌≢◌, ◌↔◌, sym, ◌∙◌, refl,
  arith, Bool-cases, inl, inr,
}
use august.Base.Dict.{lookup, nat_eq}
use august.Blockchain.Account.{States}
use august.Blockchain.Primitives.{Crypto}
use august.Blockchain.Transaction.{Transaction, get_hash}
use august.Blockchain.Merkle.{merkle_transactions}
use august.Blockchain.Validate.{validate_transaction}
use august.Blockchain.Header.{meets_difficulty}
use august.Blockchain.HeaderChain.{HeaderError, validate_header_structure}
use august.Blockchain.Apply.{Applied, ok, err, panic, apply_transaction}
use august.Blockchain.Block.{Block, Chain, block_hash, target_bits}
use august.Blockchain.ValidateBlock.{
  World, Executed, all_applied, Validated, valid, Verdict, good, is_genesis, is_fork, check_parent,
  check_bits, check_root, next_round, run_transactions, validate_structure, validate_block, if_good,
  bad, panics,
}
use august.Blockchain.ValidateBlock.Loop.{totals_inversion, validate_inversion}
use august.Blockchain.ValidateBlock.Structure.{
  passed, check_signatures, check_transactions, if_header_valid, validate_block_structure,
}

-- The signatures of the transactions without a sender verify.
abbrev pub SenderlessSigned : Crypto → List Transaction → Type 0
SenderlessSigned c [] = Unit
SenderlessSigned c (t ∷ ts) =
    (t.sender ≡ 0 → c.verify t.sender (get_hash c t) t.signature ≡ true) × SenderlessSigned c ts

-- The same for the transactions behind the first one.
abbrev pub Others : Crypto → List Transaction → Type 0
Others c [] = Unit
Others c (t ∷ ts) = SenderlessSigned c ts

-- What a transaction that ValidateTransaction accepts says of its signature.
accepted_signature :
    (c : Crypto) (t : Transaction) (states : States)
    → validate_transaction c t states ≡ none
    → t.sender ≢ 0
    → c.verify t.sender (get_hash c t) t.signature ≡ true
unfolding validate_transaction
accepted_signature c t states v ne = ground arith

next_round_inversion :
    (rest : States → ℕ → ℕ → Executed) (t : Transaction) (gas fees : ℕ) (r : Applied × States)
    {after : States} {gas' fees' : ℕ}
    → next_round rest t gas fees r ≡ all_applied after gas' fees'
    → (s : States) × (g : ℕ) × (f : ℕ) × (rest s g f ≡ all_applied after gas' fees')
next_round_inversion rest t gas fees (panic, s) h = absurd (cc)
next_round_inversion rest t gas fees (err g x, s) h = absurd (cc)
next_round_inversion rest t gas fees (ok used, s) h = elim (Bool-cases (t.sender == 0)) [
  | inl nobody ↦ (s, gas, fees, rw nobody at h)
  | inr sent ↦ (s, _, _, rw sent at h)
]

-- The first transaction of a loop that ends well is valid, and the loop goes on after it.
run_inversion :
    (w : World) (t : Transaction) (ts : List Transaction) (states : States) (gas fees : ℕ)
    {after : States} {gas' fees' : ℕ}
    → run_transactions w (t ∷ ts) states gas fees ≡ all_applied after gas' fees'
    → (validate_transaction w.crypto t states ≡ none)
      × ((s : States) × (g : ℕ) × (f : ℕ) × (run_transactions w ts s g f
            ≡ all_applied after gas' fees'))
unfolding run_transactions
run_inversion w t ts states gas fees h =
    let v : validate_transaction w.crypto t states ≡ none = ground arith in
    (
      v,
      next_round_inversion (run_transactions w ts) t gas fees
          (apply_transaction w.crypto w.executor t states) (rw v at h),
    )

check_signatures-run :
    (w : World) (ts : List Transaction) (i : ℕ) (states : States) (gas fees : ℕ) {after : States}
    {gas' fees' : ℕ}
    → run_transactions w ts states gas fees ≡ all_applied after gas' fees'
    → SenderlessSigned w.crypto ts
    → check_signatures w.crypto i ts ≡ passed
unfolding check_signatures
check_signatures-run w [] i states gas fees h signed = refl
check_signatures-run w (t ∷ ts) i states gas fees h (here, there) =
    let (v, (s, g, f, next)) = run_inversion w t ts states gas fees h in
    let verified : w.crypto.verify t.sender (get_hash w.crypto t) t.signature ≡ true =
      elim (Bool-cases (t.sender == 0)) [
        | inl nobody ↦ here (ground arith)
        | inr sent ↦ accepted_signature w.crypto t states v (ground arith)
      ] in
    rw verified (check_signatures-run w ts (suc i) s g f next there)

check_signatures-Senderless :
    (c : Crypto) (i : ℕ) (ts : List Transaction)
    → check_signatures c i ts ≡ passed
    → SenderlessSigned c ts
unfolding check_signatures
check_signatures-Senderless c i [] h = tt
check_signatures-Senderless c i (t ∷ ts) h =
    let verified : c.verify t.sender (get_hash c t) t.signature ≡ true = ground arith in
    ((λ z. verified), check_signatures-Senderless c (suc i) ts (rw verified at h))

module _ (w : World) (b : Block) (chain : Chain) where
  root_good :
      (parent : Block) (o : Option ℕ)
      → check_root w.crypto b parent o ≡ good
      → o ≡ some b.header.merkle_root
  root_good parent none h = absurd (cc)
  root_good parent (some root) h = ground arith

  bits_good :
      (parent : Block) (o : Option ℕ)
      → check_bits w.crypto b parent o ≡ good
      → merkle_transactions w.crypto b.transactions ≡ some b.header.merkle_root
  bits_good parent none h = absurd (cc)
  bits_good parent (some bits) h =
      let right : (b.header.bits == bits) ≡ true = ground arith in
      root_good parent (merkle_transactions w.crypto b.transactions) (rw right at h)

  parent_good :
      (o : Option Block)
      → check_parent w.crypto b chain o ≡ good
      → (meets_difficulty (block_hash w.crypto b) b.header.bits ≡ true)
        × (merkle_transactions w.crypto b.transactions ≡ some b.header.merkle_root)
  parent_good none h = absurd (cc)
  parent_good (some parent) h =
      let on_tip : is_fork w.crypto b chain.tip ≡ false = ground arith in
      let h' = rw on_tip at h in
      let worked : meets_difficulty (block_hash w.crypto b) b.header.bits ≡ true = ground arith in
      (worked, bits_good parent (target_bits chain.blocks) (rw worked at h'))

  structure_good :
      is_genesis w b ≡ false
      → validate_structure w b chain ≡ good
      → (meets_difficulty (block_hash w.crypto b) b.header.bits ≡ true)
        × (merkle_transactions w.crypto b.transactions ≡ some b.header.merkle_root)
  unfolding validate_structure
  structure_good g h = parent_good (lookup b.header.previous_hash chain.block_index) (rw g at h)

  header_passes :
      is_genesis w b ≡ false
      → meets_difficulty (block_hash w.crypto b) b.header.bits ≡ true
      → b.header.height ≢ 0
      → validate_header_structure w.crypto (block_hash w.crypto w.genesis) b.header ≡ none
  unfolding validate_header_structure
  header_passes g worked high = ground arith

  header_valid : (o : Option HeaderError) → if_header_valid w.crypto b o ≡ passed → o ≡ none
  header_valid none h = refl
  header_valid (some e) h = absurd (cc)

  header_height :
      is_genesis w b ≡ false
      → validate_block_structure w.crypto (block_hash w.crypto w.genesis) b ≡ passed
      → b.header.height ≢ 0
  unfolding validate_block_structure validate_header_structure
  header_height g h low =
      let header =
        header_valid (validate_header_structure w.crypto (block_hash w.crypto w.genesis) b.header)
          h in
      ground arith

  -- With the header and the root in order, only the signatures are left to check.
  only_signatures :
      merkle_transactions w.crypto b.transactions ≡ some b.header.merkle_root
      → validate_header_structure w.crypto (block_hash w.crypto w.genesis) b.header ≡ none
      → validate_block_structure w.crypto (block_hash w.crypto w.genesis) b
        ≡ check_transactions w.crypto b.transactions
  unfolding validate_block_structure
  only_signatures root header =
      let same : (b.header.merkle_root == b.header.merkle_root) ≡ true = ground arith in
      rw (header, root, same) refl

  transactions_pass :
      (ts : List Transaction) {after : States}
      → b.transactions ≡ ts
      → is_genesis w b ≡ false
      → validate_block w b chain ≡ valid after
      → (check_transactions w.crypto ts ≡ passed) ↔ Others w.crypto ts
  unfolding check_transactions
  transactions_pass [] e g h = ((λ p. tt), (λ p. refl))
  transactions_pass (t ∷ ts) e g h =
      let (gas, fees, run, _) = totals_inversion w b t ts _ g e (validate_inversion w b chain h) in
      let (_, (s, g', f, next)) = run_inversion w t ts _ 0 0 (rw e at run) in
      (check_signatures-Senderless w.crypto 1 ts, check_signatures-run w ts 1 s g' f next)

  verdict_good :
      (v : Verdict) (next : Validated) {after : States} → if_good v next ≡ valid after → v ≡ good
  verdict_good good next h = refl
  verdict_good (bad e) next h = absurd (cc)
  verdict_good panics next h = absurd (cc)

  -- A block that ValidateBlock accepts on some chain, and that is not the genesis block, passes the
  -- check of ValidateBlockStructure, which sees no chain, exactly when its height is not 0 and the
  -- signatures of all senderless transactions behind the first one verify.
  pub validate_block_structure_iff :
      {after : States}
      → is_genesis w b ≡ false
      → validate_block w b chain ≡ valid after
      → (validate_block_structure w.crypto (block_hash w.crypto w.genesis) b ≡ passed)
        ↔ ((b.header.height ≢ 0) × Others w.crypto b.transactions)
  unfolding validate_block
  validate_block_structure_iff g h =
      let (worked, root) = structure_good g (verdict_good (validate_structure w b chain) _ h) in
      let (sound, complete) = transactions_pass b.transactions refl g h in
      (
        (λ p.
            let high = header_height g p in
            (high, sound (sym (only_signatures root (header_passes g worked high)) ∙ p))),
        (λ (high, signed). only_signatures root (header_passes g worked high) ∙ complete signed),
      )
