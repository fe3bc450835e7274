-- ===== src/Blockchain/HeaderChain/Sound.antt =====
-- blockchain/validation.go: what an accepted chain of headers is.
use august.Base.{
  ℕ, ◌+◌, ◌^◌, ◌≤◌, ◌<◌, ◌≡◌, refl, Bool, true, List, [], ◌∷◌, ◌&&◌, arith, length, ◌∙◌,
}
use august.Base.Bytes.{Bytes, bytes_eq, bytes_eq_iff}
use august.Config.{u64_mod}
use august.Base.Int.{ℤ, pos, ◌+ℤ◌, eq_of_parts, int_laws, +ℤ_parts}
use august.Avm.Decimal.{print_nat, print_int}
use august.Avm.Decimal.Digits.{set_string-print_nat, set_string-print_int}
use august.Blockchain.Primitives.{Crypto}
use august.Utils.Compact.{compact_to_big}
use august.Blockchain.Header.{
  BlockHeader, add_work, work_from_bits, work_value, block_work, compare_work, greater,
}
use august.Blockchain.HeaderChain.{
  validate_header_structure, validate_header_total_work, is_nil, links_to, follow,
  validate_header_chain, follow_with_work, validate_header_chain_with_work,
}

work_value-print_nat : (n : ℕ) → work_value (print_nat n) ≡ pos n
unfolding work_value
work_value-print_nat n = rw (set_string-print_nat n) refl

work_value-print_int : (a : ℤ) → work_value (print_int a) ≡ a
unfolding work_value
work_value-print_int a = rw (set_string-print_int a) refl

-- Read back, AddWork of a text and of the text of CalculateBlockWorkFromBits is the sum of the
-- integer that the first text stands for, its sign included, and the work of a block with those
-- bits.
pub work_value-add_work :
    (a : Bytes) (bits : ℕ)
    → work_value (add_work a (work_from_bits bits)) ≡ work_value a +ℤ pos (block_work bits)
unfolding add_work work_from_bits
work_value-add_work a bits =
    work_value-print_int (work_value a +ℤ work_value (print_nat (block_work bits)))
    ∙ rw (work_value-print_nat (block_work bits)) refl

+ℤ-pos_assoc : (a : ℤ) (m n : ℕ) → (a +ℤ pos m) +ℤ pos n ≡ a +ℤ pos (m + n)
+ℤ-pos_assoc a m n = eq_of_parts ((a +ℤ pos m) +ℤ pos n) (a +ℤ pos (m + n)) (omega int_laws)

+ℤ-zero : (a : ℤ) → a ≡ a +ℤ pos 0
+ℤ-zero a = eq_of_parts a (a +ℤ pos 0) (omega int_laws)

-- The sum of the works of the headers.
abbrev pub total : List BlockHeader → ℕ
total [] = 0
total (h ∷ hs) = block_work h.bits + total hs

abbrev pub last : BlockHeader → List BlockHeader → BlockHeader
last h [] = h
last h (h₁ ∷ hs) = last h₁ hs

total_work_step :
    (c : Crypto) (genesis : ℕ) (h : BlockHeader) (previous : Bytes)
    → 0 < h.height
    → is_nil (validate_header_total_work c genesis h previous) ≡ true
    → work_value h.total_work ≡ work_value previous +ℤ pos (block_work h.bits)
unfolding validate_header_total_work
total_work_step c genesis h previous p e =
    let same : bytes_eq h.total_work (add_work previous (work_from_bits h.bits)) ≡ true =
      ground arith in
    rw ((bytes_eq_iff h.total_work (add_work previous (work_from_bits h.bits))).0 same)
      (work_value-add_work previous h.bits)

-- What is so for the last of the headers that follow one.
abbrev Follows : BlockHeader → List BlockHeader → Type 0
Follows h hs =
    (work_value (last h hs).total_work ≡ work_value h.total_work +ℤ pos (total hs))
    × ((last h hs).height ≡ h.height + length hs)
    × (h.timestamp + length hs ≤ (last h hs).timestamp)

and_true : (a b : Bool) → (a && b) ≡ true → (a ≡ true) × (b ≡ true)
and_true a b e = ground arith

follow_parts :
    (c : Crypto) (genesis : ℕ) (h h₁ : BlockHeader) (hs : List BlockHeader)
    → follow_with_work c genesis h (h₁ ∷ hs) ≡ true
    → (is_nil (validate_header_total_work c genesis h₁ h.total_work) ≡ true)
      × (links_to c h h₁ ≡ true)
      × (follow_with_work c genesis h₁ hs ≡ true)
unfolding follow_with_work
follow_parts c genesis h h₁ hs e =
    let nil = is_nil (validate_header_total_work c genesis h₁ h.total_work) in
    let (both, rest) = and_true (nil && links_to c h h₁) (follow_with_work c genesis h₁ hs) e in
    let (valid, linked) = and_true nil (links_to c h h₁) both in (valid, linked, rest)

links_to_lem :
    (c : Crypto) (previous h : BlockHeader)
    → previous.height + 1 < u64_mod
    → links_to c previous h ≡ true
    → (h.height ≡ previous.height + 1) × (previous.timestamp < h.timestamp)
unfolding links_to
links_to_lem c previous h b e = (ground arith, ground arith)

follow_with_work-Follows :
    (c : Crypto) (genesis : ℕ) (h : BlockHeader) (hs : List BlockHeader)
    → h.height + length hs < u64_mod
    → follow_with_work c genesis h hs ≡ true
    → Follows h hs
unfolding follow_with_work
follow_with_work-Follows c genesis h [] b e =
    (+ℤ-zero (work_value h.total_work), omega arith, omega arith)
follow_with_work-Follows c genesis h (h₁ ∷ hs) b e =
    let (valid, linked, e₂) = follow_parts c genesis h h₁ hs e in
    let (height, time) = links_to_lem c h h₁ (omega arith) linked in
    let work = total_work_step c genesis h₁ h.total_work (omega (arith, height)) valid in
    let (w, n, t) = follow_with_work-Follows c genesis h₁ hs (omega (arith, height)) e₂ in
    (
      w ∙ rw work (+ℤ-pos_assoc (work_value h.total_work) (block_work h₁.bits) (total hs)),
      omega (arith, height, n),
      omega (arith, time, t),
    )

structure_of_work :
    (c : Crypto) (genesis : ℕ) (h : BlockHeader) (previous : Bytes)
    → is_nil (validate_header_total_work c genesis h previous) ≡ true
    → is_nil (validate_header_structure c genesis h) ≡ true
unfolding validate_header_total_work
structure_of_work c genesis h previous e = ground arith

follow_without_work :
    (c : Crypto) (genesis : ℕ) (h : BlockHeader) (hs : List BlockHeader)
    → follow_with_work c genesis h hs ≡ true
    → follow c genesis h hs ≡ true
unfolding follow follow_with_work
follow_without_work c genesis h [] e = refl
follow_without_work c genesis h (h₁ ∷ hs) e =
    let (valid, linked, e₂) = follow_parts c genesis h h₁ hs e in
    rw (linked, structure_of_work c genesis h₁ h.total_work valid)
      (follow_without_work c genesis h₁ hs e₂)

module _ (c : Crypto) (genesis : ℕ) (h : BlockHeader) (hs : List BlockHeader) (start : Bytes) where
  -- Where ValidateHeaderChainWithWork accepts headers that do not begin at height 0 and whose
  -- heights stay below 2 ^ 64, the last header's total work is the integer that it started from
  -- plus the works of all the headers, its height is the first one's plus the number of headers
  -- after it, and each of these is at least one second later.
  pub validate_header_chain_with_work_sound :
      0 < h.height
      → h.height + length hs < u64_mod
      → validate_header_chain_with_work c genesis (h ∷ hs) start ≡ true
      → (work_value (last h hs).total_work ≡ work_value start +ℤ pos (total (h ∷ hs)))
        × ((last h hs).height ≡ h.height + length hs)
        × (h.timestamp + length hs ≤ (last h hs).timestamp)
  unfolding validate_header_chain_with_work
  validate_header_chain_with_work_sound p b e =
      let (valid, e₁) =
        and_true (is_nil (validate_header_total_work c genesis h start))
          (follow_with_work c genesis h hs) e in
      let (w, n, t) = follow_with_work-Follows c genesis h hs b e₁ in
      (
        w
            ∙ rw (total_work_step c genesis h start p valid)
                (+ℤ-pos_assoc (work_value start) (block_work h.bits) (total hs)),
        n,
        t,
      )

  -- A chain of headers that the check with the work accepts, the check without it accepts too.
  pub validate_header_chain_without_work :
      validate_header_chain_with_work c genesis (h ∷ hs) start ≡ true
      → validate_header_chain c genesis (h ∷ hs) ≡ true
  unfolding validate_header_chain validate_header_chain_with_work
  validate_header_chain_without_work e =
      follow_without_work c genesis h hs
        (and_true (is_nil (validate_header_total_work c genesis h start))
          (follow_with_work c genesis h hs) e).1

-- A block has work.
block_work_pos : (bits : ℕ) → compact_to_big bits < 2 ^ 256 → 0 < block_work bits
unfolding block_work
block_work_pos bits h = grind arith

-- A header's work makes a chain better: `CompareWork` puts what `AddWork` gives after the work that it
-- was added to, where the target is below 2^256.
pub compare_work-add_work :
    (a : Bytes) (bits : ℕ)
    → compact_to_big bits < 2 ^ 256
    → compare_work (add_work a (work_from_bits bits)) a ≡ greater
unfolding compare_work
compare_work-add_work a bits h = ground (
  arith,
  work_value-add_work a bits,
  +ℤ_parts (work_value a) (pos (block_work bits)),
  block_work_pos bits h,
)
