-- ===== src/Blockchain/HeaderTests.antt =====
-- Tests of the checks of headers, on two headers after the number 0 of work.
use august.Base.{ℕ, ◌+◌, ◌≤◌, ◌≡◌, ◌<◌, ◌^◌, refl, Bool, true, false, [], ◌∷◌, arith}
use august.Base.Bytes.{Bytes, ascii, bytes_eq, be_bytes}
use august.Base.Int.{pos, ◌+ℤ◌}
use august.Config.{target_compact}
use august.Types.Literal.{set_string, digit_value, digits, digits_from}
use august.Avm.Decimal.{print_nat, print_int, print_from}
use august.Utils.Compact.{big_bytes, bytes_from, compact_to_big}
use august.Blockchain.Primitives.{Crypto}
use august.Blockchain.Header.{
  BlockHeader, header_hash, work_value, meets_difficulty, block_work, add_work, work_from_bits,
  compare_work, less,
}
use august.Blockchain.HeaderChain.{
  validate_header_structure, validate_header_total_work, links_to, follow_with_work,
  validate_header_chain_with_work,
}
use august.Blockchain.HeaderChain.Sound.{total, validate_header_chain_with_work_sound}

abbrev last_byte : ℕ → Bytes → ℕ
last_byte x [] = x
last_byte x (b ∷ bs) = last_byte b bs

-- A header's hash is its nonce.
abbrev toy : Crypto
toy = record { sha256 = λ bs. last_byte 0 bs; verify = λ key hash signature. true }

abbrev first : BlockHeader
first = record {
  version = 1;
  previous_hash = 1;
  height = 1;
  timestamp = 1000;
  nonce = 2;
  merkle_root = 0;
  state_root = 0;
  receipt_root = 0;
  bits = target_compact;
  total_work = ascii "65537";
  gas_limit = 1000000;
  gas_used = 0;
  beneficiary = 0;
}

abbrev second : BlockHeader
second = record first {
  previous_hash = 2;
  height = 2;
  timestamp = 1600;
  nonce = 3;
  total_work = ascii "131074";
}

accepts : BlockHeader → Bool
unfolding validate_header_chain_with_work follow_with_work validate_header_total_work links_to
    validate_header_structure header_hash work_value set_string digits digits_from digit_value
    add_work work_from_bits block_work print_nat print_int ◌+ℤ◌ print_from compact_to_big
    meets_difficulty bytes_eq be_bytes big_bytes bytes_from
accepts h = validate_header_chain_with_work toy 1 (first ∷ h ∷ []) (ascii "0")

work_is_right : accepts second ≡ true
unfolding accepts
work_is_right = refl

-- A total work that is one too high is refused.
refuses_more_work : accepts (record second { total_work = ascii "131075" }) ≡ false
unfolding accepts
refuses_more_work = refl

accepted : validate_header_chain_with_work toy 1 (first ∷ second ∷ []) (ascii "0") ≡ true
unfolding accepts
accepted = work_is_right

validate_header_chain_with_work_sound_example :
    (work_value (ascii "131074") ≡ work_value (ascii "0") +ℤ pos (total (first ∷ second ∷ [])))
    × (2 ≡ 1 + 1)
    × (1000 + 1 ≤ 1600)
validate_header_chain_with_work_sound_example =
    validate_header_chain_with_work_sound toy 1 first (second ∷ []) (ascii "0") (omega arith)
      (omega arith) accepted

below_256 : compact_to_big target_compact < 2 ^ 256
unfolding compact_to_big
below_256 = omega arith

-- The sign counts.
negative_is_less : compare_work (ascii "-7") (ascii "5") ≡ less
unfolding compare_work work_value set_string digits digits_from digit_value
negative_is_less = refl

negative_added : add_work (ascii "-7") (ascii "5") ≡ ascii "-2"
unfolding add_work work_value set_string digits digits_from digit_value print_int print_nat
    print_from ◌+ℤ◌
negative_added = refl
