-- ===== src/Types/Make/Value.antt =====
-- types/bytecode.go: what `GetValueAsBigInt` reads in the instructions that were made.
use august.Base.{ℕ, suc, ◌≡◌, refl, ap, ◌∙◌, Option, none, some, [], ◌∷◌, ◌++◌, arith}
use august.Base.Int.{ℤ, pos, negsuc, neg, signed64}
use august.Base.Bytes.{Bytes, has_prefix}
use august.Types.Opcode.{Opcode}
use august.Types.Literal.{digits, set_string, negated_digits, value_of_text, hex_prefix, print_hex}
use august.Types.Literal.Digits.{set_string-digits, digits-print_hex}
use august.Types.Instruction.{value_as_big}
use august.Avm.Decimal.{print_int, print_nat}
use august.Avm.Decimal.Digits.{digits-print_nat}
use august.Types.Make.{
  Given, text, big, int, uint, other, with_text, number_text, hex_text, make_instruction_with_value,
}

value_of_hex : (s : Bytes) → value_of_text (hex_prefix ++ s) ≡ set_string 16 s
unfolding value_of_text has_prefix
value_of_hex s = refl

negated :
    (base : ℕ) (s : Bytes) (n : ℕ)
    → digits base s ≡ some n
    → negated_digits base s ≡ some (neg (pos n))
negated base s n h = rw (h, negated_digits) refl

neg-suc : (n : ℕ) → neg (pos (suc n)) ≡ negsuc n
neg-suc n = ground arith

set_string-minus :
    (base : ℕ) (s : Bytes) (n : ℕ)
    → digits base s ≡ some (suc n)
    → set_string base (b'-' ∷ s) ≡ some (negsuc n)
unfolding set_string
set_string-minus base s n h = negated base s (suc n) h ∙ ap some (neg-suc n)

value_of_minus : (s : Bytes) → value_of_text (b'-' ∷ s) ≡ set_string 10 (b'-' ∷ s)
unfolding value_of_text has_prefix
value_of_minus s = refl

value-number_text : (v : ℤ) → value_of_text (number_text v) ≡ some v
unfolding number_text print_int
value-number_text (pos n) =
    value_of_hex (print_hex n) ∙ set_string-digits (print_hex n) n (digits-print_hex n)
value-number_text (negsuc n) =
    value_of_minus (print_nat (suc n))
    ∙ set_string-minus 10 (print_nat (suc n)) n (digits-print_nat (suc n))

set_string-hex_text : (v : ℤ) → set_string 16 (hex_text v) ≡ some v
unfolding hex_text
set_string-hex_text (pos n) = set_string-digits (print_hex n) n (digits-print_hex n)
set_string-hex_text (negsuc n) =
    set_string-minus 16 (print_hex (suc n)) n (digits-print_hex (suc n))

-- The number that is meant: a `uint64` is taken for an `int64`.
abbrev pub meant : Given → Option ℤ
meant (text s) = value_of_text s
meant (big none) = some (pos 0)
meant (big (some v)) = some v
meant (int v) = some v
meant (uint n) = some (signed64 n)
meant other = some (pos 0)

no_text : value_of_text [] ≡ some (pos 0)
unfolding value_of_text
no_text = refl

read_text : (op : Opcode) (s : Bytes) → value_as_big (with_text op s) ≡ value_of_text s
unfolding value_as_big value_of_text
read_text op [] = refl
read_text op (c ∷ cs) = refl

-- `GetValueAsBigInt` reads the number back from which `MakeInstructionWithValue` made an instruction,
-- of any sign and size, except that it takes a `uint64` for an `int64`; no number is read as 0.
pub value_as_big-make_instruction_with_value :
    (op : Opcode) (v : Given) → value_as_big (make_instruction_with_value op v) ≡ meant v
unfolding make_instruction_with_value
value_as_big-make_instruction_with_value op (text s) = read_text op s
value_as_big-make_instruction_with_value op (big none) = read_text op [] ∙ no_text
value_as_big-make_instruction_with_value op (big (some v)) =
    read_text op (number_text v) ∙ value-number_text v
value_as_big-make_instruction_with_value op (int v) =
    read_text op (number_text v) ∙ value-number_text v
value_as_big-make_instruction_with_value op (uint n) =
    read_text op (hex_prefix ++ hex_text (signed64 n))
    ∙ (value_of_hex (hex_text (signed64 n)) ∙ set_string-hex_text (signed64 n))
value_as_big-make_instruction_with_value op other = read_text op [] ∙ no_text
