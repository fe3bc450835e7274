-- ===== src/Types/Make.antt =====
-- types/bytecode.go: the functions that make instructions.
pub mod Value
use august.Base.{ℕ, suc, Option, none, some, List, [], ◌∷◌, ◌++◌}
use august.Base.Int.{ℤ, pos, negsuc, signed64}
use august.Base.Bytes.{Bytes}
use august.Types.Opcode.{Opcode, push}
use august.Types.Literal.{hex_prefix, print_hex}
use august.Types.Instruction.{Instruction, param_mark}
use august.Avm.Decimal.{print_int}

-- `MakeInstruction`
abbrev pub make_instruction : Opcode → Instruction
make_instruction op = record { opcode = op; value = none }

-- `MakePushInstruction`
abbrev pub make_push_instruction : Bytes → Instruction
make_push_instruction s = record { opcode = push; value = some s }

-- The dynamic types that `MakeInstructionWithValue` tells apart: a text, a `*big.Int` that can be nil,
-- an `int` or `int64`, a `uint64`, and all others.
pub data Given : Type 0 where
  text : Bytes → Given
  big : Option ℤ → Given
  int : ℤ → Given
  uint : ℕ → Given
  other : Given

-- `big.Int.Text` at the base 16.
unfoldable pub hex_text : ℤ → Bytes
unfolding print_hex
hex_text (pos n) = print_hex n
hex_text (negsuc n) = b'-' ∷ print_hex (suc n)

-- A negative number in decimal, any other in hexadecimal digits.
unfoldable pub number_text : ℤ → Bytes
unfolding print_hex print_int
number_text (pos n) = hex_prefix ++ print_hex n
number_text (negsuc n) = print_int (negsuc n)

abbrev pub given_text : Given → Bytes
given_text (text s) = s
given_text (big none) = []
given_text (big (some v)) = number_text v
given_text (int v) = number_text v
given_text (uint n) = hex_prefix ++ hex_text (signed64 n)
given_text other = []

abbrev pub with_text : Opcode → Bytes → Instruction
with_text op [] = make_instruction op
with_text op (c ∷ cs) = record { opcode = op; value = some (c ∷ cs) }

-- `MakeInstructionWithValue`, and `MakeInstructionWithParam`, which calls it.
unfoldable pub make_instruction_with_value : Opcode → Given → Instruction
unfolding number_text hex_text
make_instruction_with_value op v = with_text op (given_text v)

abbrev param_text : Given → Bytes
param_text (text s) = s
param_text (big (some v)) = number_text v
param_text _ = []

-- `MakeInstructionWithValueAndParam`, with the text that `%v` makes of the parameter.
unfoldable pub make_instruction_with_value_and_param : Opcode → Given → Bytes → Instruction
unfolding number_text
make_instruction_with_value_and_param op v param = record {
  opcode = op;
  value = some (param_text v ++ param_mark ++ param);
}
