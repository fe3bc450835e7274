-- ===== src/Types/Instruction.antt =====
-- types/types.go and types/bytecode.go: instructions and their validation.
use august.Base.{Option, none, some, if◌then◌else◌}
use august.Base.Bytes.{Bytes, ascii, contains}
use august.Base.Int.{ℤ, pos, negsuc}
use august.Types.Opcode.{Opcode, push, valid}
use august.Types.Literal.{value_of_text}

-- `Value` is a pointer to a text: `none` is nil.
pub record Instruction : Type 0 where
  pub opcode : Opcode
  pub value : Option Bytes

pub data InvalidInstruction : Type 0 where
  invalid_opcode invalid_push negative_value unexpected_parameter : InvalidInstruction

-- `GetValueAsBigInt`: `none` is its error.
unfoldable pub value_as_big : Instruction → Option ℤ
unfolding value_of_text
value_as_big i = elim i.value [ none ↦ some (pos 0) | some s ↦ value_of_text s ]

abbrev pub param_mark : Bytes
param_mark = ascii ",param="

abbrev check_sign : Option ℤ → Option InvalidInstruction
check_sign none = some invalid_push
check_sign (some (pos n)) = none
check_sign (some (negsuc n)) = some negative_value

abbrev check_push : Option Bytes → Option InvalidInstruction
check_push none = some invalid_push
check_push (some s) =
    if contains s param_mark then some unexpected_parameter else check_sign (value_of_text s)

abbrev check_no_value : Option Bytes → Option InvalidInstruction
check_no_value none = none
check_no_value (some s) = some unexpected_parameter

abbrev check_value : Opcode → Option Bytes → Option InvalidInstruction
check_value push v = check_push v
check_value _ v = check_no_value v

-- `ValidateInstruction`: `none` is nil.
unfoldable pub validate_instruction : Instruction → Option InvalidInstruction
unfolding valid contains value_of_text
validate_instruction i =
    if valid i.opcode then check_value i.opcode i.value else some invalid_opcode
