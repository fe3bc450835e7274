-- ===== src/Types/Tests.antt =====
-- An instance of the theorem on the values of instructions.
use august.Base.{◌≡◌, some}
use august.Base.Int.{negsuc}
use august.Types.Opcode.{push}
use august.Types.Instruction.{value_as_big}
use august.Types.Make.{int, make_instruction_with_value}
use august.Types.Make.Value.{value_as_big-make_instruction_with_value}

value_as_big-make_instruction_with_value_example :
    value_as_big (make_instruction_with_value push (int (negsuc 41))) ≡ some (negsuc 41)
value_as_big-make_instruction_with_value_example =
    value_as_big-make_instruction_with_value push (int (negsuc 41))
