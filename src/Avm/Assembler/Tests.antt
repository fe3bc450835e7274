-- ===== src/Avm/Assembler/Tests.antt =====
-- Tests of the assembler, and an instance of its round trip.
use august.Base.{◌≡◌, ◌≢◌, refl, List, [], ◌∷◌, arith, ◌++◌}
use august.Base.Bytes.{Bytes, ascii, bytes_eq, has_prefix}
use august.Base.Dict.{lookup}
use august.Types.Opcode.{push, add, stop, pc}
use august.Types.Literal.{digit_value, digits, digits_from, set_string, hex_prefix}
use august.Types.Instruction.{Instruction}
use august.Types.Make.{make_instruction, make_push_instruction}
use august.Types.Names.{opcode_name, opcode_map}
use august.Avm.Decimal.{print_nat, print_from}
use august.Avm.Assembler.{
  is_space, tokens, tokens_from, parse_tokens, parse_instructions, read_hex, export_instructions,
  parts, join, parsed, rejected, crashed, unknown_opcode, invalid_eof, Parsed,
}
use august.Avm.Assembler.Named.{is_named}
use august.Avm.Assembler.RoundTrip.{IsWritten, AllWritten, parse_instructions-export}

read : Bytes → Parsed
unfolding parse_instructions tokens tokens_from is_space parse_tokens bytes_eq lookup opcode_map
    read_hex has_prefix set_string digits digits_from digit_value
read s = parse_instructions s

-- Commas are words of their own, and no opcodes.
with_comma : read (ascii "ADD, STOP") ≡ rejected unknown_opcode (make_instruction add ∷ [])
unfolding read
with_comma = refl

bare_push : read (ascii "STOP PUSH") ≡ rejected invalid_eof (make_instruction stop ∷ [])
unfolding read
bare_push = refl

-- A value of one digit makes the assembler panic.
short_value : read (ascii "PUSH 5") ≡ crashed
unfolding read
short_value = refl

-- A value without `0x` is hexadecimal all the same.
bare_value : read (ascii "PUSH 10") ≡ parsed (make_push_instruction (ascii "0x10") ∷ [])
unfolding read
bare_value = refl

-- PC has no name, so that it is not read back.
pc_unknown : read (export_instructions (make_instruction pc ∷ [])) ≡ rejected unknown_opcode []
unfolding read export_instructions parts join opcode_name print_nat print_from
pc_unknown = refl

abbrev program : List Instruction
program =
    make_push_instruction (hex_prefix ++ ascii "2a")
    ∷ make_push_instruction (hex_prefix ++ ascii "0F")
    ∷ make_instruction add
    ∷ make_instruction stop
    ∷ []

add_other : add ≢ push
add_other e = cc

stop_other : stop ≢ push
stop_other e = cc

program-AllWritten : AllWritten program
unfolding is_named digits digits_from digit_value
program-AllWritten = (
  IsWritten.pushed (ascii "2a") 42 refl (omega arith),
  (
    IsWritten.pushed (ascii "0F") 15 refl (omega arith),
    (IsWritten.plain add add_other refl, (IsWritten.plain stop stop_other refl, tt)),
  ),
)

parse_instructions-export_example :
    parse_instructions (export_instructions program) ≡ parsed program
parse_instructions-export_example = parse_instructions-export program program-AllWritten
