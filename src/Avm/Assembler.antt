-- ===== src/Avm/Assembler.antt =====
-- avm/parser.go: the assembly text of a program.
mod Tests
pub mod Scan
pub mod Named
pub mod RoundTrip
use august.Base.{
  ℕ, suc, ◌+◌, ◌^◌, ◌<◌, Bool, true, false, Option, none, some, List, [], ◌∷◌, ◌++◌, ◌||◌, ◌==◌,
  ltb, leb, if◌then◌else◌, length, drop, take,
}
use august.Base.Int.{ℤ, abs}
use august.Base.Bytes.{Bytes, ascii, bytes_eq, has_prefix}
use august.Base.Dict.{lookup, bytes_eq_inst}
use august.Types.Opcode.{Opcode, push}
use august.Types.Literal.{set_string, hex_prefix}
use august.Types.Instruction.{Instruction}
use august.Types.Make.{make_instruction, make_push_instruction}
use august.Types.Names.{opcode_name, opcode_map}

-- `\s`: tab, newline, form feed, carriage return, space.
unfoldable pub is_space : ℕ → Bool
is_space c = (c == 9) || (c == 10) || (c == 12) || (c == 13) || (c == 32)

abbrev pub comma : ℕ
comma = b','

abbrev pub flush : Bytes → List Bytes → List Bytes
flush [] ts = ts
flush (c ∷ cs) ts = (c ∷ cs) ∷ ts

-- The matches of `[^,\n\s]+|,`, with the word that has been read so far.
unfoldable pub tokens_from : Bytes → Bytes → List Bytes
unfolding is_space
tokens_from word [] = flush word []
tokens_from word (c ∷ cs) =
    let fresh = tokens_from [] cs in
    let longer = tokens_from (word ++ c ∷ []) cs in
    if is_space c
    then flush word fresh
    else if c == comma
    then flush word ((comma ∷ []) ∷ fresh)
    else longer

unfoldable pub tokens : Bytes → List Bytes
unfolding tokens_from
tokens text = tokens_from [] text

pub data ParseError : Type 0 where
  invalid_eof invalid_hex too_large unknown_opcode : ParseError

-- The instructions, an error with the instructions before it, or a panic.
pub data Parsed : Type 0 where
  parsed : List Instruction → Parsed
  rejected : ParseError → List Instruction → Parsed
  crashed : Parsed

-- What `SetString` reads in the value of a PUSH, and the text that is kept of it.
unfoldable pub read_hex : Bytes → Option ℤ × Bytes
unfolding set_string has_prefix
read_hex s =
    if has_prefix hex_prefix s
    then (set_string 16 (drop 2 s), s)
    else (set_string 16 s, hex_prefix ++ s)

-- The value of a PUSH, then the rest; `hexValue[:2]` panics on a text of one byte.
abbrev pub with_value : (List Instruction → Parsed) → List Instruction → Option ℤ × Bytes → Parsed
with_value rest before (none, s) = rejected invalid_hex before
with_value rest before (some n, s) =
    if leb (2 ^ 256) (abs n)
    then rejected too_large before
    else rest (before ++ make_push_instruction s ∷ [])

abbrev pub with_hex : (List Instruction → Parsed) → List Instruction → Bytes → Parsed
with_hex rest before s = if ltb (length s) 2 then crashed else with_value rest before (read_hex s)

abbrev pub with_opcode : (List Instruction → Parsed) → List Instruction → Option Opcode → Parsed
with_opcode rest before none = rejected unknown_opcode before
with_opcode rest before (some op) = rest (before ++ make_instruction op ∷ [])

-- The loop of `ParseInstructionsFromString`, with the instructions so far.
unfoldable mutual
  pub parse_tokens : List Bytes → List Instruction → Parsed
  parse_tokens [] before = parsed before
  parse_tokens (t ∷ ts) before =
      let pushed = parse_push ts before in
      let other = with_opcode (parse_tokens ts) before (lookup t opcode_map) in
      if bytes_eq t (ascii "PUSH") then pushed else other

  -- After `PUSH`.
  pub parse_push : List Bytes → List Instruction → Parsed
  parse_push [] before = rejected invalid_eof before
  parse_push (s ∷ ts) before = with_hex (parse_tokens ts) before s

-- `ParseInstructionsFromString`
unfoldable pub parse_instructions : Bytes → Parsed
unfolding tokens parse_tokens
parse_instructions text = parse_tokens (tokens text) []

-- The parts of one instruction in the text.
abbrev pub with_text : Option Bytes → Opcode → List Bytes
with_text none op = opcode_name op ∷ []
with_text (some s) push = ascii "PUSH" ∷ s ∷ []
with_text (some s) op = opcode_name op ∷ []

unfoldable pub parts : List Instruction → List Bytes
unfolding opcode_name
parts [] = []
parts (i ∷ rest) = with_text i.value i.opcode ++ parts rest

-- `strings.Join(parts, " ")`
unfoldable pub join : List Bytes → Bytes
join [] = []
join (w ∷ []) = w
join (w ∷ v ∷ ws) = w ++ b' ' ∷ join (v ∷ ws)

-- `ExportInstructionsAsString`
unfoldable pub export_instructions : List Instruction → Bytes
unfolding parts join
export_instructions is = join (parts is)
