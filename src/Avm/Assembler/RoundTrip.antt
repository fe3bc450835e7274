-- ===== src/Avm/Assembler/RoundTrip.antt =====
-- avm/parser.go: a program that is written out and read back.
use august.Base.{
  ℕ, suc, ◌+◌, ◌*◌, ◌^◌, ◌<◌, ◌≡◌, ◌≢◌, refl, ap, ◌∙◌, true, false, some, List, [], ◌∷◌, ◌++◌, ltb,
  leb, arith, Bool-cases, inl, inr, length,
}
use mathlib.Core.List.{append-nil, append_assoc}
use august.Base.Int.{pos}
use august.Base.Bytes.{Bytes, ascii, bytes_eq, has_prefix}
use august.Base.Dict.{bytes_eq_inst}
use august.Types.Opcode.{Opcode, push}
use august.Types.Literal.Digits.{set_string-digits}
use august.Types.Literal.{digit_value, digits_from, digits, hex_prefix}
use august.Types.Instruction.{Instruction}
use august.Types.Make.{make_instruction, make_push_instruction}
use august.Avm.Assembler.{
  is_space, parsed, read_hex, parse_tokens, parse_instructions, parts, export_instructions,
}
use august.Avm.Assembler.Scan.{in_word, all_in_word, IsWord, AllWords, tokens-join}
use august.Avm.Assembler.Named.{is_named, named-IsWord, named_known, named_other}

-- An instruction as the assembler makes it: an opcode with a name and no value, or PUSH with the
-- digits of a number of at most 256 bits behind `0x`.
pub data IsWritten : Instruction → Type 0 where
  plain : (op : Opcode) → op ≢ push → is_named op ≡ true → IsWritten (make_instruction op)
  pushed :
      (d : Bytes) (n : ℕ)
      → digits 16 d ≡ some n
      → n < 2 ^ 256
      → IsWritten (make_push_instruction (hex_prefix ++ d))

abbrev pub AllWritten : List Instruction → Type 0
AllWritten [] = Unit {0}
AllWritten (i ∷ is) = IsWritten i × AllWritten is

digit-in_word : (c : ℕ) → ltb (digit_value c) 16 ≡ true → in_word c ≡ true
unfolding digit_value in_word is_space
digit-in_word c h = ground arith

digits-in_word : (d : Bytes) (acc n : ℕ) → digits_from 16 acc d ≡ some n → all_in_word d ≡ true
unfolding digits_from all_in_word
digits-in_word [] acc n h = refl
digits-in_word (c ∷ cs) acc n h = elim (Bool-cases (ltb (digit_value c) 16)) [
  | inr bad ↦ absurd (let h' = rw bad at h in cc)
  | inl good ↦
      rw (digit-in_word c good) (digits-in_word cs (acc * 16 + digit_value c) n (rw good at h))
]

hex-IsWord : (d : Bytes) (n : ℕ) → digits 16 d ≡ some n → IsWord (hex_prefix ++ d)
unfolding digits all_in_word in_word is_space
hex-IsWord [] n h = absurd (cc)
hex-IsWord (c ∷ cs) n h = digits-in_word (c ∷ cs) 0 n h

push_word : all_in_word (ascii "PUSH") ≡ true
unfolding all_in_word in_word is_space
push_word = refl

push_is_push : bytes_eq (ascii "PUSH") (ascii "PUSH") ≡ true
unfolding bytes_eq
push_is_push = refl

parts-AllWords : (is : List Instruction) → AllWritten is → AllWords (parts is)
unfolding parts
parts-AllWords [] h = tt
parts-AllWords (i ∷ is) (plain op other named, hs) = (named-IsWord op named, parts-AllWords is hs)
parts-AllWords (i ∷ is) (pushed d n e small, hs) =
    (push_word, (hex-IsWord d n e, parts-AllWords is hs))

read_written :
    (d : Bytes) (n : ℕ)
    → digits 16 d ≡ some n
    → read_hex (hex_prefix ++ d) ≡ (some (pos n), hex_prefix ++ d)
unfolding read_hex has_prefix
read_written d n h = rw (set_string-digits d n h) refl

parse_written :
    (is : List Instruction) (before : List Instruction)
    → AllWritten is
    → parse_tokens (parts is) before ≡ parsed (before ++ is)
unfolding parts parse_tokens
parse_written [] before h = rw append-nil refl
parse_written (i ∷ is) before (plain op other named, hs) =
    rw (named_other op named other, named_known op named)
      (parse_written is (before ++ make_instruction op ∷ []) hs
        ∙ ap parsed (append_assoc before (make_instruction op ∷ []) is))
parse_written (i ∷ is) before (pushed d n e small, hs) =
    let within : leb (2 ^ 256) n ≡ false = ground arith in
    let long : ltb (suc (suc (length d))) 2 ≡ false = ground arith in
    let j = make_push_instruction (hex_prefix ++ d) in
    rw (push_is_push, long, read_written d n e, within)
      (parse_written is (before ++ j ∷ []) hs ∙ ap parsed (append_assoc before (j ∷ []) is))

-- The text of a program in which each instruction has an opcode with a name, and a value exactly
-- where it is a PUSH, namely the hexadecimal digits of a number of at most 256 bits behind `0x`, is
-- parsed to the same program.
pub parse_instructions-export :
    (is : List Instruction)
    → AllWritten is
    → parse_instructions (export_instructions is) ≡ parsed is
unfolding parse_instructions export_instructions
parse_instructions-export is h =
    rw (tokens-join (parts is) (parts-AllWords is h)) (parse_written is [] h)
