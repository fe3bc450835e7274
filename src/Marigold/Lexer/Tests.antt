-- ===== src/Marigold/Lexer/Tests.antt =====
-- Tests of the lexer, and an instance of its theorem.
use august.Base.{ℕ, ◌≡◌, refl, Option, some, List, [], ◌∷◌, map}
use august.Base.Bytes.{Bytes, ascii, bytes_eq}
use august.Base.Dict.{lookup}
use august.Marigold.Tokens.{
  TokenType, Token, identifier, float_literal, string_literal, assign, l_paren, r_paren, int,
  semicolon, token_type_map, type_of,
}
use august.Marigold.Lexer.{
  advance, span, slash, unescape, scan_string, number, opens_call, word_type, round, Lexed, lexed,
  no_end_of_string, crashed, lex_loop, lex,
}
use august.Marigold.Lexer.Ends.{lex_ends}

abbrev kinds : Option Lexed → List TokenType
kinds (some (lexed ts)) = map (λ (t : Token). t.kind) ts
kinds _ = []

abbrev columns : Option Lexed → List ℕ
columns (some (lexed ts)) = map (λ (t : Token). t.col) ts
columns _ = []

read : Bytes → Option Lexed
unfolding lex lex_loop round word_type opens_call number scan_string unescape slash span advance
    type_of token_type_map lookup bytes_eq
read text = lex text

declaration :
    kinds (read (ascii "int x = 12.5; // rest"))
    ≡ int ∷ identifier ∷ assign ∷ float_literal ∷ semicolon ∷ []
unfolding read
declaration = refl

-- The name of a type in front of a parenthesis is an identifier.
conversion :
    kinds (read (ascii "int (\"a\\\"b\")")) ≡ identifier ∷ l_paren ∷ string_literal ∷ r_paren ∷ []
unfolding read
conversion = refl

-- After an operator of two bytes the columns are one short: the last word begins at column 3.
two_bytes : columns (read (ascii "a==b")) ≡ 0 ∷ 1 ∷ 2 ∷ []
unfolding read
two_bytes = refl

open_string : read (ascii "\"a") ≡ some (no_end_of_string [])
unfolding read
open_string = refl

lone_ampersand : read (ascii "a & b") ≡ some crashed
unfolding read
lone_ampersand = refl

lex_ends_example : (x : Lexed) × (lex (ascii "a==b") ≡ some x)
lex_ends_example = lex_ends (ascii "a==b")
