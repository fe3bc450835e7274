-- ===== src/Marigold/Lexer.antt =====
-- marigold/lexer.go: `Lex`. The text behind the cursor stands for the cursor, and the words that have
-- been passed for the slices of the text.
pub mod Ends
mod Tests
use august.Base.{
  ℕ, zero, suc, ◌+◌, Bool, true, false, Option, none, some, List, [], ◌∷◌, ◌++◌, ◌||◌, ◌&&◌, ◌==◌,
  not, leb, if◌then◌else◌, length,
}
use august.Base.Bytes.{Bytes, ascii, bytes_eq}
use august.Base.Dict.{lookup, bytes_eq_inst}
use august.Marigold.Tokens.{
  TokenType, Token, identifier, string_literal, int_literal, float_literal, token_type_map, type_of,
}

pub record Position : Type 0 where
  pub row : ℕ
  pub col : ℕ

-- `increment`
unfoldable pub advance : ℕ → Position → Position
advance c p =
    if c == 10 then record { row = p.row + 1; col = 0 } else record { row = p.row; col = p.col + 1 }

-- What one round of the loop does: it passes some text, adds a token, or gives up.
pub data Round : Type 0 where
  passes : Bytes → Position → Round
  adds : Token → Bytes → Position → Round
  unterminated : Round
  crashes : Round

abbrev pub make_token : Bytes → Position → Token
make_token value p = record { kind = type_of value; value = value; col = p.col; row = p.row }

-- `makeToken` of one byte.
abbrev pub single : ℕ → Bytes → Position → Round
single c cs p = adds (make_token (c ∷ []) p) cs (advance c p)

-- An operator that a second byte extends; the column then counts one byte for the two.
abbrev pub extended : ℕ → ℕ → Round → Bytes → Position → Round
extended c second alone [] p = alone
extended c second alone (d ∷ ds) p =
    if d == second then adds (make_token (c ∷ d ∷ []) p) ds (advance c p) else alone

-- The bytes in front that pass a test, what is behind them, and the position there.
unfoldable pub span : (ℕ → Bool) → Bytes → Position → Bytes × Bytes × Position
unfolding advance
span test [] p = ([], [], p)
span test (c ∷ cs) p =
    let (word, rest, q) = span test cs (advance c p) in
    if test c then (c ∷ word, rest, q) else ([], c ∷ cs, p)

abbrev pub not_newline : ℕ → Bool
not_newline c = not (c == 10)

abbrev pub after_span : Bytes × Bytes × Position → Round
after_span (word, rest, q) = passes rest q

-- A comment up to the end of the line, or a division.
unfoldable pub slash : Bytes → Position → Round
unfolding span
slash [] p = single b'/' [] p
slash (d ∷ ds) p =
    let comment = after_span (span not_newline (b'/' ∷ d ∷ ds) p) in
    if d == b'/' then comment else single b'/' (d ∷ ds) p

-- What an escape sequence stands for; an unknown one keeps its backslash.
unfoldable pub unescape : ℕ → Bytes
unescape c =
    if (c == b'"') || (c == b'\\')
    then c ∷ []
    else if c == b'n'
    then 10 ∷ []
    else if c == b't'
    then 9 ∷ []
    else if c == b'r'
    then 13 ∷ []
    else b'\\' ∷ c ∷ []

abbrev pub put_before :
    Bytes → Option (Bytes × Bytes × Position) → Option (Bytes × Bytes × Position)
put_before word none = none
put_before word (some (content, rest, q)) = some (word ++ content, rest, q)

-- The content of a string literal, and what is behind its closing quote.
unfoldable pub scan_string : Bytes → Position → Option (Bytes × Bytes × Position)
unfolding advance unescape
scan_string [] p = none
scan_string (c ∷ []) p = if c == b'"' then some ([], [], advance c p) else none
scan_string (c ∷ d ∷ ds) p =
    let escaped = put_before (unescape d) (scan_string ds (advance d (advance c p))) in
    let plain = put_before (c ∷ []) (scan_string (d ∷ ds) (advance c p)) in
    if c == b'"' then some ([], d ∷ ds, advance c p) else if c == b'\\' then escaped else plain

abbrev pub string_token : Position → Option (Bytes × Bytes × Position) → Round
string_token start none = unterminated
string_token start (some (content, rest, q)) =
    adds (record { kind = string_literal; value = content; col = start.col; row = start.row }) rest
      q

abbrev pub token_at : TokenType → Bytes → Position → Token
token_at kind value p = record { kind = kind; value = value; col = p.col; row = p.row }

-- `unicode.IsDigit` of one byte.
abbrev pub is_digit : ℕ → Bool
is_digit c = leb b'0' c && leb c b'9'

abbrev pub is_letter : ℕ → Bool
is_letter c = (leb b'a' c && leb c b'z') || (leb b'A' c && leb c b'Z') || (c == b'_') || (c == b'@')

abbrev pub is_word_byte : ℕ → Bool
is_word_byte c = is_letter c || is_digit c

abbrev float_token : Position → Bytes → Bytes × Bytes × Position → Round
float_token start whole (fraction, rest, q) =
    adds (token_at float_literal (whole ++ b'.' ∷ fraction) start) rest q

-- After the digits: a dot with a digit behind it makes a float.
unfoldable pub number : Position → Bytes × Bytes × Position → Round
unfolding span
number start (whole, [], q) = adds (token_at int_literal whole start) [] q
number start (whole, c ∷ [], q) = adds (token_at int_literal whole start) (c ∷ []) q
number start (whole, c ∷ d ∷ ds, q) =
    if (c == b'.') && is_digit d
    then float_token start whole (span is_digit (d ∷ ds) (advance c q))
    else adds (token_at int_literal whole start) (c ∷ d ∷ ds) q

-- Whether an opening parenthesis follows, past spaces and tabs.
unfoldable pub opens_call : Bytes → Bool
opens_call [] = false
opens_call (c ∷ cs) =
    let rest = opens_call cs in if (c == b' ') || (c == 9) then rest else c == b'('

abbrev or_identifier : Option TokenType → TokenType
or_identifier none = identifier
or_identifier (some t) = t

-- The type of a word: a name of a type in front of a call is an identifier.
unfoldable pub word_type : Bytes → Bytes → TokenType
unfolding bytes_eq lookup token_type_map opens_call type_of
word_type word rest =
    if bytes_eq word (ascii "string")
      || bytes_eq word (ascii "int")
      || bytes_eq word (ascii "float")
    then (if opens_call rest then identifier else type_of word)
    else or_identifier (lookup word token_type_map)

abbrev pub word_token : Position → Bytes × Bytes × Position → Round
word_token start (word, rest, q) = adds (token_at (word_type word rest) word start) rest q

abbrev pub is_blank : ℕ → Bool
is_blank c = (c == b' ') || (c == 9) || (c == 13) || (c == 10)

-- `()[]{},.:;+-*%^`
abbrev pub is_single : ℕ → Bool
is_single c =
    (c == b'(')
    || (c == b')')
    || (c == b'[')
    || (c == b']')
    || (c == b'{')
    || (c == b'}')
    || (c == b',')
    || (c == b'.')
    || (c == b':')
    || (c == b';')
    || (c == b'+')
    || (c == b'-')
    || (c == b'*')
    || (c == b'%')
    || (c == b'^')

-- One round of the loop, at a byte and what is behind it.
unfoldable pub round : ℕ → Bytes → Position → Round
unfolding advance slash scan_string number span word_type type_of
round c cs p =
    if is_blank c
    then passes cs (advance c p)
    else if is_single c
    then single c cs p
    else if (c == b'=') || (c == b'!') || (c == b'<') || (c == b'>')
    then extended c b'=' (single c cs p) cs p
    else if c == b'&'
    then extended c b'&' crashes cs p
    else if c == b'|'
    then extended c b'|' (single c cs p) cs p
    else if c == b'/'
    then slash cs p
    else if c == b'"'
    then string_token p (scan_string cs (advance c p))
    else if is_digit c
    then number p (span is_digit (c ∷ cs) p)
    else if is_letter c
    then word_token p (span is_word_byte (c ∷ cs) p)
    else crashes

-- The tokens, an error with the tokens before it, or a panic; `no_source` is the error for no text.
pub data Lexed : Type 0 where
  lexed : List Token → Lexed
  no_end_of_string : List Token → Lexed
  no_source : Lexed
  crashed : Lexed

abbrev pub next_round :
    (Bytes → Position → List Token → Option Lexed) → List Token → Round → Option Lexed
next_round rest before (passes cs p) = rest cs p before
next_round rest before (adds t cs p) = rest cs p (before ++ t ∷ [])
next_round rest before unterminated = some (no_end_of_string before)
next_round rest before crashes = some crashed

-- The loop of `Lex`; `none` is a lack of fuel.
unfoldable pub lex_loop : ℕ → Bytes → Position → List Token → Option Lexed
unfolding round
lex_loop fuel [] p before = some (lexed before)
lex_loop zero (c ∷ cs) p before = none
lex_loop (suc fuel) (c ∷ cs) p before = next_round (lex_loop fuel) before (round c cs p)

-- `Lex`; every round passes one byte at least.
unfoldable pub lex : Bytes → Option Lexed
unfolding lex_loop
lex [] = some no_source
lex (c ∷ cs) = lex_loop (length (c ∷ cs)) (c ∷ cs) (record { row = 0; col = 0 }) []
