-- ===== src/Marigold/Tokens.antt =====
-- marigold/tokens.go: the tokens of the language.
use august.Base.{ℕ, Option, none, some, [], ◌∷◌}
use august.Base.Bytes.{Bytes, ascii, bytes_eq}
use august.Base.Dict.{Dict, lookup, bytes_eq_inst}

-- `TokenType`; `no_type` is the empty text that a missing entry of the map gives.
pub data TokenType : Type 0 where
  l_paren r_paren l_square r_square l_brace r_brace comma dot : TokenType
  pipe colon semicolon assign equality not_equal negation less_than : TokenType
  less_equal greater_than greater_equal divide modulo plus minus multiply : TokenType
  exponent logical_and logical_or identifier string_literal int_literal float_literal bool_literal :
      TokenType
  string int float bool_type while return_keyword define break : TokenType
  continue if_keyword else_keyword len emit stop assert map_keyword : TokenType
  function_type eof no_type : TokenType

-- `TokenTypeMap`
unfoldable pub token_type_map : Dict Bytes TokenType
token_type_map =
    (ascii "(", l_paren)
    ∷ (ascii ")", r_paren)
    ∷ (ascii "[", l_square)
    ∷ (ascii "]", r_square)
    ∷ (ascii "{", l_brace)
    ∷ (ascii "}", r_brace)
    ∷ (ascii ",", comma)
    ∷ (ascii ".", dot)
    ∷ (ascii "|", pipe)
    ∷ (ascii ":", colon)
    ∷ (ascii ";", semicolon)
    ∷ (ascii "=", assign)
    ∷ (ascii "==", equality)
    ∷ (ascii "!=", not_equal)
    ∷ (ascii "!", negation)
    ∷ (ascii "<", less_than)
    ∷ (ascii "<=", less_equal)
    ∷ (ascii ">", greater_than)
    ∷ (ascii ">=", greater_equal)
    ∷ (ascii "/", divide)
    ∷ (ascii "%", modulo)
    ∷ (ascii "+", plus)
    ∷ (ascii "-", minus)
    ∷ (ascii "*", multiply)
    ∷ (ascii "^", exponent)
    ∷ (ascii "&&", logical_and)
    ∷ (ascii "||", logical_or)
    ∷ (ascii "string", string)
    ∷ (ascii "int", int)
    ∷ (ascii "float", float)
    ∷ (ascii "bool", bool_type)
    ∷ (ascii "while", while)
    ∷ (ascii "return", return_keyword)
    ∷ (ascii "define", define)
    ∷ (ascii "break", break)
    ∷ (ascii "continue", continue)
    ∷ (ascii "if", if_keyword)
    ∷ (ascii "else", else_keyword)
    ∷ (ascii "len", len)
    ∷ (ascii "emit", emit)
    ∷ (ascii "stop", stop)
    ∷ (ascii "assert", assert)
    ∷ (ascii "map", map_keyword)
    ∷ (ascii "true", bool_literal)
    ∷ (ascii "false", bool_literal)
    ∷ []

-- `Token`, its file name aside, which is always the same.
pub record Token : Type 0 where
  pub kind : TokenType
  pub value : Bytes
  pub col : ℕ
  pub row : ℕ

abbrev or_no_type : Option TokenType → TokenType
or_no_type none = no_type
or_no_type (some t) = t

-- `TokenTypeMap[value]`
unfoldable pub type_of : Bytes → TokenType
unfolding lookup token_type_map bytes_eq
type_of value = or_no_type (lookup value token_type_map)
