-- ===== src/Lexer/Tokenize.antt =====
-- Operators, and the choice of a token by its first characters (src/compiler/common/lexer.c):
-- `Lexer_tokenize`.
use cyntatic.Prelude.{ℕ, true, ◌&&◌, ◌||◌, Option, some, none, ◌==◌, if◌then◌else◌}
use cyntatic.Token.{TokenKind, Token}
use cyntatic.Lexer.State.{
  Scan, Problem, Position, pure, peek, move, mark, eof_char, made_before, report, ◌>>=◌, ◌>>◌,
  advance,
}
use cyntatic.Lexer.Escape.{is_digit}
use cyntatic.Lexer.Number.{number_literal}
use cyntatic.Lexer.Literal.{char_literal, string_literal, str_flag, set_flag, quote, backslash}
use cyntatic.Lexer.Words.{name, comment, is_letter}

-- What `Lexer_tokenize` does for an operator: the macros `ADD` and `IF` for one and for two
-- characters, and the first branch of `IF_ELSE2`, which moves three characters and then one.
pub data Op : Type 0 where
  one two three : TokenKind → Op

-- `IF_ELSE`.
abbrev pub if_else : ℕ → ℕ → TokenKind → TokenKind → Option Op
if_else cc c t e = some (if cc == c then Op.two t else Op.one e)

-- `IF_ELSE2`.
abbrev pub if_else2 : ℕ → ℕ → ℕ → ℕ → TokenKind → TokenKind → TokenKind → Option Op
if_else2 cc ccc c c3 t e o =
    some (if cc == c then (if ccc == c3 then Op.three t else Op.two e) else Op.one o)

-- `IF` with what follows its `else`.
abbrev pub if_or : ℕ → ℕ → TokenKind → Option Op → Option Op
if_or cc c t rest = if cc == c then some (Op.two t) else rest

-- The operators of two and three characters in the switch of `Lexer_tokenize`.
unfoldable pub long_operator : ℕ → ℕ → ℕ → Option Op
long_operator c cc ccc =
    if c == b'%'
    then if_else cc b'=' TokenKind.mod_assign TokenKind.modulo
    else if c == b'/'
    then if_else cc b'=' TokenKind.div_assign TokenKind.div
    else if c == b'*'
    then if_or cc b'*' TokenKind.exponent (if_else cc b'=' TokenKind.mult_assign TokenKind.mult)
    else if c == b'+'
    then if_or cc b'+' TokenKind.plus_plus (if_else cc b'=' TokenKind.plus_assign TokenKind.plus)
    else if c == b'-'
    then if_or cc b'-' TokenKind.minus_minus (
        if_or cc b'>' TokenKind.left_arrow (if_else cc b'=' TokenKind.minis_assign TokenKind.minus))
    else if c == b'|'
    then if_or cc b'|' TokenKind.logical_or
        (if_else cc b'=' TokenKind.bit_or_assign TokenKind.bit_or)
    else if c == b'&'
    then if_or cc b'&' TokenKind.logical_and
        (if_else cc b'=' TokenKind.bit_and_assign TokenKind.bit_and)
    else if c == b'^'
    then if_else cc b'=' TokenKind.bit_xor_assign TokenKind.bit_or
    else if c == b'~'
    then if_else cc b'=' TokenKind.comp_assign TokenKind.complement
    else if c == b'>'
    then if_else2 cc ccc b'>' b'=' TokenKind.sar_assign TokenKind.sar TokenKind.gt
    else if c == b'<'
    then if_or cc b'-' TokenKind.left_arrow
        (if_else2 cc ccc b'<' b'=' TokenKind.sal_assign TokenKind.sal TokenKind.lt)
    else if c == b'='
    then if_else cc b'=' TokenKind.equal TokenKind.assign
    else if c == b'.'
    then if_else2 cc ccc b'.' b'.' TokenKind.elipsis TokenKind.dot_dot TokenKind.dot
    else if c == b':'
    then if_else cc b':' TokenKind.double_colon TokenKind.colon
    else none

-- The characters of the switch that are a token on their own.
unfoldable pub short_operator : ℕ → Option TokenKind
short_operator c =
    if c == b'!'
    then some TokenKind.not
    else if c == b'{'
    then some TokenKind.left_brace
    else if c == b'}'
    then some TokenKind.right_brace
    else if c == b'['
    then some TokenKind.left_bracket
    else if c == b']'
    then some TokenKind.right_bracket
    else if c == b'('
    then some TokenKind.left_paren
    else if c == b')'
    then some TokenKind.right_paren
    else if c == b'@'
    then some TokenKind.at
    else if c == b'#'
    then some TokenKind.hash
    else if c == b'?'
    then some TokenKind.question
    else if c == b'`'
    then some TokenKind.backquote
    else if c == b';'
    then some TokenKind.semicolon
    else if c == b','
    then some TokenKind.comma
    else if c == b'$'
    then some TokenKind.dollar
    else if c == backslash
    then some TokenKind.back_slash
    else none

-- The operator that stands at characters.
unfoldable pub operator : ℕ → ℕ → ℕ → Option Op
operator c cc ccc = elim (long_operator c cc ccc) [
  | some op ↦ some op
  | none ↦ elim (short_operator c) [ some kind ↦ some (Op.one kind) | none ↦ none ]
]

-- The move of the macros, and their token.
unfoldable pub op_token : Op → Position → Token → Scan
op_token (Op.one kind) start tok = made_before 1 kind start tok
op_token (Op.two kind) start tok = made_before 2 kind start tok
op_token (Op.three kind) start tok = move 3 >> made_before 1 kind start tok

-- The branches of the switch of `Lexer_tokenize` that are no operators.
unfoldable pub other_token : ℕ → ℕ → Position → Token → Scan
other_token c cc start tok =
    if c == quote
    then char_literal tok
    else if c == b'"'
    then (move 1 >> string_literal tok start)
    else if c == b'f' && cc == b'"'
    then (set_flag true >> made_before 1 TokenKind.left_str_expr start tok)
    else if is_digit c
    then number_literal tok
    else if c == b'_' || is_letter c
    then name tok
    else if c == eof_char
    then pure (TokenKind.eof, tok)
    else (do
      end ← advance 1
      report Problem.unexpected_character start.at end start.coord
      pure (TokenKind.count, tok))

-- `Lexer_tokenize`; the tests of its switch that come first here are not those of an operator.
unfoldable pub tokenize : Token → Scan
tokenize tok = do
  c ← peek 0
  cc ← peek 1
  ccc ← peek 2
  start ← mark
  flag ← str_flag
  if c == b'/' && (cc == b'*' || cc == b'/')
      then comment tok
      else if c == b'.' && is_digit cc
      then number_literal tok
      else if c == b'}' && flag
      then (move 1 >> string_literal tok start)
      else elim (operator c cc ccc) [
        | some op ↦ op_token op start tok
        | none ↦ other_token c cc start tok
      ]
