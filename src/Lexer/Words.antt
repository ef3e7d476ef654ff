-- ===== src/Lexer/Words.antt =====
-- Names and comments (src/compiler/common/lexer.c): `Lexer_tokIdent`, `Lexer_tokComment`.
use cyntatic.Prelude.{
  ℕ, zero, suc, ◌+◌, ◌-◌, Bool, true, false, ◌&&◌, ◌||◌, not, Option, some, none, ◌==◌,
  if◌then◌else◌, length,
}
use cyntatic.Token.{TokenKind, TokenValue, Token, set_value}
use cyntatic.Lexer.State.{
  Lex, Scan, Stop, Problem, Position, pure, halt, peek, move, mark, eof_char, line_break,
  skip_while, failed, made, ◌>>=◌, ◌>>◌,
}
use cyntatic.Lexer.Keywords.{find_keyword}
use cyntatic.Lexer.Escape.{between, is_digit}
use cyntatic.Lexer.Number.{text_from}

abbrev pub is_letter : ℕ → Bool
is_letter c = between b'a' b'z' c || between b'A' b'Z' c

-- The test of the loop of `Lexer_tokIdent`.
abbrev pub is_name : ℕ → Bool
is_name c = c == b'_' || (c == b'$' || (is_digit c || is_letter c))

-- `Token_set(tok, Bool, *kw == tokTrue)` for the keywords `true` and `false`.
unfoldable pub keyword_value : TokenKind → Token → Token
keyword_value TokenKind.true_kw tok = set_value tok (TokenValue.bool_value true)
keyword_value TokenKind.false_kw tok = set_value tok (TokenValue.bool_value false)
keyword_value kind tok = tok

-- The end of `Lexer_tokIdent`, by what the map of keywords has.
unfoldable pub name_token : Token → Position → Option TokenKind → Scan
name_token tok start (some kind) = made kind start (keyword_value kind tok)
name_token tok start none = made TokenKind.identifier start tok

-- `Lexer_tokIdent`.
unfoldable pub name : Token → Scan
name tok = do
  start ← mark
  skip_while is_name
  s ← text_from start.at
  name_token tok start (find_keyword s)

-- A round of the loop of `Lexer_tokComment` behind the move through `c`, and the rounds that follow
-- for a `level`, where 0 stands for the `break` behind the last `*/`.
unfoldable pub comment_round : Bool → ℕ → ℕ → (ℕ → Lex ℕ) → Lex ℕ
comment_round multi c level rest = if c == line_break && not multi then pure level else (do
  cc ← peek 0
  if c == b'*' && cc == b'/'
      then (move 1 >> (if level == 1 then pure 0 else rest (level - 1)))
      else rest (if c == b'/' && cc == b'*' then level + 1 else level))

-- The loop of `Lexer_tokComment`, on fuel, with the last value of `c`; it returns `level`.
unfoldable pub comment_loop : ℕ → Bool → ℕ → ℕ → Lex ℕ
comment_loop zero multi c level = halt Stop.endless
comment_loop (suc n) multi c0 level =
    if c0 == eof_char
    then pure level
    else (do c ← peek 0; move 1; comment_round multi c level (λ l. comment_loop n multi c l))

-- `Lexer_tokComment`.
unfoldable pub comment : Token → Scan
comment tok = do
  start ← mark
  move 1
  c ← peek 0
  let multi = c == b'*'
  move 1
  level ← (λ lx. comment_loop (suc (length lx.text)) multi c 1 lx)
  if multi && not (level == 0)
      then failed Problem.unterminated_comment start tok
      else made TokenKind.comment start tok
