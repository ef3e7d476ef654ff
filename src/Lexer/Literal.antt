-- ===== src/Lexer/Literal.antt =====
-- Character and string literals (src/compiler/common/lexer.c): `Lexer_tokChar`, `Lexer_tokString`.
use cyntatic.Prelude.{
  ℕ, zero, suc, ◌+◌, ◌-◌, ◌%◌, Bool, true, false, ◌&&◌, ◌||◌, not, List, [], ◌∷◌, ◌++◌, ltb, leb,
  ◌==◌, if◌then◌else◌, length, drop,
}
use cyntatic.Utf8.{Rune, read_rune}
use cyntatic.Token.{TokenKind, TokenValue, Token, set_value}
use cyntatic.Lexer.State.{
  Lex, Act, Scan, Stop, Problem, Position, pure, halt, peek, move, mark, ok, eof_char, line_break,
  eat_while, failed, made, made_before, report, update_token, ◌>>=◌, ◌>>◌,
}
use cyntatic.Lexer.Escape.{escaped_char}

abbrev pub quote : ℕ
quote = 39

abbrev pub backslash : ℕ
backslash = 92

-- The loop of `Lexer_tokChar` that looks for the closing quote, on fuel: it has no test for the end
-- of the text.
unfoldable pub find_quote : ℕ → Act
find_quote zero = halt Stop.endless
find_quote (suc n) = do move 1; c ← peek 0; if c == quote then pure _ else find_quote n

-- How `Lexer_readRune` ends.
unfoldable pub take_rune : Rune → Lex ℕ
take_rune (Rune.rune size chr) = pure chr
take_rune Rune.invalid = halt Stop.aborted
take_rune Rune.out_of_text = halt Stop.undefined

-- `Lexer_readRune` on the text from `s` to the present place.
unfoldable pub rune_from : ℕ → Lex ℕ
rune_from s = λ lx. take_rune (read_rune (drop s lx.text) (lx.idx - s)) lx

-- The part of `Lexer_tokChar` for a character of 0x80 and more.
unfoldable pub wide_char : Position → Lex ℕ
wide_char start = do (λ lx. find_quote (suc (length lx.text)) lx); rune_from (start.at + 1)

-- The end of `Lexer_tokChar`.
unfoldable pub close_char : Token → Position → ℕ → Scan
close_char tok start chr = do
  c ← peek 0
  if c == quote
      then made_before 1 TokenKind.char start (set_value tok (TokenValue.char_value chr))
      else (do
        eat_while (λ c. not (c == line_break || c == quote))
        e ← peek 0
        if e == quote
            then (move 1 >> failed Problem.many_characters start tok)
            else failed Problem.unterminated_character start tok)

-- `Lexer_tokChar`.
unfoldable pub char_literal : Token → Scan
char_literal tok = do
  start ← mark
  c ← peek 1
  move 2
  chr ← (if c == backslash then escaped_char false else pure c)
  wide ← (if leb 0x80 chr then wide_char start else pure chr)
  close_char tok start wide

abbrev pub str_flag : Lex Bool
str_flag = λ lx. ok lx.in_str lx

abbrev pub set_flag : Bool → Act
set_flag b = λ lx. ok _ (record lx { in_str = b })

-- What the loop of `Lexer_tokString` ends with: the bytes read, and the last value of `c`.
pub record Piece : Type 0 where
  pub read : List ℕ
  pub last : ℕ

-- The bytes that the loop puts in the buffer for an escape. `Stream_putUtf8` returns no value, and
-- the loop tests the value of the call.
unfoldable pub string_escape : ℕ → Lex (List ℕ)
string_escape cc = do
  chr ← escaped_char true
  if cc == b'u' || cc == b'U' then halt Stop.undefined else pure (chr % 0x100 ∷ [])

-- The loop of `Lexer_tokString`, on fuel.
unfoldable pub string_loop : ℕ → List ℕ → Lex Piece
string_loop zero read = halt Stop.endless
string_loop (suc n) read = do
  c ← peek 0
  if c == eof_char
      then pure (record { read = read; last = c })
      else if c == b'"'
      then (set_flag false >> pure (record { read = read; last = c }))
      else if c == line_break
      then pure (record { read = read; last = c })
      else (do
        move 1
        cc ← peek 0
        flag ← str_flag
        if flag && (c == b'$' && cc == b'{')
            then pure (record { read = read; last = c })
            else if c == backslash
            then (string_escape cc >>= λ bs. string_loop n (read ++ bs))
            else string_loop n (read ++ c ∷ []))

-- `lX->next` gets the kind of the end of a string expression.
unfoldable pub set_next : Position → Act
set_next start = do
  here ← mark
  old ← (λ lx. ok lx.next lx)
  (kind, tok) ← update_token old TokenKind.right_str_expr start.at here.at start.coord
  λ lx. ok _ (record lx { next = tok })

-- The part of `Lexer_tokString` for a literal that does not end.
unfoldable pub open_string : Token → Position → Scan
open_string tok start = do
  eat_while (λ c. not (c == b'"' || c == line_break))
  here ← mark
  report Problem.unterminated_string start.at here.at start.coord
  c ← peek 0
  if c == b'"' then move 1 else pure _
  pure (TokenKind.count, tok)

-- The part of `Lexer_tokString` for a literal, or a part of a string expression, that ended.
unfoldable pub close_string : Token → Position → Bool → Piece → Scan
close_string tok start in_expr p = do
  move 1
  here ← mark
  if not in_expr || ltb 1 (here.at - start.at)
      then (do
        (kind, made_tok) ←
            made TokenKind.string start (set_value tok (TokenValue.string_value p.read))
        if in_expr && p.last == b'"' then set_next start else pure _
        pure (kind, made_tok))
      else if in_expr && p.last == b'"'
      then made TokenKind.right_str_expr start tok
      else pure (TokenKind.count, tok)

-- `Lexer_tokString`.
unfoldable pub string_literal : Token → Position → Scan
string_literal tok start = do
  in_expr ← str_flag
  p ← (λ lx. string_loop (suc (length lx.text)) [] lx)
  flag ← str_flag
  if not flag && not (p.last == b'"')
      then open_string tok start
      else close_string tok start in_expr p
