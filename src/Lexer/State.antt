-- ===== src/Lexer/State.antt =====
-- The state of the lexer (`Lexer` of include/compiler/common/lexer.h), how a call of it ends, and the
-- functions that move through the text (src/compiler/common/lexer.c). A character is a byte, and
-- `EOF` is the byte 255, as for a `char`.
use cyntatic.Prelude.{
  ℕ, zero, suc, ◌+◌, ◌-◌, Bool, some, none, List, ◌∷◌, ◌==◌, if◌then◌else◌, length, get_elem?,
}
use cyntatic.Word.{add32}
use cyntatic.Source.{LineColumn, Range, range_update, min_of}
use cyntatic.Token.{TokenKind, Token}

-- What the lexer reports and goes on after.
pub data Problem : Type 0 where
  unexpected_character unknown_escape many_characters unterminated_character : Problem
  unterminated_string binary_digit octal_digit integer_failed no_exponent float_failed : Problem
  unterminated_comment : Problem

-- What `strtod` makes of a text: the bits of the number, whether it read all of the text, and
-- whether it set `errno` to `ERANGE`.
pub record Conversion : Type 0 where
  pub bits : ℕ
  pub complete : Bool
  pub out_of_range : Bool

-- `Lexer`: `text` and `source` are the source, `next` has the kind `count` where no token is pending,
-- `in_str` is the flag `lxfInStrExpr`, `erange` tells whether `errno` is `ERANGE`, and `problems` is
-- what was given to the log, the last first. `strtod` is the library's.
pub record Lexer : Type 0 where
  pub text : List ℕ
  pub source : ℕ
  pub next : Token
  pub idx : ℕ
  pub pos : LineColumn
  pub in_str : Bool
  pub erange : Bool
  pub problems : List (Problem × Range)
  pub strtod : List ℕ → Conversion

-- How a call ends without a result: in `Lexer_abort`, in a failed assertion, in behaviour that C
-- leaves undefined, or in a loop that the fuel does not end.
pub data Stop : Type 0 where
  aborted asserted undefined endless : Stop

pub data Result {ℓ} (A : Type ℓ) : Type ℓ where
  ok : A → Lexer → Result A
  stop : Stop → Result A

abbrev pub Lex {ℓ} : Type ℓ → Type ℓ
Lex A = Lexer → Result A

abbrev pub bind {ℓ κ} : {A : Type ℓ} {B : Type κ} → Result A → (A → Lex B) → Result B
bind (ok a lx) f = f a lx
bind (stop s) f = stop s

-- A call without a result.
abbrev pub Act : Type 0
Act = Lex {0} Unit

infixl 5 ◌>>=◌
abbrev pub ◌>>=◌ {ℓ κ} : {A : Type ℓ} {B : Type κ} → Lex A → (A → Lex B) → Lex B
m >>= f = λ lx. bind (m lx) f

infixl 5 ◌>>◌
abbrev pub ◌>>◌ {ℓ κ} : {A : Type ℓ} {B : Type κ} → Lex A → Lex B → Lex B
m >> n = m >>= λ a. n

abbrev pub pure {ℓ} : {A : Type ℓ} → A → Lex A
pure a = λ lx. ok a lx

abbrev pub halt {ℓ} : {A : Type ℓ} → Stop → Lex A
halt s = λ lx. stop s

abbrev pub eof_char : ℕ
eof_char = 255

abbrev pub line_break : ℕ
line_break = 10

-- The character at a place of the text, `EOF` behind it.
abbrev pub char_at : List ℕ → ℕ → ℕ
char_at text i = elim (get_elem? text i) [ some c ↦ c | none ↦ eof_char ]

-- `Lexer_updatePos`.
unfoldable pub update_pos : LineColumn → ℕ → LineColumn
update_pos p c =
    if c == line_break
    then record { line = add32 p.line 1; column = 0 }
    else record p { column = add32 p.column 1 }

-- The loop of `Lexer_advance`, over the characters from `i` on.
unfoldable pub pos_from : List ℕ → ℕ → ℕ → LineColumn → LineColumn
pos_from text i zero p = p
pos_from text i (suc n) p = pos_from text (i + 1) n (update_pos p (char_at text i))

-- The character that `n` others part from the place `i`.
abbrev pub char_behind : List ℕ → ℕ → ℕ → ℕ
char_behind text i zero = char_at text i
char_behind text i (suc n) = char_behind text (i + 1) n

-- `Lexer_peek`; the text is shorter than `2 ^ 32 - 3`.
abbrev pub peek : ℕ → Lex ℕ
peek n = λ lx. ok (char_behind lx.text lx.idx n) lx

-- `Lexer_advance`, which returns the index before the move.
unfoldable pub advance : ℕ → Lex ℕ
advance n lx =
    let end = min_of (length lx.text) (lx.idx + n) in
    ok lx.idx (record lx { idx = end; pos = pos_from lx.text lx.idx (end - lx.idx) lx.pos })

-- `advance(lX, n);`
abbrev pub move : ℕ → Act
move n = advance n >>= λ i. pure _

-- The loops `while (test(c)) { advance; c = peek; }` of the numbers and of `Lexer_tokIdent`, on fuel;
-- they end with the first character that fails the test.
unfoldable pub skip_fuel : (ℕ → Bool) → ℕ → Lex ℕ
skip_fuel test zero = halt Stop.endless
skip_fuel test (suc n) = do c ← peek 0; if test c then (move 1 >> skip_fuel test n) else pure c

-- Every round but the last takes a character of the text.
abbrev pub skip_while : (ℕ → Bool) → Lex ℕ
skip_while test = λ lx. skip_fuel test (suc (length lx.text)) lx

-- `Lexer_updatePos(lX, src[lX->idx])`.
abbrev pub pass_char : ℕ → Act
pass_char c = λ lx. ok _ (record lx { pos = update_pos lx.pos c })

-- `++lX->idx`.
abbrev pub next_idx : Act
next_idx = λ lx. ok _ (record lx { idx = lx.idx + 1 })

-- The loops of `Lexer_eatWhile`, `Lexer_eatUntilAnyOf_` and `Lexer_next`: `while (idx < max &&
-- test(src[idx]))`, with the move through one character, `n` the number of characters left.
unfoldable pub eat_fuel : (ℕ → Bool) → ℕ → Act
eat_fuel test zero = pure _
eat_fuel test (suc n) = do
  c ← peek 0
  if test c then (pass_char c >> (next_idx >> eat_fuel test n)) else pure _

-- `Lexer_eatWhile`.
abbrev pub eat_while : (ℕ → Bool) → Act
eat_while test = λ lx. eat_fuel test (length lx.text - lx.idx) lx

-- `Position` and `Lexer_mark`.
pub record Position : Type 0 where
  pub at : ℕ
  pub coord : LineColumn

abbrev pub mark : Lex Position
mark = λ lx. ok (record { at = lx.idx; coord = lx.pos }) lx

-- What a function that scans a token returns: the kind, with the token that `out` is left with.
abbrev pub Scan : Type 0
Scan = Lex (TokenKind × Token)

-- `Lexer_updateToken`.
unfoldable pub update_token : Token → TokenKind → ℕ → ℕ → LineColumn → Scan
update_token tok kind s e pos lx = elim (range_update lx.source s e pos) [
  | none ↦ stop Stop.asserted
  | some r ↦ ok (kind, record tok { kind = kind; range = r }) lx
]

-- `Log_error` and `Log_warn` on the range from `s` to `e`.
abbrev pub report : Problem → ℕ → ℕ → LineColumn → Act
report p s e pos = λ lx. ok _ (record lx {
  problems = (p, record { source = lx.source; start = s; end = e; coord = pos }) ∷ lx.problems;
})

-- `mkRange(start->idx, lX->idx, start->coord)` in a report, and the `tokCOUNT` behind it.
unfoldable pub failed : Problem → Position → Token → Scan
failed p start tok = do
  here ← mark
  report p start.at here.at start.coord
  pure (TokenKind.count, tok)

-- The token from `start` to the present place.
unfoldable pub made : TokenKind → Position → Token → Scan
made kind start tok = do here ← mark; update_token tok kind start.at here.at start.coord

-- `Lexer_updateToken(lX, out, kind, start, Lexer_advance(lX, n), pos)`: the end of the range is the
-- place before the move.
unfoldable pub made_before : ℕ → TokenKind → Position → Token → Scan
made_before n kind start tok = do end ← advance n; update_token tok kind start.at end start.coord
