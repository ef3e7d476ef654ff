-- ===== src/Lexer/Number.antt =====
-- Numbers (src/compiler/common/lexer.c): `Lexer_tokNumber` and the functions it calls. `strtoull` and
-- `toupper` are those of the "C" locale.
use cyntatic.Prelude.{
  ℕ, ◌+◌, ◌-◌, ◌*◌, Bool, true, false, ◌&&◌, ◌||◌, not, Option, some, none, List, [], ◌∷◌, ltb, leb,
  ◌==◌, if◌then◌else◌, length, drop,
}
use cyntatic.Word.{u64_mod}
use cyntatic.Utf8.{front}
use cyntatic.Token.{TokenKind, TokenValue, Token, set_value, set_float}
use cyntatic.Lexer.State.{
  Lex, Act, Scan, Stop, Problem, Position, halt, peek, move, mark, ok, skip_while, eat_while,
  failed, made, ◌>>=◌, ◌>>◌,
}
use cyntatic.Lexer.Escape.{is_digit, is_oct, is_hex, hex_value, between}

-- `toupper`.
abbrev pub upper : ℕ → ℕ
upper c = if between b'a' b'z' c then c - 32 else c

-- The value of a digit of a base, for the bases 2, 8, 10 and 16.
abbrev pub digit_of : ℕ → ℕ → Option ℕ
digit_of base c = elim (hex_value c) [ none ↦ none | some d ↦ if ltb d base then some d else none ]

-- `strtoull` on text without spaces, sign and prefix: the value of the digits that the text starts
-- with, and whether they are all of the text.
unfoldable pub digits_value : ℕ → List ℕ → ℕ → ℕ × Bool
digits_value base [] n = (n, true)
digits_value base (c ∷ s) n = elim (digit_of base c) [
  | none ↦ (n, false)
  | some d ↦ digits_value base s (n * base + d)
]

-- `errno = ERANGE` where a library function says so; nothing resets it.
abbrev pub note_range : Bool → Act
note_range out = λ lx. ok _ (record lx { erange = lx.erange || out })

abbrev pub range_noted : Lex Bool
range_noted = λ lx. ok lx.erange lx

-- The text from `i` to the present place.
abbrev pub text_from : ℕ → Lex (List ℕ)
text_from i = λ lx. ok (front (lx.idx - i) (drop i lx.text)) lx

-- What follows a conversion in `Lexer_parseInteger` and `Lexer_tokFloatingPoint`: `out` tells that it
-- set `errno`, and `complete` that it read the text to its end.
unfoldable pub converted : Problem → TokenKind → Position → Bool → Bool → Token → Token → Scan
converted problem kind start out complete tok with_value = do
  note_range out
  erange ← range_noted
  if erange || not complete then failed problem start tok else made kind start with_value

-- `Lexer_parseInteger` on the digits `s`.
unfoldable pub integer_of : Token → Position → ℕ → List ℕ → Scan
integer_of tok start base s =
    if leb (length s) 39
    then (let (value, complete) = digits_value base s 0 in
        converted Problem.integer_failed TokenKind.integer start (not (ltb value u64_mod)) complete
          tok (set_value tok (TokenValue.int_value value)))
    else halt Stop.asserted

-- `Lexer_parseInteger`.
unfoldable pub parse_integer : Token → Position → ℕ → Scan
parse_integer tok start base = do
  s ← text_from (if base == 16 || base == 2 then start.at + 2 else start.at)
  integer_of tok start base s

-- The conversion of `Lexer_tokFloatingPoint`, whose buffer holds 1084 characters.
unfoldable pub float_of : Token → Position → List ℕ → Scan
float_of tok start s =
    if leb (length s) 1083
    then (do
      r ← (λ lx. ok (lx.strtod s) lx)
      converted Problem.float_failed TokenKind.float start r.out_of_range r.complete tok
          (set_float tok r.bits))
    else halt Stop.undefined

-- The end of `Lexer_tokFloatingPoint`.
unfoldable pub float_digits : Token → Position → Scan
float_digits tok start = do eat_while is_digit; s ← text_from start.at; float_of tok start s

-- The end of an exponent in `Lexer_tokFloatingPoint`, behind its sign.
unfoldable pub exponent_digits : Token → Position → Scan
exponent_digits tok start = do
  d ← peek 0
  if is_digit d then float_digits tok start else failed Problem.no_exponent start tok

-- `Lexer_tokFloatingPoint`.
unfoldable pub floating_point : Token → Position → Scan
floating_point tok start = do
  c0 ← peek 0
  let c = upper c0
  if c == b'.'
      then (move 1 >> float_digits tok start)
      else if c == b'E' || c == b'P'
      then (do
        move 1
        s ← peek 0
        if s == b'-' || s == b'+'
            then (move 1 >> exponent_digits tok start)
            else exponent_digits tok start)
      else halt Stop.asserted

-- `Lexer_tokBinaryNumber`.
unfoldable pub binary_number : Token → Scan
binary_number tok = do
  start ← mark
  move 2
  c ← skip_while (between b'0' b'1')
  if is_digit c
      then (do from_digit ← mark; eat_while is_digit; failed Problem.binary_digit from_digit tok)
      else parse_integer tok start 2

-- `Lexer_tokHexNumber`.
unfoldable pub hex_number : Token → Scan
hex_number tok = do
  start ← mark
  move 2
  c ← skip_while is_hex
  if upper c == b'P' then floating_point tok start else parse_integer tok start 16

-- `Lexer_tokOctalNumber`.
unfoldable pub octal_number : Token → Scan
octal_number tok = do
  start ← mark
  x ← skip_while is_oct
  if is_digit x
      then (do
        c ← skip_while is_digit
        if c == b'.' || (c == b'e' || c == b'E')
            then floating_point tok start
            else failed Problem.octal_digit start tok)
      else parse_integer tok start 8

-- `Lexer_tokDecimalNumber`.
unfoldable pub decimal_number : Token → Scan
decimal_number tok = do
  start ← mark
  c ← skip_while is_digit
  if upper c == b'E' || c == b'.' then floating_point tok start else parse_integer tok start 10

-- `Lexer_tokNumber`.
unfoldable pub number_literal : Token → Scan
number_literal tok = do
  c ← peek 0
  c1 ← peek 1
  ccc ← peek 2
  let cc = upper c1
  if c == b'0'
      then (if cc == b'X' && is_hex ccc
          then hex_number tok
          else if cc == b'B' && (ccc == b'0' || ccc == b'1')
          then binary_number tok
          else if cc == b'.' || cc == b'E'
          then (do start ← mark; move 1; floating_point tok start)
          else octal_number tok)
      else decimal_number tok
