-- ===== src/Lexer/Escape.antt =====
-- Escape sequences (src/compiler/common/lexer.c): `Lexer_tokUniversalChar`, `Lexer_tokOctalChar`,
-- `Lexer_tokHexChar`, `Lexer_tokEscapedChar`. `x << k | d` of a digit `d` is a sum.
use cyntatic.Prelude.{
  ℕ, zero, suc, ◌+◌, ◌-◌, ◌*◌, ◌%◌, Bool, true, false, ◌&&◌, ◌||◌, not, Option, some, none, ltb,
  leb, ◌==◌, if◌then◌else◌, length,
}
use cyntatic.Word.{u32_mod}
use cyntatic.Lexer.State.{
  Lex, Stop, Problem, pure, halt, peek, move, mark, report, line_break, ◌>>=◌, ◌>>◌,
}

-- `isucn`.
unfoldable pub is_ucn : ℕ → Bool
is_ucn c =
    not (leb 0xd800 c && leb c 0xdfff) && (leb 0xa0 c || (c == b'$' || (c == b'@' || c == b'`')))

abbrev pub between : ℕ → ℕ → ℕ → Bool
between a b c = leb a c && leb c b

-- `isdigit`.
abbrev pub is_digit : ℕ → Bool
is_digit c = between b'0' b'9' c

-- `isoct`.
abbrev pub is_oct : ℕ → Bool
is_oct c = between b'0' b'7' c

-- The value of a hexadecimal digit.
unfoldable pub hex_value : ℕ → Option ℕ
hex_value c =
    if between b'0' b'9' c
    then some (c - b'0')
    else if between b'a' b'f' c
    then some (c - b'a' + 10)
    else if between b'A' b'F' c
    then some (c - b'A' + 10)
    else none

-- `isxdigit`.
unfoldable pub is_hex : ℕ → Bool
is_hex c = elim (hex_value c) [ some d ↦ true | none ↦ false ]

-- The loop of `Lexer_tokUniversalChar`, `n` digits from the end.
unfoldable pub universal_loop : ℕ → ℕ → Lex ℕ
universal_loop zero r = pure r
universal_loop (suc n) r = do
  c ← peek 1
  elim (hex_value c) [
    | none ↦ halt Stop.aborted
    | some d ↦ (move 1 >> universal_loop n ((r * 16 + d) % u32_mod))
  ]

-- `Lexer_tokUniversalChar`.
unfoldable pub universal_char : ℕ → Lex ℕ
universal_char len = do r ← universal_loop len 0; if is_ucn r then pure r else halt Stop.aborted

-- `Lexer_tokOctalChar`.
unfoldable pub octal_char : ℕ → Lex ℕ
octal_char c0 = do
  let r = c0 - b'0'
  c ← peek 0
  if is_oct c
      then (do
        move 1
        let r1 = r * 8 + (c - b'0')
        c1 ← peek 0
        if is_oct c1 then (move 1 >> pure (r1 * 8 + (c1 - b'0'))) else pure r1)
      else pure r

-- The loop of `Lexer_tokHexChar`, on fuel; `EOF` is no hexadecimal digit.
unfoldable pub hex_loop : ℕ → ℕ → Lex ℕ
hex_loop zero r = halt Stop.endless
hex_loop (suc n) r = do
  c ← peek 0
  elim (hex_value c) [ none ↦ pure r | some d ↦ (move 1 >> hex_loop n ((r * 16 + d) % u32_mod)) ]

-- `Lexer_tokHexChar`.
unfoldable pub hex_char : Lex ℕ
hex_char = do
  c ← peek 0
  if is_hex c then (λ lx. hex_loop (suc (length lx.text)) 0 lx) else halt Stop.aborted

-- A `char` as a `u32`.
abbrev pub widen : ℕ → ℕ
widen c = if ltb c 0x80 then c else c + 0xffff_ff00

-- The switch of `Lexer_tokEscapedChar`: the character that a letter stands for.
unfoldable pub simple_escape : ℕ → Option ℕ
simple_escape c =
    if c == 39 || (c == b'"' || (c == b'?' || (c == 92 || c == b'$')))
    then some c
    else if c == b'n'
    then some 10
    else if c == b'a'
    then some 7
    else if c == b'b'
    then some 8
    else if c == b'f'
    then some 12
    else if c == b'r'
    then some 13
    else if c == b't'
    then some 9
    else if c == b'v'
    then some 11
    else if c == b'e'
    then some 27
    else none

-- `Lexer_tokEscapedChar`.
unfoldable pub escaped_char : Bool → Lex ℕ
escaped_char in_string = do
  start ← mark
  c ← peek 0
  move 1
  if c == line_break && in_string then pure line_break else elim (simple_escape c) [
    | some r ↦ pure r
    | none ↦
        if c == b'x'
        then hex_char
        else if c == b'u'
        then universal_char 4
        else if c == b'U'
        then universal_char 8
        else if is_oct c
        then octal_char c
        else (report Problem.unknown_escape start.at start.at start.coord >> pure (widen c))
  ]
