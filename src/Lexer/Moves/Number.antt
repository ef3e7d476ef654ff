-- ===== src/Lexer/Moves/Number.antt =====
-- How far the functions for numbers move (src/compiler/common/lexer.c).
use cyntatic.Prelude.{
  ℕ, ◌+◌, ◌≡◌, ◌≢◌, refl, ◌⊎◌, inl, inr, Bool, true, false, List, arith, ◌==◌, ◌&&◌, ◌||◌, not,
  if◌then◌else◌, length, leb,
}
use cyntatic.Token.{TokenKind, Token}
use cyntatic.Lexer.State.{Lexer, Position, Problem, move, char_at, eof_char, eat_while, skip_while}
use cyntatic.Lexer.Escape.{is_digit, is_oct, is_hex, hex_value, between}
use cyntatic.Lexer.Number.{
  upper, converted, integer_of, parse_integer, float_of, float_digits, exponent_digits,
  floating_point, binary_number, hex_number, octal_number, decimal_number, number_literal,
}
use cyntatic.Lexer.Moves.{
  IsTracked, Ahead, After, Moves, After-from, After-if, After-keep, After-less, asserted-After,
  undefined-After,
}
use cyntatic.Lexer.Moves.Cursor.{
  move-Moves, move-on, made-Moves, failed-Moves, eat_while-Moves, skip_while-Moves,
  skip_while-first, skip_while-stays,
}

converted-Moves :
    (p : Problem) (kind : TokenKind) (start : Position) (out complete : Bool) (tok tok' : Token)
    → Moves 0 (converted p kind start out complete tok tok')
unfolding converted
converted-Moves p kind start out complete tok tok' lx t =
    let noted = record lx { erange = lx.erange || out } in
    let s : Ahead 0 lx noted = record { same_text = refl; moved = omega arith; tracked = t } in
    After-from 0 0 _ (omega arith) s (
      After-if _ _ _ _ noted (noted.erange || not complete) (λ e. failed-Moves p start tok noted t)
        (λ e. made-Moves kind start tok' noted t))

integer_of-Moves :
    (tok : Token) (start : Position) (base : ℕ) (s : List ℕ) → Moves 0 (integer_of tok start base s)
unfolding integer_of
integer_of-Moves tok start base s lx t =
    After-if _ _ _ _ lx (leb (length s) 39) (λ h. converted-Moves _ _ start _ _ tok _ lx t)
      (λ h. asserted-After _)

parse_integer-Moves :
    (tok : Token) (start : Position) (base : ℕ) → Moves 0 (parse_integer tok start base)
unfolding parse_integer
parse_integer-Moves tok start base lx t = integer_of-Moves tok start base _ lx t

float_of-Moves : (tok : Token) (start : Position) (s : List ℕ) → Moves 0 (float_of tok start s)
unfolding float_of
float_of-Moves tok start s lx t =
    After-if _ _ _ _ lx (leb (length s) 1083) (λ h. converted-Moves _ _ start _ _ tok _ lx t)
      (λ h. undefined-After _)

float_digits-Moves : (tok : Token) (start : Position) → Moves 0 (float_digits tok start)
unfolding float_digits
float_digits-Moves tok start lx t =
    After-keep 0 _ (eat_while is_digit lx) (eat_while-Moves is_digit lx t)
      (λ x b s. float_of-Moves tok start _ b s.tracked)

exponent_digits-Moves : (tok : Token) (start : Position) → Moves 0 (exponent_digits tok start)
unfolding exponent_digits
exponent_digits-Moves tok start lx t =
    After-if _ _ _ _ lx (is_digit (char_at lx.text lx.idx)) (λ h. float_digits-Moves tok start lx t)
      (λ h. failed-Moves _ start tok lx t)

-- A test of a character that `EOF` fails.
fails_eof : (test : ℕ → Bool) → test eof_char ≡ false → (c : ℕ) → test c ≡ true → c ≢ eof_char
fails_eof test e c h same = absurd (cc)

-- `Lexer_tokFloatingPoint` takes the point or the letter of the exponent.
floating_point-Moves : (tok : Token) (start : Position) → Moves 1 (floating_point tok start)
unfolding floating_point
floating_point-Moves tok start lx t =
    let c = char_at lx.text lx.idx in
    let go : c ≢ eof_char → After lx.text (λ x b. Ahead 1 lx b) (move 1 lx) =
      move-on 1 lx t (omega arith) in
    After-if _ _ _ _ lx (upper c == b'.')
      (λ h.
        After-keep 1 _ (move 1 lx) (go (fails_eof (λ c. upper c == b'.') refl c h))
          (λ x b s. float_digits-Moves tok start b s.tracked))
      (λ h.
        After-if _ _ _ _ lx (upper c == b'E' || upper c == b'P')
          (λ h'.
            let at = fails_eof (λ c. upper c == b'E' || upper c == b'P') refl c h' in
            After-keep 1 _ (move 1 lx) (go at) (λ x b s.
              After-if _ _ _ _ b (char_at b.text b.idx == b'-' || char_at b.text b.idx == b'+')
                (λ e.
                  After-keep 0 _ (move 1 b) (move-Moves 1 b s.tracked)
                    (λ y c s'. exponent_digits-Moves tok start c s'.tracked))
                (λ e. exponent_digits-Moves tok start b s.tracked)))
          (λ h'. asserted-After _))

binary_number-Moves :
    (tok : Token) (lx : Lexer)
    → IsTracked lx
    → char_at lx.text lx.idx ≢ eof_char
    → After lx.text (λ x b. Ahead 1 lx b) (binary_number tok lx)
unfolding binary_number
binary_number-Moves tok lx t at =
    After-keep 1 _ (move 2 lx) (move-on 2 lx t (omega arith) at) (λ x b s.
      After-keep 0 _ (skip_while (between b'0' b'1') b)
        (skip_while-Moves (between b'0' b'1') refl b s.tracked)
        (λ c d s'.
          After-if _ _ _ _ d (is_digit c)
            (λ h.
              After-keep 0 _ (eat_while is_digit d) (eat_while-Moves is_digit d s'.tracked)
                (λ y e s''. failed-Moves _ _ tok e s''.tracked))
            (λ h. parse_integer-Moves tok _ 2 d s'.tracked)))

-- The number that is scanned behind a first move.
float_or_integer-Moves :
    (c : Bool) (tok : Token) (start : Position) (base : ℕ)
    → Moves 0 (if c then floating_point tok start else parse_integer tok start base)
float_or_integer-Moves c tok start base lx t =
    After-if _ _ _ _ lx c
      (λ h. After-less 1 0 lx _ (omega arith) (floating_point-Moves tok start lx t))
      (λ h. parse_integer-Moves tok start base lx t)

not_hex_eof : is_hex eof_char ≡ false
unfolding is_hex hex_value
not_hex_eof = refl

hex_number-Moves :
    (tok : Token) (lx : Lexer)
    → IsTracked lx
    → char_at lx.text lx.idx ≢ eof_char
    → After lx.text (λ x b. Ahead 1 lx b) (hex_number tok lx)
unfolding hex_number
hex_number-Moves tok lx t at =
    After-keep 1 _ (move 2 lx) (move-on 2 lx t (omega arith) at) (λ x b s.
      After-keep 0 _ (skip_while is_hex b) (skip_while-Moves is_hex not_hex_eof b s.tracked)
        (λ c d s'. float_or_integer-Moves (upper c == b'P') tok _ 16 d s'.tracked))

octal_number-Moves :
    (tok : Token) (lx : Lexer)
    → IsTracked lx
    → is_oct (char_at lx.text lx.idx) ≡ true
    → After lx.text (λ x b. Ahead 1 lx b) (octal_number tok lx)
unfolding octal_number
octal_number-Moves tok lx t at =
    After-keep 1 _ (skip_while is_oct lx) (skip_while-first is_oct refl lx t at) (λ c b s.
      After-if _ _ _ _ b (is_digit c)
        (λ h.
          After-keep 0 _ (skip_while is_digit b) (skip_while-Moves is_digit refl b s.tracked)
            (λ d e s'.
              After-if _ _ _ _ e (d == b'.' || (d == b'e' || d == b'E'))
                (λ h'. After-less 1 0 e _ (omega arith) (floating_point-Moves tok _ e s'.tracked))
                (λ h'. failed-Moves _ _ tok e s'.tracked)))
        (λ h. parse_integer-Moves tok _ 8 b s.tracked))

-- At a digit, `Lexer_tokDecimalNumber` takes it; at a point it takes the point.
decimal_number-Moves :
    (tok : Token) (lx : Lexer)
    → IsTracked lx
    → (is_digit (char_at lx.text lx.idx) ≡ true) ⊎ (char_at lx.text lx.idx ≡ b'.')
    → After lx.text (λ x b. Ahead 1 lx b) (decimal_number tok lx)
unfolding decimal_number
decimal_number-Moves tok lx t (inl digit) =
    After-keep 1 _ (skip_while is_digit lx) (skip_while-first is_digit refl lx t digit)
      (λ c b s. float_or_integer-Moves (upper c == b'E' || c == b'.') tok _ 10 b s.tracked)
decimal_number-Moves tok lx t (inr point) =
    let c = char_at lx.text lx.idx in
    let test : (upper c == b'E' || c == b'.') ≡ true = rw point refl in
    let digit : is_digit c ≡ false = rw point refl in
    rw (skip_while-stays is_digit lx digit) (
      After-if _ _ _ _ lx (upper c == b'E' || c == b'.') (λ h. floating_point-Moves tok _ lx t)
        (λ h. absurd (cc)))

-- `Lexer_tokNumber`, at a digit or a point.
pub number_literal-Moves :
    (tok : Token) (lx : Lexer)
    → IsTracked lx
    → (is_digit (char_at lx.text lx.idx) ≡ true) ⊎ (char_at lx.text lx.idx ≡ b'.')
    → After lx.text (λ x b. Ahead 1 lx b) (number_literal tok lx)
unfolding number_literal
number_literal-Moves tok lx t at =
    let c = char_at lx.text lx.idx in
    let cc = upper (char_at lx.text (lx.idx + 1)) in
    let ccc = char_at lx.text (lx.idx + 1 + 1) in
    After-if _ _ _ _ lx (c == b'0')
      (λ zero_first.
        let in_text = fails_eof (λ c. c == b'0') refl c zero_first in
        After-if _ _ _ _ lx (cc == b'X' && is_hex ccc) (λ h. hex_number-Moves tok lx t in_text)
          (λ h.
            After-if _ _ _ _ lx (cc == b'B' && (ccc == b'0' || ccc == b'1'))
              (λ h'. binary_number-Moves tok lx t in_text)
              (λ h'.
                After-if _ _ _ _ lx (cc == b'.' || cc == b'E')
                  (λ h''.
                    After-keep 1 _ (move 1 lx) (move-on 1 lx t (omega arith) in_text) (λ x b s.
                      After-less 1 0 b _ (omega arith) (floating_point-Moves tok _ b s.tracked)))
                  (λ h''. octal_number-Moves tok lx t (ground arith)))))
      (λ other. decimal_number-Moves tok lx t at)
