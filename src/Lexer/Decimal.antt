-- ===== src/Lexer/Decimal.antt =====
-- Decimal numbers (src/compiler/common/lexer.c): what `Lexer_tokDecimalNumber` makes of digits.
use cyntatic.Prelude.{
  ℕ, suc, ◌+◌, ◌-◌, ◌*◌, ◌≤◌, ◌<◌, ◌≡◌, refl, ap, ◌∙◌, Bool, true, false, ◌&&◌, ◌||◌, not, List, [],
  ◌∷◌, ◌++◌, some, arith, length, ◌==◌, All, drop, length-append, leb, ltb, lt→ltb, if_true,
  if_false,
}
use cyntatic.Word.{u64_mod}
use cyntatic.Utf8.{front}
use cyntatic.Token.{TokenKind, TokenValue, Token}
use cyntatic.Lexer.State.{
  Lexer, Problem, Position, ok, char_at, skip_fuel, skip_while, made, failed,
}
use cyntatic.Lexer.Escape.{is_digit, hex_value}
use cyntatic.Lexer.Number.{
  decimal_number, parse_integer, integer_of, converted, digits_value, digit_of, upper,
}
use cyntatic.Lexer.Moves.{IsTracked}
use cyntatic.Lexer.Name.{
  placed, skip_fuel-takes, drop-length, front-append, le→leb, update_token-range, word_range,
}

-- The number that decimal digits stand for, the first digit the highest.
abbrev pub decimal_from : ℕ → List ℕ → ℕ
decimal_from n [] = n
decimal_from n (c ∷ s) = decimal_from (n * 10 + (c - b'0')) s

abbrev pub decimal : List ℕ → ℕ
decimal s = decimal_from 0 s

-- What ends a decimal number that is no floating point number.
abbrev pub ends_number : ℕ → Bool
ends_number c = not (is_digit c) && (not (upper c == b'E') && not (c == b'.'))

digit_of-ten : (c : ℕ) → is_digit c ≡ true → digit_of 10 c ≡ some (c - b'0')
unfolding hex_value
digit_of-ten c h = ground arith

digits_value-decimal :
    (s : List ℕ) (n : ℕ)
    → All (λ c. is_digit c ≡ true) s
    → digits_value 10 s n ≡ (decimal_from n s, true)
unfolding digits_value
digits_value-decimal [] n all = refl
digits_value-decimal (c ∷ s) n (h, all) =
    rw (digits_value, digit_of-ten c h) (digits_value-decimal s (n * 10 + (c - b'0')) all)

-- The token of the number.
abbrev pub integer_token : Lexer → List ℕ → Token → Token
integer_token lx word tok = record {
  kind = TokenKind.integer;
  value = TokenValue.int_value (decimal word);
  range = word_range lx word;
}

-- The lexer behind digits whose number does not fit: the report, and `errno`.
abbrev pub refused : Lexer → List ℕ → Lexer
refused lx word = record (placed lx (lx.idx + length word)) {
  erange = true;
  problems = (Problem.integer_failed, word_range lx word) ∷ lx.problems;
}

or_false : (b : Bool) → (b || false) ≡ b
or_false true = refl
or_false false = refl

all_false : (a b c : Bool) → (not a && (not b && not c)) ≡ true → (a ≡ false) × ((b || c) ≡ false)
all_false false false false h = (refl, refl)
all_false true b c h = absurd (cc)
all_false false true c h = absurd (cc)
all_false false false true h = absurd (cc)

converted-made :
    (p : Problem) (kind : TokenKind) (start : Position) (tok tok' : Token) (lx : Lexer)
    → lx.erange ≡ false
    → start.at ≤ lx.idx
    → converted p kind start false true tok tok' lx
      ≡ ok
          (
            kind,
            record tok' {
              kind = kind;
              range = record {
                source = lx.source;
                start = start.at;
                end = lx.idx;
                coord = start.coord;
              };
            },
          )
          lx
unfolding converted made
converted-made p kind start tok tok' lx e le =
    let noted : Lexer = record lx { erange = lx.erange || false } in
    let test : (noted.erange || false) ≡ false =
      or_false (lx.erange || false) ∙ or_false lx.erange ∙ e in
    ap (λ f. f noted) (if_false (failed p start tok) test)
    ∙ update_token-range tok' kind start.at lx.idx start.coord noted le
    ∙ ap
        (λ b.
          ok
            (
              kind,
              record tok' {
                kind = kind;
                range = record {
                  source = lx.source;
                  start = start.at;
                  end = lx.idx;
                  coord = start.coord;
                };
              },
            )
            (record lx { erange = b }))
        (or_false lx.erange)

-- What the digits come to, before the test of the number.
settled :
    (tok : Token) (word rest : List ℕ) (lx : Lexer)
    → IsTracked lx
    → drop lx.idx lx.text ≡ word ++ rest
    → All (λ c. is_digit c ≡ true) word
    → ends_number (char_at rest 0) ≡ true
    → length word ≤ 39
    → decimal_number tok lx
      ≡ converted Problem.integer_failed TokenKind.integer
          (record { at = lx.idx; coord = lx.pos })
          (not (ltb (decimal word) u64_mod))
          true
          tok
          (record tok { value = TokenValue.int_value (decimal word) })
          (placed lx (lx.idx + length word))
unfolding decimal_number parse_integer integer_of
settled tok word rest lx (le, p) e all ends short =
    let end : ℕ = lx.idx + length word in
    let here : lx ≡ placed lx lx.idx = ap (λ q. record lx { pos = q }) p in
    let inside : length word < suc (length lx.text) =
      let h = drop-length lx.idx lx.text in
      let h' = ap length e ∙ length-append word rest in omega arith in
    let c : ℕ = char_at rest 0 in
    let (digit, point) = all_false (is_digit c) (upper c == b'E') (c == b'.') ends in
    let taken : skip_while is_digit lx ≡ ok (char_at rest 0) (placed lx end) =
      ap (skip_fuel is_digit (suc (length lx.text))) here
      ∙ skip_fuel-takes is_digit word rest (suc (length lx.text)) lx.idx lx e all digit inside in
    let size : end - lx.idx ≡ length word = omega arith in
    let text : front (end - lx.idx) (drop lx.idx lx.text) ≡ word =
      rw (size, e) (front-append word rest) in
    let number : digits_value 10 word 0 ≡ (decimal word, true) = digits_value-decimal word 0 all in
    let small : leb (length word) 39 ≡ true = le→leb _ _ short in
    rw (taken, point, text, small, number) refl

-- At digits that end before a character which no number goes on with, 39 at most, whose number fits
-- 64 bits, `Lexer_tokDecimalNumber` returns that number, with the range and the position of the digits,
-- where no number before was out of range.
pub decimal_number-digits :
    (tok : Token) (word rest : List ℕ) (lx : Lexer)
    → IsTracked lx
    → drop lx.idx lx.text ≡ word ++ rest
    → All (λ c. is_digit c ≡ true) word
    → ends_number (char_at rest 0) ≡ true
    → length word ≤ 39
    → decimal word < u64_mod
    → lx.erange ≡ false
    → decimal_number tok lx
      ≡ ok (TokenKind.integer, integer_token lx word tok) (placed lx (lx.idx + length word))
decimal_number-digits tok word rest lx t e all ends short fits fresh =
    let fit : not (ltb (decimal word) u64_mod) ≡ false = ap not (lt→ltb _ _ fits) in
    settled tok word rest lx t e all ends short
    ∙ rw fit (
        converted-made Problem.integer_failed TokenKind.integer _ tok _
          (placed lx (lx.idx + length word)) fresh (omega arith))

converted-failed :
    (p : Problem) (kind : TokenKind) (start : Position) (out : Bool) (tok tok' : Token) (lx : Lexer)
    → (lx.erange || out) ≡ true
    → converted p kind start out true tok tok' lx
      ≡ ok
          (TokenKind.count, tok)
          (record lx {
            erange = true;
            problems =
                (
                  p,
                  record {
                    source = lx.source;
                    start = start.at;
                    end = lx.idx;
                    coord = start.coord;
                  },
                )
                ∷ lx.problems;
          })
unfolding converted failed
converted-failed p kind start out tok tok' lx e =
    let noted : Lexer = record lx { erange = lx.erange || out } in
    let test : (noted.erange || false) ≡ true = or_false (lx.erange || out) ∙ e in
    ap (λ f. f noted) (if_true (made kind start tok') test)
    ∙ ap
        (λ b.
          ok (TokenKind.count, tok)
            (record lx {
              erange = b;
              problems =
                  (
                    p,
                    record {
                      source = lx.source;
                      start = start.at;
                      end = lx.idx;
                      coord = start.coord;
                    },
                  )
                  ∷ lx.problems;
            }))
        e

-- At such digits whose number does not fit 64 bits, or behind any number that was out of range,
-- `Lexer_tokDecimalNumber` makes no token: it reports the digits, and from then on every integer is
-- out of range.
pub decimal_number-range :
    (tok : Token) (word rest : List ℕ) (lx : Lexer)
    → IsTracked lx
    → drop lx.idx lx.text ≡ word ++ rest
    → All (λ c. is_digit c ≡ true) word
    → ends_number (char_at rest 0) ≡ true
    → length word ≤ 39
    → (lx.erange || not (ltb (decimal word) u64_mod)) ≡ true
    → decimal_number tok lx ≡ ok (TokenKind.count, tok) (refused lx word)
decimal_number-range tok word rest lx t e all ends short out =
    settled tok word rest lx t e all ends short
    ∙ converted-failed Problem.integer_failed TokenKind.integer _ _ tok _
        (placed lx (lx.idx + length word)) out
