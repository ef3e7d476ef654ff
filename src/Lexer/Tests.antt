-- ===== src/Lexer/Tests.antt =====
-- Runs of the lexer on small texts, and its theorems applied.
use cyntatic.Prelude.{
  ℕ, zero, List, [], ◌∷◌, suc, All, arith, ◌==◌, ne_of_==, ◌≡◌, ◌≢◌, refl, Bool, true, false,
}
use cyntatic.Source.{range_update, count_lines}
use cyntatic.Utf8.{front}
use cyntatic.Token.{TokenKind, Token}
use cyntatic.Lexer.State.{
  Lexer, ok, stop, Stop, Conversion, update_pos, pos_from, advance, skip_fuel, update_token, made,
  made_before, char_at,
}
use cyntatic.Lexer.Keywords.{find_keyword}
use cyntatic.Lexer.Escape.{simple_escape, escaped_char, hex_value, is_hex, is_digit}
use cyntatic.Lexer.Number.{
  number_literal, decimal_number, hex_number, parse_integer, integer_of, converted, digits_value,
}
use cyntatic.Lexer.Literal.{
  string_literal, string_loop, string_escape, close_string, char_literal, close_char,
}
use cyntatic.Lexer.Words.{name, name_token, keyword_value}
use cyntatic.Lexer.Tokenize.{
  operator, long_operator, short_operator, op_token, other_token, tokenize,
}
use cyntatic.Lexer.Next.{
  init, reset, next_token, next_fuel, next_once, next_from, space_fuel, space_token, zero_token,
}
use cyntatic.Lexer.Moves.{IsTracked, origin}
use cyntatic.Lexer.Reached.{start, call, Reached-IsTracked, next_token-ends, char_literal-endless}
use cyntatic.Lexer.Name.{name-longest, kind_of, valued, word_range, placed}
use cyntatic.Lexer.Word.{next_token-word, word_result}
use cyntatic.Lexer.Decimal.{decimal_number-digits, decimal_number-range, integer_token, refused}

abbrev no_float : List ℕ → Conversion
no_float s = record { bits = 0; complete = true; out_of_range = false }

abbrev kinds_from : ℕ → Lexer → List TokenKind
unfolding next_token next_fuel next_once next_from space_fuel space_token update_token range_update
    tokenize operator long_operator short_operator op_token other_token advance pos_from update_pos
    made made_before name name_token keyword_value find_keyword skip_fuel number_literal
    decimal_number hex_number parse_integer integer_of converted digits_value is_hex hex_value
    string_literal string_loop string_escape escaped_char simple_escape close_string char_literal
    close_char front
kinds_from zero lx = []
kinds_from (suc n) lx = elim (next_token lx) [
  | stop s ↦ []
  | ok (TokenKind.eof, tok) lx' ↦ TokenKind.eof ∷ []
  | ok (kind, tok) lx' ↦ kind ∷ kinds_from n lx'
]

-- The lexer at the start of a text.
abbrev blank : List ℕ → Lexer
blank text = record {
  text = text;
  source = 1;
  next = record zero_token { kind = TokenKind.count };
  idx = 0;
  pos = origin;
  in_str = false;
  erange = false;
  problems = [];
  strtod = no_float;
}

-- `if x1+=0xff`, a line break, `"a\n"'c'`.
abbrev small : Lexer
small = blank (
    b'i' ∷ b'f' ∷ 32 ∷ b'x' ∷ b'1' ∷ b'+' ∷ b'=' ∷ b'0' ∷ b'x' ∷ b'f' ∷ b'f' ∷ 10 ∷ b'"' ∷ b'a' ∷ 92
    ∷ b'n' ∷ b'"' ∷ 39 ∷ b'c' ∷ 39 ∷ [])

small_kinds :
    kinds_from 20 small
    ≡ TokenKind.if_kw ∷ TokenKind.identifier ∷ TokenKind.plus_assign ∷ TokenKind.integer
      ∷ TokenKind.new_line ∷ TokenKind.string ∷ TokenKind.char ∷ TokenKind.eof ∷ []
unfolding kinds_from
small_kinds = refl

-- `if 12`
abbrev words : List ℕ
words = b'i' ∷ b'f' ∷ 32 ∷ b'1' ∷ b'2' ∷ []

abbrev at_words : Lexer
at_words = blank words

abbrev if_word : List ℕ
if_word = b'i' ∷ b'f' ∷ []

abbrev if_token : Token
if_token = record zero_token { kind = TokenKind.if_kw; range = word_range at_words if_word }

first_call : next_token at_words ≡ ok (TokenKind.if_kw, if_token) (placed at_words 2)
unfolding next_token next_fuel next_once next_from space_fuel space_token update_token range_update
    tokenize operator long_operator short_operator op_token other_token advance pos_from update_pos
    made name name_token keyword_value find_keyword skip_fuel front count_lines
first_call = refl

Reached-IsTracked_example : ((placed at_words 2).text ≡ words) × IsTracked (placed at_words 2)
unfolding init reset
Reached-IsTracked_example =
    Reached-IsTracked {source = 1} {text = words} {strtod = no_float} {erange = false}
      (call at_words (placed at_words 2) (TokenKind.if_kw, if_token) start first_call)

at_words-IsTracked : IsTracked at_words
unfolding count_lines
at_words-IsTracked = (omega arith, refl)

fails_at :
    (test : ℕ → Bool) (text : List ℕ)
    → All (λ c. test c ≡ false) text
    → test 255 ≡ false
    → (i : ℕ) → test (char_at text i) ≡ false
fails_at test [] all e i = e
fails_at test (c ∷ text) (h, all) e zero = h
fails_at test (c ∷ text) (h, all) e (suc i) = fails_at test text all e i

no_quote : (i : ℕ) → char_at words i ≢ 39
no_quote i =
    ne_of_== _ 39 (fails_at (λ c. c == 39) words (refl, (refl, (refl, (refl, (refl, _))))) refl i)

next_token-ends_example : next_token at_words ≢ stop Stop.endless
next_token-ends_example = next_token-ends at_words at_words-IsTracked no_quote

char_literal-endless_example : char_literal zero_token (blank (39 ∷ [])) ≡ stop Stop.endless
char_literal-endless_example = char_literal-endless zero_token (blank (39 ∷ [])) (omega arith)

name-longest_example :
    name zero_token at_words
    ≡ ok
        (
          kind_of (find_keyword if_word),
          record (valued (find_keyword if_word) zero_token) {
            kind = kind_of (find_keyword if_word);
            range = word_range at_words if_word;
          },
        )
        (placed at_words 2)
name-longest_example =
    name-longest zero_token if_word (32 ∷ b'1' ∷ b'2' ∷ []) at_words at_words-IsTracked refl
      (refl, (refl, _)) refl

abbrev at_number : Lexer
at_number = placed at_words 3

at_number-IsTracked : IsTracked at_number
at_number-IsTracked = (omega arith, refl)

decimal_number-digits_example :
    decimal_number zero_token at_number
    ≡ ok
        (TokenKind.integer, integer_token at_number (b'1' ∷ b'2' ∷ []) zero_token)
        (placed at_words 5)
decimal_number-digits_example =
    decimal_number-digits zero_token (b'1' ∷ b'2' ∷ []) [] at_number at_number-IsTracked refl
      (refl, (refl, _)) refl (omega arith) (omega arith) refl

-- The least number that 64 bits do not hold.
abbrev too_large : List ℕ
too_large =
    b'1' ∷ b'8' ∷ b'4' ∷ b'4' ∷ b'6' ∷ b'7' ∷ b'4' ∷ b'4' ∷ b'0' ∷ b'7' ∷ b'3' ∷ b'7' ∷ b'0' ∷ b'9'
    ∷ b'5' ∷ b'5' ∷ b'1' ∷ b'6' ∷ b'1' ∷ b'6' ∷ []

at_large-IsTracked : IsTracked (blank too_large)
unfolding count_lines
at_large-IsTracked = (omega arith, refl)

too_large-digits : All (λ c. is_digit c ≡ true) too_large
too_large-digits = (
  refl,
  (
    refl,
    (
      refl,
      (
        refl,
        (
          refl,
          (
            refl,
            (
              refl,
              (
                refl,
                (
                  refl,
                  (
                    refl,
                    (
                      refl,
                      (refl, (refl, (refl, (refl, (refl, (refl, (refl, (refl, (refl, _))))))))),
                    ),
                  ),
                ),
              ),
            ),
          ),
        ),
      ),
    ),
  ),
)

decimal_number-range_example :
    decimal_number zero_token (blank too_large)
    ≡ ok (TokenKind.count, zero_token) (refused (blank too_large) too_large)
decimal_number-range_example =
    decimal_number-range zero_token too_large [] (blank too_large) at_large-IsTracked refl
      too_large-digits refl (omega arith) refl

abbrev spaced : Lexer
spaced = blank (32 ∷ words)

spaced-IsTracked : IsTracked spaced
unfolding count_lines
spaced-IsTracked = (omega arith, refl)

next_token-word_example : next_token spaced ≡ ok (word_result spaced 1 if_word) (placed spaced 3)
unfolding find_keyword
next_token-word_example =
    next_token-word spaced (32 ∷ []) b'i' (b'f' ∷ []) (32 ∷ b'1' ∷ b'2' ∷ []) refl refl refl
      (refl, _) refl spaced-IsTracked refl (refl, _) refl
