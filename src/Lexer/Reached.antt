-- ===== src/Lexer/Reached.antt =====
-- The states that `Lexer_init` and calls of `Lexer_next` lead to (src/compiler/common/lexer.c), and
-- how the calls end.
use cyntatic.Prelude.{
  ℕ, zero, suc, ◌+◌, ◌-◌, ◌≤◌, ◌≡◌, ◌≢◌, refl, ◌∙◌, Bool, false, List, arith, length, ◌==◌,
  if◌then◌else◌, [], ◌∷◌,
}
use mathlib.Core.Path.{subst}
use cyntatic.Source.{min_of, count_lines}
use cyntatic.Token.{TokenKind, Token}
use cyntatic.Lexer.State.{
  Lexer, Stop, Conversion, ok, stop, char_at, eof_char, Lex, pos_from, advance,
}
use cyntatic.Lexer.Literal.{find_quote, quote, char_literal, wide_char}
use cyntatic.Lexer.Next.{next_token, init, reset}
use cyntatic.Lexer.Moves.{IsTracked, Ahead, After}
use cyntatic.Lexer.Moves.Next.{next_token-Moves}

-- A state of the lexer on a text: the one that `Lexer_init` makes, or one behind a call of
-- `Lexer_next` that returned.
pub data Reached (source : ℕ) (text : List ℕ) (strtod : List ℕ → Conversion) (erange : Bool)
    : Lexer → Type 0 where
  start : Reached source text strtod erange (init source text strtod erange)
  call :
      (lx lx' : Lexer) (r : TokenKind × Token)
      → Reached source text strtod erange lx
      → next_token lx ≡ ok r lx'
      → Reached source text strtod erange lx'

-- A call that returns went forward.
next_token-Ahead :
    (lx lx' : Lexer) (r : TokenKind × Token)
    → IsTracked lx
    → next_token lx ≡ ok r lx'
    → Ahead 0 lx lx'
next_token-Ahead lx lx' r t e =
    subst (After lx.text (λ x b. Ahead 0 lx b)) e (next_token-Moves lx t)

-- In every state that the lexer reaches on a text it stands in that text, and its line and column are
-- those that counting the line breaks up to its place gives.
pub Reached-IsTracked :
    {source : ℕ} {text : List ℕ} {strtod : List ℕ → Conversion} {erange : Bool} {lx : Lexer}
    → Reached source text strtod erange lx
    → (lx.text ≡ text) × IsTracked lx
unfolding init reset count_lines
Reached-IsTracked start = (refl, (omega arith, refl))
Reached-IsTracked (call lx lx' r before e) =
    let (same, t) = Reached-IsTracked before in
    let s = next_token-Ahead lx lx' r t e in (s.same_text ∙ same, s.tracked)

-- `Lexer_next` ends in every state that keeps track, where the text has no single quote: it returns a
-- token or stops with an error, within as many calls of itself and rounds of its loops as the text
-- has characters.
pub next_token-ends :
    (lx : Lexer)
    → IsTracked lx
    → ((i : ℕ) → char_at lx.text i ≢ quote)
    → next_token lx ≢ stop Stop.endless
next_token-ends lx t no_quote e =
    let h = subst (After lx.text (λ x b. Ahead 0 lx b)) e (next_token-Moves lx t) in
    let (i, at) = h refl in no_quote i at

char_at-outside : (text : List ℕ) (i : ℕ) → length text ≤ i → char_at text i ≡ eof_char
char_at-outside [] i le = refl
char_at-outside (c ∷ text) zero le = absurd (omega arith)
char_at-outside (c ∷ text) (suc i) le = char_at-outside text i (omega arith)

-- The branch that a failed test leaves.
if_false_at {ℓ} :
    {A : Type ℓ} {c : Bool} (m n : Lex A) (lx : Lexer) → c ≡ false → (if c then m else n) lx ≡ n lx
if_false_at m n lx h = rw h refl

-- The search of `Lexer_tokChar` for the closing quote does not end from the end of the text on, for
-- any number of rounds.
pub find_quote-endless :
    (n : ℕ) (lx : Lexer) → length lx.text ≤ lx.idx → find_quote n lx ≡ stop Stop.endless
unfolding find_quote advance
find_quote-endless zero lx le = refl
find_quote-endless (suc n) lx le =
    let end = min_of (length lx.text) (lx.idx + 1) in
    let far : length lx.text ≤ end = ground arith in
    let at : (char_at lx.text end == quote) ≡ false = rw (char_at-outside lx.text end far) refl in
    if_false_at _ _ _ at ∙ find_quote-endless n _ far

-- `Lexer_tokChar` does not end at a single quote that is the last character of the text.
pub char_literal-endless :
    (tok : Token) (lx : Lexer)
    → suc lx.idx ≡ length lx.text
    → char_literal tok lx ≡ stop Stop.endless
unfolding char_literal wide_char advance
char_literal-endless tok lx last =
    let c : char_at lx.text (lx.idx + 1) ≡ eof_char =
      char_at-outside lx.text (lx.idx + 1) (omega arith) in
    let far : length lx.text ≤ min_of (length lx.text) (lx.idx + 2) = ground arith in
    let end : ℕ = min_of (length lx.text) (lx.idx + 2) in
    let moved : Lexer = record lx {
      idx = end;
      pos = pos_from lx.text lx.idx (end - lx.idx) lx.pos;
    } in
    rw c (rw (find_quote-endless (suc (length lx.text)) moved far) refl)
