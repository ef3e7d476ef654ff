-- ===== src/Lexer/Word.antt =====
-- What `Lexer_next` makes of a word behind blanks (src/compiler/common/lexer.c).
use cyntatic.Prelude.{
  ℕ, zero, suc, ◌+◌, ◌-◌, ◌≡◌, refl, sym, ap, ◌∙◌, Bool, true, false, ◌&&◌, ◌||◌, not, List, [],
  ◌∷◌, ◌++◌, none, arith, length, ◌==◌, All, drop, if_false,
}
use cyntatic.Source.{Range, count_lines}
use cyntatic.Token.{TokenKind, Token}
use cyntatic.Lexer.State.{update_pos, Scan, Lexer, ok, char_at}
use cyntatic.Lexer.Keywords.{find_keyword}
use cyntatic.Lexer.Words.{name, is_name, is_letter}
use cyntatic.Lexer.Escape.{is_digit}
use cyntatic.Lexer.Literal.{quote}
use cyntatic.Lexer.Tokenize.{tokenize, operator, long_operator, short_operator, other_token}
use cyntatic.Lexer.Next.{
  next_token, next_fuel, next_once, next_from, space_fuel, space_token, is_space, is_count,
  zero_token,
}
use cyntatic.Lexer.Moves.{IsTracked, origin}
use cyntatic.Lexer.Moves.Cursor.{count_lines-suc}
use cyntatic.Lexer.Name.{
  update_token-range, drop-cons, char_at-drop, placed, name-longest, kind_of, valued,
}

-- The characters that start a name.
abbrev pub starts_name : ℕ → Bool
starts_name c = c == b'_' || is_letter c

no_long : (c c2 c3 : ℕ) → starts_name c ≡ true → long_operator c c2 c3 ≡ none
unfolding long_operator
no_long c c2 c3 h = ground arith

no_short : (c : ℕ) → starts_name c ≡ true → short_operator c ≡ none
unfolding short_operator
no_short c h = ground arith

no_operator : (c c2 c3 : ℕ) → starts_name c ≡ true → operator c c2 c3 ≡ none
unfolding operator
no_operator c c2 c3 h = rw (operator, no_long c c2 c3 h, no_short c h) refl

module _ (c c2 : ℕ) (h : starts_name c ≡ true) where
  no_comment : (c == b'/' && (c2 == b'*' || c2 == b'/')) ≡ false
  no_comment = ground arith

  no_point : (c == b'.' && is_digit c2) ≡ false
  no_point = ground arith

  no_brace : (flag : Bool) → (c == b'}' && flag) ≡ false
  no_brace flag = ground arith

  no_literal : ((c == quote) ≡ false) × ((c == b'"') ≡ false) × (is_digit c ≡ false)
  no_literal = (ground arith, ground arith, ground arith)

-- At the start of a name, `Lexer_tokenize` is `Lexer_tokIdent`, but for a string expression.
tokenize-name :
    (tok : Token) (lx : Lexer)
    → starts_name (char_at lx.text lx.idx) ≡ true
    → (char_at lx.text lx.idx == b'f' && char_at lx.text (lx.idx + 1) == b'"') ≡ false
    → tokenize tok lx ≡ name tok lx
unfolding tokenize other_token
tokenize-name tok lx h no_expr =
    let c = char_at lx.text lx.idx in
    let c2 = char_at lx.text (lx.idx + 1) in
    let c3 = char_at lx.text (lx.idx + 1 + 1) in
    let (q, d, g) = no_literal c c2 h in
    rw
      (
        no_comment c c2 h,
        no_point c c2 h,
        no_brace c c2 h lx.in_str,
        no_operator c c2 c3 h,
        q,
        d,
        no_expr,
        g,
        h,
      )
      refl

-- The loop of `Lexer_next` passes blanks without a line break.
abbrev pub is_blank : ℕ → Bool
is_blank c = is_space c && not (c == 10)

and_false : (b : Bool) → (b && false) ≡ false
and_false true = refl
and_false false = refl

blank_parts : (c : ℕ) → is_blank c ≡ true → (is_space c ≡ true) × ((c == 10) ≡ false)
blank_parts c h = (ground arith, ground arith)

space_token-blank :
    (c : ℕ) (tok : Token) (lx : Lexer)
    → (c == 10) ≡ false
    → space_token c tok lx ≡ ok (tok.kind, tok) lx
unfolding space_token
space_token-blank c tok lx h =
    let test : (is_count tok.kind && c == 10) ≡ false =
      ap (λ b. is_count tok.kind && b) h ∙ and_false (is_count tok.kind) in
    ap (λ (m : Scan). m lx) (if_false _ test)

space_fuel-skips :
    (blanks rest : List ℕ) (n i : ℕ) (tok : Token) (lx : Lexer)
    → drop i lx.text ≡ blanks ++ rest
    → All (λ c. is_blank c ≡ true) blanks
    → is_space (char_at rest 0) ≡ false
    → i + n ≡ length lx.text
    → space_fuel n tok (placed lx i) ≡ ok (tok.kind, tok) (placed lx (i + length blanks))
unfolding space_fuel
space_fuel-skips [] rest zero i tok lx e all ends size =
    let here : i ≡ i + 0 = omega arith in ap (λ j. ok (tok.kind, tok) (placed lx j)) here
space_fuel-skips (c ∷ blanks) rest zero i tok lx e all ends size =
    let (at, more, inside) = drop-cons lx.text i c (blanks ++ rest) e in absurd (omega arith)
space_fuel-skips [] rest (suc n) i tok lx e all ends size =
    let at : char_at lx.text i ≡ char_at rest 0 =
      char_at-drop lx.text i ∙ ap (λ t. char_at t 0) e in
    let here : i ≡ i + 0 = omega arith in
    rw (at, ends) (ap (λ j. ok (tok.kind, tok) (placed lx j)) here)
space_fuel-skips (c ∷ blanks) rest (suc n) i tok lx e (h, all) ends size =
    let (at, more, inside) = drop-cons lx.text i c (blanks ++ rest) e in
    let (space, no_break) = blank_parts c h in
    let next : suc i ≡ i + 1 = omega arith in
    let same : suc i + length blanks ≡ i + suc (length blanks) = omega arith in
    let p : update_pos (count_lines i lx.text origin) c ≡ count_lines (suc i) lx.text origin =
      ap (update_pos (count_lines i lx.text origin)) (sym at)
      ∙ sym (count_lines-suc i lx.text origin inside) in
    rw (at, space, space_token-blank c tok _ no_break, sym next, p)
      (space_fuel-skips blanks rest n (suc i) tok lx more all ends (omega arith)
        ∙ ap (λ j. ok (tok.kind, tok) (placed lx j)) same)

-- The token that `Lexer_next` starts with.
abbrev pub fresh : Lexer → Token
fresh lx = record zero_token {
  kind = TokenKind.count;
  range = record { source = lx.source; start = lx.idx; end = lx.idx; coord = lx.pos };
}

-- The range of a word at a place of the text.
abbrev pub range_at : Lexer → ℕ → List ℕ → Range
range_at lx i word = record {
  source = lx.source;
  start = i;
  end = i + length word;
  coord = count_lines i lx.text origin;
}

abbrev pub word_result : Lexer → ℕ → List ℕ → TokenKind × Token
word_result lx i word = (
  kind_of (find_keyword word),
  record (valued (find_keyword word) (fresh lx)) {
    kind = kind_of (find_keyword word);
    range = range_at lx i word;
  },
)

drop-more : (text xs ys : List ℕ) (i : ℕ) → drop i text ≡ xs ++ ys → drop (i + length xs) text ≡ ys
drop-more text [] ys i e = (let here : i + 0 ≡ i = omega arith in rw here e)
drop-more text (x ∷ xs) ys i e =
    let (at, more, inside) = drop-cons text i x (xs ++ ys) e in
    let next : i + suc (length xs) ≡ suc i + length xs = omega arith in
    rw next (drop-more text xs ys (suc i) more)

start-no_space : (c : ℕ) → starts_name c ≡ true → is_space c ≡ false
start-no_space c h = ground arith

start-is_name : (c : ℕ) → starts_name c ≡ true → is_name c ≡ true
start-is_name c h = ground arith

module _ (lx : Lexer) (blanks : List ℕ) (c : ℕ) (w rest : List ℕ)
    (e : drop lx.idx lx.text ≡ blanks ++ (c ∷ w ++ rest)) (start : starts_name c ≡ true)
    (no_expr : (c == b'f' && char_at (w ++ rest) 0 == b'"') ≡ false)
    (all : All (λ d. is_name d ≡ true) w) (ends : is_name (char_at rest 0) ≡ false) where
  tokenize-word :
      (i : ℕ)
      → i ≡ lx.idx + length blanks
      → tokenize (fresh lx) (placed lx i)
        ≡ ok (word_result lx i (c ∷ w)) (placed lx (i + suc (length w)))
  tokenize-word i at_i =
      let here : drop i lx.text ≡ c ∷ (w ++ rest) =
        ap (λ j. drop j lx.text) at_i ∙ drop-more lx.text blanks (c ∷ (w ++ rest)) lx.idx e in
      let (at, more, inside) = drop-cons lx.text i c (w ++ rest) here in
      let next : i + 1 ≡ suc i = omega arith in
      let second : char_at lx.text (i + 1) ≡ char_at (w ++ rest) 0 =
        char_at-drop lx.text (i + 1)
        ∙ ap (λ j. char_at (drop j lx.text) 0) next
        ∙ ap (λ t. char_at t 0) more in
      let plain : (char_at lx.text i == b'f' && char_at lx.text (i + 1) == b'"') ≡ false =
        ap (λ d. d == b'f' && char_at lx.text (i + 1) == b'"') at
        ∙ ap (λ d. c == b'f' && d == b'"') second
        ∙ no_expr in
      tokenize-name (fresh lx) (placed lx i) (ap starts_name at ∙ start) plain
      ∙ name-longest (fresh lx) (c ∷ w) rest (placed lx i) (omega arith, refl) here
          (start-is_name c start, all) ends

  -- `Lexer_next` on a word behind blanks without a line break, where no token is pending, returns the
  -- keyword that the word is, or an identifier, with the range and the position of the word, and leaves
  -- the lexer behind the word, with the position of that place. The word starts with a letter or an
  -- underscore, is no `f` before a double quote, ends before a character that no name goes on with, and
  -- is no entry `tokCOUNT` of the map of keywords.
  pub next_token-word :
      IsTracked lx
      → lx.next.kind ≡ TokenKind.count
      → All (λ d. is_blank d ≡ true) blanks
      → is_count (kind_of (find_keyword (c ∷ w))) ≡ false
      → next_token lx
        ≡ ok
            (word_result lx (lx.idx + length blanks) (c ∷ w))
            (placed lx (lx.idx + length blanks + suc (length w)))
  unfolding next_token next_fuel next_once next_from
  next_token-word (le, p) pending spaces kind =
      let i : ℕ = lx.idx + length blanks in
      let asked : is_count lx.next.kind ≡ true = ap is_count pending in
      let lx_here : lx ≡ placed lx lx.idx = ap (λ q. record lx { pos = q }) p in
      let first : is_space c ≡ false = start-no_space c start in
      let skipped : space_fuel (length lx.text - lx.idx) (fresh lx) lx
          ≡ ok (TokenKind.count, fresh lx) (placed lx i) =
        ap (space_fuel (length lx.text - lx.idx) (fresh lx)) lx_here
        ∙ space_fuel-skips blanks (c ∷ (w ++ rest)) (length lx.text - lx.idx) lx.idx (fresh lx) lx e
            spaces first (omega arith) in
      let opened =
        update_token-range zero_token TokenKind.count lx.idx lx.idx lx.pos lx (omega arith) in
      rw (opened, asked, skipped, tokenize-word i refl, kind) refl
