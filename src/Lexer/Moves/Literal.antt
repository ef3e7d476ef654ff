-- ===== src/Lexer/Moves/Literal.antt =====
-- How far the functions for characters and strings move (src/compiler/common/lexer.c).
use cyntatic.Prelude.{
  ℕ, zero, suc, ◌+◌, ◌-◌, ◌<◌, ◌≡◌, ◌≢◌, refl, sym, ap, ◌∙◌, Bool, true, false, List, [], ◌∷◌, ◌++◌,
  arith, ltb, ◌==◌, ◌&&◌, ◌||◌, not, if◌then◌else◌, length, leb,
}
use mathlib.Core.Path.{subst}
use cyntatic.Source.{Range}
use cyntatic.Utf8.{Rune}
use cyntatic.Token.{TokenKind, Token}
use cyntatic.Lexer.State.{
  Lexer, Position, Problem, pure, move, char_at, eof_char, line_break, eat_while, update_token,
  made,
}
use cyntatic.Lexer.Escape.{escaped_char}
use cyntatic.Lexer.Literal.{
  quote, backslash, find_quote, take_rune, rune_from, wide_char, close_char, char_literal,
  string_escape, string_loop, set_next, open_string, close_string, string_literal, Piece,
}
use cyntatic.Lexer.Moves.{
  IsTracked, Ahead, HasQuote, After, Moves, Ahead-refl, After-from, After-if, After-keep,
  After-less, aborted-After, undefined-After,
}
use cyntatic.Lexer.Moves.Cursor.{
  move-Moves, move-on, made-Moves, failed-Moves, eat_while-Moves, update_token-Moves,
  made_before-Ahead,
}
use cyntatic.Lexer.Moves.Escape.{escaped_char-Moves}

find_quote-Moves :
    (n : ℕ) (lx : Lexer)
    → IsTracked lx
    → HasQuote lx.text
    → After lx.text (λ x b. Ahead 0 lx b) (find_quote n lx)
unfolding find_quote
find_quote-Moves zero lx t q = λ e. q
find_quote-Moves (suc n) lx t q = After-keep 0 _ (move 1 lx) (move-Moves 1 lx t) (λ x b s.
    After-if _ _ _ _ b (char_at b.text b.idx == quote) (λ h. Ahead-refl b s.tracked)
      (λ h. find_quote-Moves n b s.tracked (subst HasQuote (sym s.same_text) q)))

take_rune-Moves : (r : Rune) → Moves 0 (take_rune r)
unfolding take_rune
take_rune-Moves (Rune.rune size chr) lx t = Ahead-refl lx t
take_rune-Moves Rune.invalid lx t = aborted-After _
take_rune-Moves Rune.out_of_text lx t = undefined-After _

rune_from-Moves : (i : ℕ) → Moves 0 (rune_from i)
unfolding rune_from
rune_from-Moves i lx t = take_rune-Moves _ lx t

wide_char-Moves :
    (start : Position) (lx : Lexer)
    → IsTracked lx
    → HasQuote lx.text
    → After lx.text (λ x b. Ahead 0 lx b) (wide_char start lx)
unfolding wide_char
wide_char-Moves start lx t q =
    After-keep 0 _ (find_quote (suc (length lx.text)) lx)
      (find_quote-Moves (suc (length lx.text)) lx t q)
      (λ x b s. rune_from-Moves (start.at + 1) b s.tracked)

close_char-Moves : (tok : Token) (start : Position) (chr : ℕ) → Moves 0 (close_char tok start chr)
unfolding close_char
close_char-Moves tok start chr lx t =
    After-if _ _ _ _ lx (char_at lx.text lx.idx == quote)
      (λ h. made_before-Ahead 0 1 _ start _ lx t (omega arith) (let i = t.1 in omega arith))
      (λ h.
        After-keep 0 _ (eat_while (λ c. not (c == line_break || c == quote)) lx)
          (eat_while-Moves _ lx t)
          (λ x b s.
            After-if _ _ _ _ b (char_at b.text b.idx == quote)
              (λ h'.
                After-keep 0 _ (move 1 b) (move-Moves 1 b s.tracked)
                  (λ y c s'. failed-Moves _ start tok c s'.tracked))
              (λ h'. failed-Moves _ start tok b s.tracked)))

-- `Lexer_tokChar`, at a single quote.
pub char_literal-Moves :
    (tok : Token) (lx : Lexer)
    → IsTracked lx
    → char_at lx.text lx.idx ≡ quote
    → After lx.text (λ x b. Ahead 1 lx b) (char_literal tok lx)
unfolding char_literal
char_literal-Moves tok lx t at =
    let c = char_at lx.text (lx.idx + 1) in
    let in_text : char_at lx.text lx.idx ≢ eof_char = λ e. absurd (cc) in
    After-keep 1 _ (move 2 lx) (move-on 2 lx t (omega arith) in_text) (λ x b s.
      After-keep 0 _ ((if c == backslash then escaped_char false else pure c) b)
        (After-if _ _ _ _ b (c == backslash) (λ h. escaped_char-Moves false b s.tracked)
          (λ h. Ahead-refl b s.tracked))
        (λ chr d s'.
          After-keep 0 _ ((if leb 0x80 chr then wide_char _ else pure chr) d)
            (After-if _ _ _ _ d (leb 0x80 chr)
              (λ h.
                wide_char-Moves _ d s'.tracked
                  (subst HasQuote (sym (s'.same_text ∙ s.same_text)) (lx.idx, at)))
              (λ h. Ahead-refl d s'.tracked))
            (λ wide e s''. close_char-Moves tok _ wide e s''.tracked)))

string_escape-Moves : (cc : ℕ) → Moves 0 (string_escape cc)
unfolding string_escape
string_escape-Moves c lx t =
    After-keep 0 _ (escaped_char true lx) (escaped_char-Moves true lx t) (λ chr b s.
      After-if _ _ _ _ b (c == b'u' || c == b'U') (λ h. undefined-After _)
        (λ h. Ahead-refl b s.tracked))

flag-Ahead : (f : Bool) (lx : Lexer) → IsTracked lx → Ahead 0 lx (record lx { in_str = f })
flag-Ahead f lx t = record { same_text = refl; moved = omega arith; tracked = t }

-- The loop of `Lexer_tokString` ends, within the number of characters left.
string_loop-Moves :
    (n : ℕ) (read : List ℕ) (lx : Lexer)
    → IsTracked lx
    → length lx.text < lx.idx + n
    → After lx.text (λ x b. Ahead 0 lx b) (string_loop n read lx)
unfolding string_loop
string_loop-Moves zero read lx t lt = absurd (let h = t.1 in omega arith)
string_loop-Moves (suc n) read lx t lt =
    let c = char_at lx.text lx.idx in
    After-if _ _ _ _ lx (c == eof_char) (λ h. Ahead-refl lx t)
      (λ not_eof.
        After-if _ _ _ _ lx (c == b'"') (λ h. flag-Ahead false lx t)
          (λ h.
            After-if _ _ _ _ lx (c == line_break) (λ h. Ahead-refl lx t)
              (λ h. After-less 1 0 lx _ (omega arith) (
                After-keep 1 _ (move 1 lx) (move-on 1 lx t (omega arith) (ground arith)) (λ x b s.
                  let lt' : length b.text < b.idx + n =
                    let m = s.moved in let w = ap length s.same_text in omega arith in
                  After-if _ _ _ _ b (b.in_str && (c == b'$' && char_at b.text b.idx == b'{'))
                    (λ h. Ahead-refl b s.tracked)
                    (λ h.
                      After-if _ _ _ _ b (c == backslash)
                        (λ h.
                          After-keep 0 _ (string_escape (char_at b.text b.idx) b)
                            (string_escape-Moves _ b s.tracked)
                            (λ bs d s'.
                              string_loop-Moves n (read ++ bs) d s'.tracked (
                                let m = s'.moved in let w = ap length s'.same_text in omega arith)))
                        (λ h. string_loop-Moves n (read ++ c ∷ []) b s.tracked lt')))))))

set_next-Moves : (start : Position) → Moves 0 (set_next start)
unfolding set_next
set_next-Moves start lx t =
    After-keep 0 _ (update_token lx.next TokenKind.right_str_expr start.at lx.idx start.coord lx)
      (update_token-Moves _ _ _ _ _ lx t)
      (λ r b s. record { same_text = refl; moved = omega arith; tracked = s.tracked })

open_string-Moves : (tok : Token) (start : Position) → Moves 0 (open_string tok start)
unfolding open_string
open_string-Moves tok start lx t =
    After-keep 0 _ (eat_while (λ c. not (c == b'"' || c == line_break)) lx) (eat_while-Moves _ lx t)
      (λ x b s.
        let here : Range = record {
          source = b.source;
          start = start.at;
          end = b.idx;
          coord = start.coord;
        } in
        let told : Lexer = record b {
          problems = (Problem.unterminated_string, here) ∷ b.problems;
        } in
        let c = char_at b.text b.idx in
        let u : Ahead 0 b told = record {
          same_text = refl;
          moved = omega arith;
          tracked = s.tracked;
        } in
        After-from 0 0 _ (omega arith) u (
          After-keep 0 _ ((if c == b'"' then move 1 else pure _) told)
            (After-if _ _ _ _ told (c == b'"') (λ h. move-Moves 1 told s.tracked)
              (λ h. Ahead-refl told s.tracked))
            (λ y e s'. Ahead-refl e s'.tracked)))

close_string-Moves :
    (tok : Token) (start : Position) (in_expr : Bool) (p : Piece)
    → Moves 0 (close_string tok start in_expr p)
unfolding close_string
close_string-Moves tok start in_expr p lx t =
    let end : Bool = in_expr && p.last == b'"' in
    After-keep 0 _ (move 1 lx) (move-Moves 1 lx t) (λ x b s.
      After-if _ _ _ _ b (not in_expr || ltb 1 (b.idx - start.at))
        (λ h. After-keep 0 _ (made _ start _ b) (made-Moves _ start _ b s.tracked) (λ r d s'.
          After-keep 0 _ ((if end then set_next start else pure _) d)
            (After-if _ _ _ _ d end (λ h'. set_next-Moves start d s'.tracked)
              (λ h'. Ahead-refl d s'.tracked))
            (λ y e s''. Ahead-refl e s''.tracked)))
        (λ h.
          After-if _ _ _ _ b end (λ h'. made-Moves _ start tok b s.tracked)
            (λ h'. Ahead-refl b s.tracked)))

-- `Lexer_tokString`.
pub string_literal-Moves : (tok : Token) (start : Position) → Moves 0 (string_literal tok start)
unfolding string_literal
string_literal-Moves tok start lx t =
    After-keep 0 _ (string_loop (suc (length lx.text)) [] lx)
      (string_loop-Moves (suc (length lx.text)) [] lx t (omega arith))
      (λ p b s.
        After-if _ _ _ _ b (not b.in_str && not (p.last == b'"'))
          (λ h. open_string-Moves tok start b s.tracked)
          (λ h. close_string-Moves tok start lx.in_str p b s.tracked))
