-- ===== src/Lexer/Moves/Scan.antt =====
-- How far the functions for names, comments and operators move, and `Lexer_tokenize`
-- (src/compiler/common/lexer.c).
use cyntatic.Prelude.{
  ℕ, zero, suc, ◌+◌, ◌-◌, ◌≤◌, ◌<◌, ◌≡◌, ◌≢◌, ◌⊎◌, refl, ap, inl, inr, Bool, true, Option, some,
  none, arith, ◌==◌, ◌&&◌, ◌||◌, not, length, eq_of_==, Bool-cases,
}
use cyntatic.Token.{TokenKind, Token}
use cyntatic.Lexer.State.{
  Lexer, Lex, Result, Position, ok, stop, advance, move, char_at, eof_char, line_break, skip_while,
}
use cyntatic.Lexer.Escape.{is_digit}
use cyntatic.Lexer.Literal.{quote}
use cyntatic.Lexer.Words.{
  is_letter, is_name, name_token, name, comment_round, comment_loop, comment,
}
use cyntatic.Lexer.Tokenize.{
  Op, operator, long_operator, short_operator, op_token, other_token, tokenize,
}
use cyntatic.Lexer.Moves.{
  IsTracked, Ahead, After, Moves, Ahead-refl, After-from, After-if, After-keep, After-less,
  After-option,
}
use cyntatic.Lexer.Moves.Cursor.{
  move-Moves, move-on, made-Moves, failed-Moves, skip_while-first, made_before-Ahead,
  char_at-inside, advance-Ahead,
}
use cyntatic.Lexer.Moves.Number.{number_literal-Moves}
use cyntatic.Lexer.Moves.Literal.{char_literal-Moves, string_literal-Moves}

name_token-Moves :
    (tok : Token) (start : Position) (k : Option TokenKind) → Moves 0 (name_token tok start k)
unfolding name_token
name_token-Moves tok start none lx t = made-Moves _ start _ lx t
name_token-Moves tok start (some k) lx t = made-Moves k start _ lx t

-- `Lexer_tokIdent`, at a letter or an underscore.
name-Moves :
    (tok : Token) (lx : Lexer)
    → IsTracked lx
    → is_name (char_at lx.text lx.idx) ≡ true
    → After lx.text (λ x b. Ahead 1 lx b) (name tok lx)
unfolding name
name-Moves tok lx t at =
    After-keep 1 _ (skip_while is_name lx) (skip_while-first is_name refl lx t at)
      (λ c b s. name_token-Moves tok _ _ b s.tracked)

-- What the loop of `Lexer_tokComment` has left: more rounds than characters, or the one that ends at
-- `EOF`.
abbrev Left : ℕ → ℕ → Lexer → Type 0
Left n c lx = (suc (length lx.text) < lx.idx + n) ⊎ ((c ≡ eof_char) × (1 ≤ n))

Left-Ahead : (n c : ℕ) {a b : Lexer} → Ahead 0 a b → Left n c a → Left n c b
Left-Ahead n c s (inl lt) = inl (let m = s.moved in let w = ap length s.same_text in omega arith)
Left-Ahead n c s (inr h) = inr h

comment_round-Moves :
    (n : ℕ) (multi : Bool) (c level : ℕ) (rest : ℕ → Lex ℕ)
    → ((l : ℕ) (b : Lexer)
        → IsTracked b
        → Left n c b
        → After b.text (λ x d. Ahead 0 b d) (rest l b))
    → (lx : Lexer) → IsTracked lx
    → Left n c lx
    → After lx.text (λ x b. Ahead 0 lx b) (comment_round multi c level rest lx)
unfolding comment_round
comment_round-Moves n multi c level rest more lx t left =
    let cc = char_at lx.text lx.idx in
    After-if _ _ _ _ lx (c == line_break && not multi) (λ h. Ahead-refl lx t)
      (λ h.
        After-if _ _ _ _ lx (c == b'*' && cc == b'/')
          (λ h'. After-keep 0 _ (move 1 lx) (move-Moves 1 lx t) (λ x b s.
            After-if _ _ _ _ b (level == 1) (λ h''. Ahead-refl b s.tracked)
              (λ h''. more (level - 1) b s.tracked (Left-Ahead n c s left))))
          (λ h'. more _ lx t left))

-- The loop ends: a round takes a character, or it reads `EOF` and the next one ends the loop.
comment_loop-Moves :
    (n : ℕ) (multi : Bool) (c level : ℕ) (lx : Lexer)
    → IsTracked lx
    → Left n c lx
    → After lx.text (λ x b. Ahead 0 lx b) (comment_loop n multi c level lx)
unfolding comment_loop
comment_loop-Moves zero multi c0 level lx t (inl lt) = absurd (let h = t.1 in omega arith)
comment_loop-Moves zero multi c0 level lx t (inr (e, le)) = absurd (omega arith)
comment_loop-Moves (suc n) multi c0 level lx t (inr (e, le)) =
    After-if _ _ _ _ lx (c0 == eof_char) (λ h'. Ahead-refl lx t) (λ h'. absurd (ground arith))
comment_loop-Moves (suc n) multi c0 level lx t (inl lt) =
    let c = char_at lx.text lx.idx in
    let i = t.1 in
    After-if _ _ _ _ lx (c0 == eof_char) (λ h. Ahead-refl lx t)
      (λ h. elim (Bool-cases (c == eof_char)) [
        | inl at_end ↦ After-keep 0 _ (move 1 lx) (move-Moves 1 lx t) (λ x b s.
            comment_round-Moves n multi c level _ (comment_loop-Moves n multi c) b s.tracked
              (inr (ground arith, omega arith)))
        | inr inside ↦ After-less 1 0 lx _ (omega arith) (
            After-keep 1 _ (move 1 lx) (move-on 1 lx t (omega arith) (ground arith)) (λ x b s.
              comment_round-Moves n multi c level _ (comment_loop-Moves n multi c) b s.tracked
                (inl (let m = s.moved in let w = ap length s.same_text in omega arith))))
      ])

-- `Lexer_tokComment`, inside the text.
comment-Moves :
    (tok : Token) (lx : Lexer)
    → IsTracked lx
    → char_at lx.text lx.idx ≢ eof_char
    → After lx.text (λ x b. Ahead 1 lx b) (comment tok lx)
unfolding comment
comment-Moves tok lx t at = After-keep 1 _ (move 1 lx) (move-on 1 lx t (omega arith) at) (λ x b s.
    let multi = char_at b.text b.idx == b'*' in
    After-keep 0 _ (move 1 b) (move-Moves 1 b s.tracked) (λ y d s'.
      After-keep 0 _ (comment_loop (suc (length d.text)) multi (char_at b.text b.idx) 1 d)
        (comment_loop-Moves _ multi _ 1 d s'.tracked
          (inl (let m = s.moved in let m' = s'.moved in omega arith)))
        (λ level e s''.
          After-if _ _ _ _ e (multi && not (level == 0)) (λ h. failed-Moves _ _ tok e s''.tracked)
            (λ h. made-Moves _ _ tok e s''.tracked))))

op_token-Moves :
    (op : Op) (start : Position) (tok : Token) (lx : Lexer)
    → IsTracked lx
    → char_at lx.text lx.idx ≢ eof_char
    → After lx.text (λ x b. Ahead 1 lx b) (op_token op start tok lx)
unfolding op_token
op_token-Moves (Op.one k) start tok lx t at =
    made_before-Ahead 1 1 k start tok lx t (omega arith)
      (let i = char_at-inside lx.text lx.idx at in omega arith)
op_token-Moves (Op.two k) start tok lx t at =
    made_before-Ahead 1 2 k start tok lx t (omega arith)
      (let i = char_at-inside lx.text lx.idx at in omega arith)
op_token-Moves (Op.three k) start tok lx t at =
    After-keep 1 _ (move 3 lx) (move-on 3 lx t (omega arith) at) (λ x b s.
      made_before-Ahead 0 1 k start tok b s.tracked (omega arith)
        (let i = s.tracked.0 in omega arith))

-- What `Lexer_tokenize` comes to: it took a character, or it is at the end and stayed.
abbrev pub Scanned : Token → Lexer → TokenKind × Token → Lexer → Type 0
Scanned tok lx r b = ((r.0 ≡ TokenKind.eof) × (r.1 ≡ tok) × (b ≡ lx)) ⊎ Ahead 1 lx b

took :
    (tok : Token) (lx : Lexer) (r : Result (TokenKind × Token))
    → After lx.text (λ x b. Ahead 1 lx b) r
    → After lx.text (Scanned tok lx) r
took tok lx (ok x b) h = inr h
took tok lx (stop e) h = h

operator_eof : (cc ccc : ℕ) → operator eof_char cc ccc ≡ none
unfolding operator long_operator short_operator
operator_eof c1 c2 = refl

other_token-Moves :
    (tok : Token) (start : Position) (c2 : ℕ) (lx : Lexer)
    → IsTracked lx
    → After lx.text (Scanned tok lx) (other_token (char_at lx.text lx.idx) c2 start tok lx)
unfolding other_token
other_token-Moves tok start c2 lx t =
    let c = char_at lx.text lx.idx in
    After-if _ _ _ _ lx (c == quote)
      (λ h. took tok lx _ (char_literal-Moves tok lx t (eq_of_== c quote h)))
      (λ h.
        After-if _ _ _ _ lx (c == b'"')
          (λ h. took tok lx _ (
            After-keep 1 _ (move 1 lx) (move-on 1 lx t (omega arith) (ground arith))
              (λ x b s. string_literal-Moves tok start b s.tracked)))
          (λ h.
            After-if _ _ _ _ lx (c == b'f' && c2 == b'"')
              (λ h.
                let told : Lexer = record lx { in_str = true } in
                let u : Ahead 0 lx told = record {
                  same_text = refl;
                  moved = omega arith;
                  tracked = t;
                } in
                let in_text = char_at-inside lx.text lx.idx (ground arith) in
                took tok lx _ (
                  After-from 1 1 _ (omega arith) u
                    (made_before-Ahead 1 1 _ start tok told t (omega arith) (omega arith))))
              (λ h.
                After-if _ _ _ _ lx (is_digit c)
                  (λ h. took tok lx _ (number_literal-Moves tok lx t (inl h)))
                  (λ h.
                    After-if _ _ _ _ lx (c == b'_' || is_letter c)
                      (λ h. took tok lx _ (name-Moves tok lx t (ground arith)))
                      (λ h.
                        After-if _ _ _ _ lx (c == eof_char) (λ h. inl (refl, refl, refl))
                          (λ h.
                            let in_text = char_at-inside lx.text lx.idx (ground arith) in
                            took tok lx _ (
                              After-keep 1 _ (advance 1 lx)
                                (advance-Ahead 1 1 lx t (omega arith) (omega arith))
                                (λ end b s. record {
                                  same_text = refl;
                                  moved = omega arith;
                                  tracked = s.tracked;
                                }))))))))

-- `Lexer_tokenize` takes a character, or it is at the end.
pub tokenize-Moves :
    (tok : Token) (lx : Lexer) → IsTracked lx → After lx.text (Scanned tok lx) (tokenize tok lx)
unfolding tokenize
tokenize-Moves tok lx t =
    let c = char_at lx.text lx.idx in
    let c2 = char_at lx.text (lx.idx + 1) in
    let ccc = char_at lx.text (lx.idx + 1 + 1) in
    After-if _ _ _ _ lx (c == b'/' && (c2 == b'*' || c2 == b'/'))
      (λ h. took tok lx _ (comment-Moves tok lx t (ground arith)))
      (λ h.
        After-if _ _ _ _ lx (c == b'.' && is_digit c2)
          (λ h. took tok lx _ (number_literal-Moves tok lx t (inr (ground arith))))
          (λ h.
            After-if _ _ _ _ lx (c == b'}' && lx.in_str)
              (λ h. took tok lx _ (
                After-keep 1 _ (move 1 lx) (move-on 1 lx t (omega arith) (ground arith))
                  (λ x b s. string_literal-Moves tok _ b s.tracked)))
              (λ h.
                After-option _ _ _ _ lx (operator c c2 ccc) (other_token-Moves tok _ c2 lx t)
                  (λ op e. took tok lx _ (
                    op_token-Moves op _ tok lx t
                      (λ at_end. let none_there = operator_eof c2 ccc in absurd (cc)))))))
