-- ===== src/Lexer/Moves/Escape.antt =====
-- How far the functions for escape sequences move (src/compiler/common/lexer.c).
use cyntatic.Prelude.{
  ℕ, zero, suc, ◌+◌, ◌*◌, ◌%◌, ◌<◌, ◌≡◌, ◌≢◌, refl, ap, Bool, some, arith, ◌==◌, ◌&&◌, length,
}
use cyntatic.Word.{u32_mod}
use cyntatic.Lexer.State.{Lexer, move, char_at, eof_char, line_break}
use cyntatic.Lexer.Escape.{
  is_ucn, is_oct, is_hex, hex_value, universal_loop, universal_char, octal_char, hex_loop, hex_char,
  simple_escape, escaped_char,
}
use cyntatic.Lexer.Moves.{
  IsTracked, Ahead, After, Moves, Ahead-refl, After-if, After-keep, After-less, After-option,
  aborted-After,
}
use cyntatic.Lexer.Moves.Cursor.{move-Moves, move-on}

universal_loop-Moves : (n r : ℕ) → Moves 0 (universal_loop n r)
unfolding universal_loop
universal_loop-Moves zero r lx t = Ahead-refl lx t
universal_loop-Moves (suc n) r lx t =
    After-option _ _ _ _ lx (hex_value (char_at lx.text (lx.idx + 1))) (aborted-After _) (λ d e.
      After-keep 0 _ (move 1 lx) (move-Moves 1 lx t)
        (λ x b s. universal_loop-Moves n ((r * 16 + d) % u32_mod) b s.tracked))

universal_char-Moves : (n : ℕ) → Moves 0 (universal_char n)
unfolding universal_char
universal_char-Moves n lx t =
    After-keep 0 _ (universal_loop n 0 lx) (universal_loop-Moves n 0 lx t) (λ r b s.
      After-if _ _ _ _ b (is_ucn r) (λ h. Ahead-refl b s.tracked) (λ h. (aborted-After _)))

octal_char-Moves : (c : ℕ) → Moves 0 (octal_char c)
unfolding octal_char
octal_char-Moves c lx t =
    After-if _ _ _ _ lx (is_oct (char_at lx.text lx.idx))
      (λ h. After-keep 0 _ (move 1 lx) (move-Moves 1 lx t) (λ x b s.
        After-if _ _ _ _ b (is_oct (char_at b.text b.idx))
          (λ h'.
            After-keep 0 _ (move 1 b) (move-Moves 1 b s.tracked)
              (λ y c s'. Ahead-refl c s'.tracked))
          (λ h'. Ahead-refl b s.tracked)))
      (λ h. Ahead-refl lx t)

-- `EOF` has no value as a digit.
digit_not_eof : (c d : ℕ) → hex_value c ≡ some d → c ≢ eof_char
unfolding hex_value
digit_not_eof c d e same = (let w : hex_value eof_char ≡ some d = cc in absurd (cc))

hex_loop-Moves :
    (n r : ℕ) (lx : Lexer)
    → IsTracked lx
    → length lx.text < lx.idx + n
    → After lx.text (λ x b. Ahead 0 lx b) (hex_loop n r lx)
unfolding hex_loop
hex_loop-Moves zero r lx t lt = absurd (let h = t.1 in omega arith)
hex_loop-Moves (suc n) r lx t lt =
    After-option _ _ _ _ lx (hex_value (char_at lx.text lx.idx)) (Ahead-refl lx t) (λ d e.
      After-less 1 0 lx _ (omega arith) (
        After-keep 1 _ (move 1 lx) (move-on 1 lx t (omega arith) (digit_not_eof _ d e)) (λ x b s.
          hex_loop-Moves n ((r * 16 + d) % u32_mod) b s.tracked
            (let m = s.moved in let w = ap length s.same_text in omega arith))))

hex_char-Moves : Moves 0 hex_char
unfolding hex_char
hex_char-Moves lx t =
    After-if _ _ _ _ lx (is_hex (char_at lx.text lx.idx))
      (λ h. hex_loop-Moves (suc (length lx.text)) 0 lx t (omega arith)) (λ h. (aborted-After _))

-- An escape sequence moves on, or aborts.
pub escaped_char-Moves : (in_string : Bool) → Moves 0 (escaped_char in_string)
unfolding escaped_char
escaped_char-Moves in_string lx t =
    let c = char_at lx.text lx.idx in
    After-keep 0 _ (move 1 lx) (move-Moves 1 lx t) (λ x b s.
      let u = s.tracked in
      After-if _ _ _ _ b (c == line_break && in_string) (λ h. Ahead-refl b u)
        (λ h.
          After-option _ _ _ _ b (simple_escape c)
            (After-if _ _ _ _ b (c == b'x') (λ e. hex_char-Moves b u)
              (λ e.
                After-if _ _ _ _ b (c == b'u') (λ e. universal_char-Moves 4 b u)
                  (λ e.
                    After-if _ _ _ _ b (c == b'U') (λ e. universal_char-Moves 8 b u)
                      (λ e.
                        After-if _ _ _ _ b (is_oct c) (λ e. octal_char-Moves c b u)
                          (λ e. record { same_text = refl; moved = omega arith; tracked = u })))))
            (λ r e. Ahead-refl b u)))
