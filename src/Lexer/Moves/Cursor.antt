-- ===== src/Lexer/Moves/Cursor.antt =====
-- How far the functions that go through the text move (src/compiler/common/lexer.c).
use cyntatic.Prelude.{
  ℕ, zero, suc, ◌+◌, ◌-◌, ◌≤◌, ◌<◌, ◌≡◌, ◌≢◌, refl, sym, ap, ◌∙◌, inl, inr, Bool, true, false, List,
  [], ◌∷◌, arith, length, Option-cases,
}
use cyntatic.Source.{min_of, LineColumn, count_lines, range_update}
use cyntatic.Token.{TokenKind, Token}
use cyntatic.Lexer.State.{
  Lexer, Position, ok, ◌>>◌, advance, move, char_at, pos_from, update_pos, eof_char, skip_fuel,
  skip_while, eat_fuel, eat_while, Problem, update_token, made, failed, made_before,
}
use cyntatic.Lexer.Moves.{
  origin, IsTracked, Ahead, After, Moves, Ahead-refl, After-from, After-if, After-keep, After-less,
}

pub count_lines-suc :
    (i : ℕ) (text : List ℕ) (p : LineColumn)
    → i < length text
    → count_lines (suc i) text p ≡ update_pos (count_lines i text p) (char_at text i)
unfolding count_lines update_pos
count_lines-suc zero (c ∷ text) p h = refl
count_lines-suc (suc i) (c ∷ text) p h = count_lines-suc i text _ (omega arith)
count_lines-suc i [] p h = absurd (omega arith)

-- The loop of `Lexer_advance` counts on from a count.
pub pos_from-count_lines :
    (text : List ℕ) (i n : ℕ) (p : LineColumn)
    → i + n ≤ length text
    → pos_from text i n (count_lines i text p) ≡ count_lines (i + n) text p
unfolding pos_from
pos_from-count_lines text i zero p h = ap (λ j. count_lines j text p) (omega arith)
pos_from-count_lines text i (suc n) p h =
    let e : suc i ≡ i + 1 = omega arith in
    ap (pos_from text (i + 1) n)
      (sym (count_lines-suc i text p (omega arith)) ∙ ap (λ j. count_lines j text p) e)
    ∙ pos_from-count_lines text (i + 1) n p (omega arith)
    ∙ ap (λ j. count_lines j text p) (omega arith)

pub char_at-inside : (text : List ℕ) (i : ℕ) → char_at text i ≢ eof_char → i < length text
char_at-inside [] i h = absurd (h refl)
char_at-inside (c ∷ text) zero h = omega arith
char_at-inside (c ∷ text) (suc i) h = (let r = char_at-inside text i h in omega arith)

-- `Lexer_advance` inside the text.
pub advance-Ahead :
    (k n : ℕ) (lx : Lexer)
    → IsTracked lx
    → k ≤ n
    → lx.idx + k ≤ length lx.text
    → After lx.text (λ x b. Ahead k lx b) (advance n lx)
unfolding advance
advance-Ahead k n lx (h, p) le r =
    let end = min_of (length lx.text) (lx.idx + n) in
    let up : lx.idx + k ≤ end = ground arith in
    let down : end ≤ length lx.text = ground arith in
    record {
      same_text = refl;
      moved = up;
      tracked = (
        down,
        ap (pos_from lx.text lx.idx (end - lx.idx)) p
            ∙ pos_from-count_lines lx.text lx.idx (end - lx.idx) origin (omega arith)
            ∙ ap (λ i. count_lines i lx.text origin) (omega arith),
      );
    }

pub move-Ahead :
    (k n : ℕ) (lx : Lexer)
    → IsTracked lx
    → k ≤ n
    → lx.idx + k ≤ length lx.text
    → After lx.text (λ x b. Ahead k lx b) (move n lx)
move-Ahead k n lx t le r =
    After-keep k _ (advance n lx) (advance-Ahead k n lx t le r) (λ x b s. Ahead-refl b s.tracked)

-- A move through any number of characters.
pub move-Moves : (n : ℕ) → Moves 0 (move n)
move-Moves n lx t = (let h = t.1 in move-Ahead 0 n lx t (omega arith) (omega arith))

-- A move at a character that is not `EOF`.
pub move-on :
    (n : ℕ) (lx : Lexer)
    → IsTracked lx
    → 1 ≤ n
    → char_at lx.text lx.idx ≢ eof_char
    → After lx.text (λ x b. Ahead 1 lx b) (move n lx)
move-on n lx t le c =
    move-Ahead 1 n lx t le (let r = char_at-inside lx.text lx.idx c in omega arith)

-- The character passes a test that `EOF` fails.
not_eof : (test : ℕ → Bool) → test eof_char ≡ false → (c : ℕ) → test c ≡ true → c ≢ eof_char
not_eof test e c h same = absurd (cc)

module _ (test : ℕ → Bool) (e : test eof_char ≡ false) where
  -- A round of the loop, and the rounds that follow it.
  skip_round :
      (n : ℕ)
      → ((b : Lexer)
          → IsTracked b
          → length b.text < b.idx + n
          → After b.text (λ x c. Ahead 0 b c) (skip_fuel test n b))
      → (lx : Lexer) → IsTracked lx
      → length lx.text < lx.idx + suc n
      → test (char_at lx.text lx.idx) ≡ true
      → After lx.text (λ x b. Ahead 1 lx b) ((move 1 >> skip_fuel test n) lx)
  skip_round n rest lx t lt h =
      After-keep 1 _ (move 1 lx) (move-on 1 lx t (omega arith) (not_eof test e _ h)) (λ x b s.
        rest b s.tracked (let m = s.moved in let w = ap length s.same_text in omega arith))

  -- The loops of the numbers and names end, within the number of characters left.
  pub skip_fuel-Moves :
      (n : ℕ) (lx : Lexer)
      → IsTracked lx
      → length lx.text < lx.idx + n
      → After lx.text (λ x b. Ahead 0 lx b) (skip_fuel test n lx)
  unfolding skip_fuel
  skip_fuel-Moves zero lx t lt = absurd (let h = t.1 in omega arith)
  skip_fuel-Moves (suc n) lx t lt =
      After-if _ _ _ _ lx (test (char_at lx.text lx.idx))
        (λ h. After-less 1 0 lx _ (omega arith) (skip_round n (skip_fuel-Moves n) lx t lt h))
        (λ h. Ahead-refl lx t)

  pub skip_while-Moves : Moves 0 (skip_while test)
  skip_while-Moves lx t = skip_fuel-Moves (suc (length lx.text)) lx t (omega arith)

  -- At a character that passes the test, the loop takes it.
  pub skip_while-first :
      (lx : Lexer)
      → IsTracked lx
      → test (char_at lx.text lx.idx) ≡ true
      → After lx.text (λ x b. Ahead 1 lx b) (skip_while test lx)
  unfolding skip_fuel
  skip_while-first lx t h =
      After-if _ _ _ _ lx (test (char_at lx.text lx.idx))
        (λ h'. skip_round (length lx.text) (skip_fuel-Moves (length lx.text)) lx t (omega arith) h)
        (λ h'. absurd (cc))

-- At a character that fails the test, the loop does nothing.
pub skip_while-stays :
    (test : ℕ → Bool) (lx : Lexer)
    → test (char_at lx.text lx.idx) ≡ false
    → skip_while test lx ≡ ok (char_at lx.text lx.idx) lx
unfolding skip_fuel
skip_while-stays test lx h = rw h refl

-- A step of the loops that move character by character.
pub pass-Ahead :
    (lx : Lexer)
    → IsTracked lx
    → lx.idx < length lx.text
    → Ahead 1 lx (record lx { idx = lx.idx + 1; pos = update_pos lx.pos (char_at lx.text lx.idx) })
pass-Ahead lx (h, p) lt =
    let e : suc lx.idx ≡ lx.idx + 1 = omega arith in
    record {
      same_text = refl;
      moved = omega arith;
      tracked = (
        omega arith,
        ap (λ q. update_pos q (char_at lx.text lx.idx)) p
            ∙ sym (count_lines-suc lx.idx lx.text origin lt)
            ∙ ap (λ i. count_lines i lx.text origin) e,
      );
    }

pub eat_fuel-Moves :
    (test : ℕ → Bool) (n : ℕ) (lx : Lexer)
    → IsTracked lx
    → lx.idx + n ≤ length lx.text
    → After lx.text (λ x b. Ahead 0 lx b) (eat_fuel test n lx)
unfolding eat_fuel
eat_fuel-Moves test zero lx t le = Ahead-refl lx t
eat_fuel-Moves test (suc n) lx t le =
    let s = pass-Ahead lx t (omega arith) in
    After-if _ _ _ _ lx (test (char_at lx.text lx.idx))
      (λ h. After-from 0 0 _ (omega arith) s (eat_fuel-Moves test n _ s.tracked (omega arith)))
      (λ h. Ahead-refl lx t)

pub eat_while-Moves : (test : ℕ → Bool) → Moves 0 (eat_while test)
eat_while-Moves test lx t =
    eat_fuel-Moves test (length lx.text - lx.idx) lx t (let h = t.1 in omega arith)

-- The functions that make a token or report a problem do not move.
pub update_token-Moves :
    (tok : Token) (kind : TokenKind) (s e : ℕ) (p : LineColumn)
    → Moves 0 (update_token tok kind s e p)
unfolding update_token
update_token-Moves tok kind s e p lx t = elim (Option-cases (range_update lx.source s e p)) [
  | inl none_made ↦ rw (After, none_made) (λ h. absurd (cc))
  | inr (r, made_r) ↦ rw (After, made_r) (Ahead-refl lx t)
]

pub made-Moves : (kind : TokenKind) (start : Position) (tok : Token) → Moves 0 (made kind start tok)
unfolding made
made-Moves kind start tok lx t = update_token-Moves tok kind start.at lx.idx start.coord lx t

pub failed-Moves : (p : Problem) (start : Position) (tok : Token) → Moves 0 (failed p start tok)
unfolding failed
failed-Moves p start tok lx t = record { same_text = refl; moved = omega arith; tracked = t }

pub made_before-Ahead :
    (k n : ℕ) (kind : TokenKind) (start : Position) (tok : Token) (lx : Lexer)
    → IsTracked lx
    → k ≤ n
    → lx.idx + k ≤ length lx.text
    → After lx.text (λ x b. Ahead k lx b) (made_before n kind start tok lx)
unfolding made_before
made_before-Ahead k n kind start tok lx t le r =
    After-keep k _ (advance n lx) (advance-Ahead k n lx t le r)
      (λ x b s. update_token-Moves tok kind start.at x start.coord b s.tracked)
