-- ===== src/Lexer/Moves.antt =====
-- How far a call of the lexer moves (src/compiler/common/lexer.c): rules that follow the shape of the
-- code. The position that the lexer keeps is that of its place in the text.
pub mod Cursor
pub mod Escape
pub mod Number
pub mod Literal
pub mod Scan
pub mod Space
pub mod Next
use cyntatic.Prelude.{
  ℕ, zero, suc, ◌+◌, ◌-◌, ◌≤◌, ◌<◌, ◌≡◌, ◌≢◌, refl, sym, ap, ◌∙◌, ◌⊎◌, inl, inr, Bool, true, false,
  List, [], ◌∷◌, Option, some, none, arith, leb, ltb, ◌==◌, if◌then◌else◌, length, get_elem?,
  Bool-cases, if_true, if_false,
}
use mathlib.Core.Path.{subst}
use cyntatic.Source.{min_of, LineColumn, count_lines}
use cyntatic.Lexer.State.{
  Lexer, Lex, Result, Stop, ok, stop, bind, pure, halt, ◌>>=◌, ◌>>◌, advance, move, peek, char_at,
  pos_from, update_pos, eof_char,
}

abbrev pub origin : LineColumn
origin = record { line = 0; column = 0 }

-- The lexer stands in its text, and its position counts the line breaks and the characters behind the
-- last one that it has passed.
abbrev pub IsTracked : Lexer → Type 0
IsTracked lx = (lx.idx ≤ length lx.text) × (lx.pos ≡ count_lines lx.idx lx.text origin)

-- `b` is behind `a` by `k` characters at least, in the same text, and keeps track.
pub record Ahead (k : ℕ) (a b : Lexer) : Type 0 where
  pub same_text : b.text ≡ a.text
  pub moved : a.idx + k ≤ b.idx
  pub tracked : IsTracked b

abbrev pub HasQuote : List ℕ → Type 0
HasQuote text = (i : ℕ) × (char_at text i ≡ 39)

-- A result and the lexer behind it satisfy `P`; only a text with a single quote runs out of fuel.
abbrev pub After {ℓ} : {A : Type ℓ} → List ℕ → (A → Lexer → Type 0) → Result A → Type 0
After text P (ok a lx) = P a lx
After text P (stop s) = s ≡ Stop.endless → HasQuote text

-- From every place that is kept track of, the call moves by `k` characters at least.
abbrev pub Moves {ℓ} : {A : Type ℓ} → ℕ → Lex A → Type 0
Moves k m = (lx : Lexer) → IsTracked lx → After lx.text (λ a b. Ahead k lx b) (m lx)

pub Ahead-trans : {k j : ℕ} {a b c : Lexer} → Ahead k a b → Ahead j b c → Ahead (k + j) a c
Ahead-trans s t = record {
  same_text = t.same_text ∙ s.same_text;
  moved = (let h = s.moved in let h' = t.moved in omega arith);
  tracked = t.tracked;
}

pub Ahead-refl : (a : Lexer) → IsTracked a → Ahead 0 a a
Ahead-refl a h = record { same_text = refl; moved = omega arith; tracked = h }

pub Ahead-less : {k : ℕ} (j : ℕ) {a b : Lexer} → j ≤ k → Ahead k a b → Ahead j a b
Ahead-less j h s = record {
  same_text = s.same_text;
  moved = (let h' = s.moved in omega arith);
  tracked = s.tracked;
}

module _ {ℓ} {A : Type ℓ} where
  -- A call at a place that a first call reached, seen from the start of the first.
  pub After-from :
      {k : ℕ} (j l : ℕ) {a b : Lexer} (r : Result A)
      → l ≤ k + j
      → Ahead k a b
      → After b.text (λ x c. Ahead j b c) r
      → After a.text (λ x c. Ahead l a c) r
  After-from j l (ok x c) le s h = Ahead-less l le (Ahead-trans s h)
  After-from j l (stop e) le s h = λ e'. subst HasQuote s.same_text (h e')

  pub After-if :
      (text : List ℕ) (P : A → Lexer → Type 0) (m n : Lex A) (lx : Lexer) (c : Bool)
      → (c ≡ true → After text P (m lx))
      → (c ≡ false → After text P (n lx))
      → After text P ((if c then m else n) lx)
  After-if text P m n lx true h k = h refl
  After-if text P m n lx false h k = k refl

  -- The branches on an option, such as the value of a digit.
  pub After-option {κ} :
      {O : Type κ} (text : List ℕ) (P : A → Lexer → Type 0) (m : Lex A) (f : O → Lex A) (lx : Lexer)
      (o : Option O)
      → After text P (m lx)
      → ((x : O) → o ≡ some x → After text P (f x lx))
      → After text P ((elim o as (λ x'. Lex A) [ none ↦ m | some x ↦ f x ]) lx)
  After-option text P m f lx none h k = h
  After-option text P m f lx (some x) h k = k x refl

module _ {ℓ κ} {A : Type ℓ} {B : Type κ} (k : ℕ) {a : Lexer} (f : A → Lex B) where
  -- A call, and what follows it without going back.
  pub After-keep :
      (r : Result A)
      → After a.text (λ x b. Ahead k a b) r
      → ((x : A) (b : Lexer) → Ahead k a b → After b.text (λ y c. Ahead 0 b c) (f x b))
      → After a.text (λ y c. Ahead k a c) (bind r f)
  After-keep (ok x b) h g = After-from 0 k (f x b) (omega arith) h (g x b h)
  After-keep (stop e) h g = h

  -- A call that does not go back, and what follows it.
  pub After-then :
      (r : Result A)
      → After a.text (λ x b. Ahead 0 a b) r
      → ((x : A) (b : Lexer) → Ahead 0 a b → After b.text (λ y c. Ahead k b c) (f x b))
      → After a.text (λ y c. Ahead k a c) (bind r f)
  After-then (ok x b) h g = After-from k k (f x b) (omega arith) h (g x b h)
  After-then (stop e) h g = h

pub After-less {ℓ} :
    {A : Type ℓ} (k j : ℕ) (a : Lexer) (r : Result A)
    → j ≤ k
    → After a.text (λ x b. Ahead k a b) r
    → After a.text (λ x b. Ahead j a b) r
After-less k j a (ok x b) le h = Ahead-less j le h
After-less k j a (stop e) le h = h

-- A stop that is no endless loop.
pub aborted-After : (text : List ℕ) → Stop.aborted ≡ Stop.endless → HasQuote text
aborted-After text e = absurd (cc)

pub asserted-After : (text : List ℕ) → Stop.asserted ≡ Stop.endless → HasQuote text
asserted-After text e = absurd (cc)

pub undefined-After : (text : List ℕ) → Stop.undefined ≡ Stop.endless → HasQuote text
undefined-After text e = absurd (cc)

-- A call with any result, and what follows it.
pub After-bind {ℓ κ} :
    {A : Type ℓ} {B : Type κ} (text : List ℕ) (P : A → Lexer → Type 0) (Q : B → Lexer → Type 0)
    (f : A → Lex B) (r : Result A)
    → After text P r
    → ((x : A) (b : Lexer) → P x b → After text Q (f x b))
    → After text Q (bind r f)
After-bind text P Q f (ok x b) h g = g x b h
After-bind text P Q f (stop e) h g = h
