-- ===== src/Asm/Low.antt =====
-- How much of the text the parts of the assembler leave (src/compiler/asm/asm.c).
use cyntatic.Prelude.{
  ℕ, zero, suc, ◌%◌, ◌<◌, ◌≤◌, ◌≡◌, ◌⊎◌, inl, inr, ap, ◌∙◌, Bool, true, false, ◌||◌, List, [], ◌∷◌,
  length, ltb, if◌then◌else◌, Bool-cases, arith,
}
use mathlib.Core.Path.{subst}
use cyntatic.Word.{add32}
use cyntatic.Token.{TokenKind, Token}
use cyntatic.Lexer.State.{Stop}
use cyntatic.Lexer.Next.{is_count}
use cyntatic.Lexer.Moves.{IsTracked, HasQuote}
use cyntatic.Parser.{
  TokenParser, Parsed, parsed, stopped, is_eof, parser_advance, parser_peek, check_kinds,
  match_kinds, at_eof,
}
use cyntatic.Parser.Progress.{
  Ends, parser_left, Advanced, parser_advance-Ends, Peeked, parser_peek-Ends,
}
use cyntatic.Asm.State.{
  Assembler, Asm, Outcome, done, thrown, halted, pure, advance, peek, matches, with_parser, bind,
}
use cyntatic.Asm.Symbols.{push_data}
use cyntatic.Asm.Statement.{byte_value, byte_list}
use cyntatic.Asm.Keeps.{Post, Any, Law, Keeps, Post-bind}
use cyntatic.Asm.Keeps.Symbols.{PatchLaw}
use cyntatic.Asm.Keeps.Data.{byte_value-Keeps, range_error-Keeps}
use cyntatic.Asm.Keeps.Statement.{Start}

-- Less than `k` is left of the text.
pub record Low (text : List ℕ) (k : ℕ) (p : TokenParser) : Type 0 where
  pub same_text : p.lexer.text ≡ text
  pub tracked : IsTracked p.lexer
  pub below : parser_left p < k

pub Low-less :
    {text : List ℕ} {k : ℕ} (j : ℕ) {p : TokenParser} → k ≤ j → Low text k p → Low text j p
Low-less j le h = record {
  same_text = h.same_text;
  tracked = h.tracked;
  below = (let b = h.below in omega arith);
}

-- Only a text with a single quote runs out of fuel.
abbrev pub Quoted : List ℕ → Stop → Type 0
Quoted text e = e ≡ Stop.endless → HasQuote text

module _ (text : List ℕ) (T : Assembler → Type 0) where
  -- A call of the token parser, from a place in the text.
  pub called {ℓ} :
      {A : Type ℓ} (P : Assembler → Type 0) (F : TokenParser → Type 0) (s : Assembler)
      → s.parser.lexer.text ≡ text
      → ((p : TokenParser) → F p → P (record s { parser = p }))
      → (r : Parsed A) → Ends s.parser.lexer.text (λ a p. F p) r
      → Post P T (Quoted text) Any (with_parser s r)
  called P F s e f (parsed a p) h = (_, f p h)
  called P F s e f (stopped x) h = λ e'. subst HasQuote e (h e')

  -- An advance.
  pub advance-Post :
      (P : Assembler → Type 0) (k : ℕ) (s : Assembler)
      → Low text k s.parser
      → ((p : TokenParser) → Advanced s.parser p → P (record s { parser = p }))
      → Post P T (Quoted text) Any (advance s)
  unfolding advance
  advance-Post P k s h f =
      called P (Advanced s.parser) s h.same_text f (parser_advance s.parser)
        (parser_advance-Ends s.parser h.tracked)

pub advanced-Low :
    {text : List ℕ} {k : ℕ} (p p' : TokenParser) → Low text k p → Advanced p p' → Low text k p'
advanced-Low p p' h a = record {
  same_text = a.same_text ∙ h.same_text;
  tracked = a.tracked;
  below = (let b = h.below in let m = a.not_more in omega arith);
}

-- Before the end of the text an advance takes a part of it.
pub advanced-less :
    {text : List ℕ} (k : ℕ) (p p' : TokenParser)
    → Low text (suc k) p
    → at_eof p ≡ false
    → Advanced p p'
    → Low text k p'
advanced-less k p p' h e a = record {
  same_text = a.same_text ∙ h.same_text;
  tracked = a.tracked;
  below = (let b = h.below in let m = a.less e in omega arith);
}

-- Within a statement, behind its first token.
abbrev pub Inside : List ℕ → ℕ → ℕ → Assembler → Type 0
Inside text k n s = Low text k s.parser × (length s.instructions ≡ n)

module _ (text : List ℕ) (k n : ℕ) where
  -- At its start.
  abbrev pub BeforeIt : Assembler → Type 0
  BeforeIt s = Low text (suc k) s.parser × (at_eof s.parser ≡ false) × (length s.instructions ≡ n)

  -- Behind a throw.
  abbrev pub Thrown : Assembler → Type 0
  Thrown s = Low text k s.parser ⊎ (Low text (suc k) s.parser × (at_eof s.parser ≡ false))

  inside_law : (j : ℕ) → j ≤ k → Law (Inside text j n) Thrown (Quoted text)
  inside_law j le = record {
    advanced = λ s h.
        advance-Post text Thrown (Inside text j n) j s h.0
          (λ p a. (advanced-Low s.parser p h.0 a, h.1));
    failed = λ s h. inl (Low-less k le h.0);
    logs = λ s h. h;
    names = λ s ys h. h;
    stores = λ s bs h. h;
    starts = λ s id h. h;
    asserts = λ e. absurd (cc);
  }

  inside_patch : PatchLaw (Inside text k n) n
  inside_patch = record { fixed = λ s h. h.1; patches = λ s name h. h }

  enter : (s : Assembler) → BeforeIt s → Post (Inside text k n) Thrown (Quoted text) Any (advance s)
  enter s h =
      advance-Post text Thrown (Inside text k n) (suc k) s h.0
        (λ p a. (advanced-less k s.parser p h.0 h.1 a, h.2))

  peeked : (p p' : TokenParser) → Low text (suc k) p → Peeked p p' → Low text (suc k) p'
  peeked p p' h a = record {
    same_text = a.same_text ∙ h.same_text;
    tracked = a.tracked;
    below = (let b = h.below in let m = a.not_more in omega arith);
  }

  at_eof-Peeked : (p p' : TokenParser) → Peeked p p' → at_eof p ≡ false → at_eof p' ≡ false
  at_eof-Peeked p p' a e = ap (λ (t : Token). is_eof t.kind || is_count t.kind) a.same_token ∙ e

  look_ahead : (s : Assembler) → BeforeIt s → Post BeforeIt Thrown (Quoted text) Any (peek s)
  unfolding peek
  look_ahead s h =
      called text Thrown BeforeIt (Peeked s.parser) s h.0.same_text
        (λ p a. (peeked s.parser p h.0 a, at_eof-Peeked s.parser p a h.1, h.2))
        (parser_peek s.parser) (parser_peek-Ends s.parser h.0.tracked)

  pub start :
      Start BeforeIt
        (Inside text k n)
        (Inside text k n)
        (λ s. Low text k s.parser)
        Thrown
        (Quoted text)
        n
  start = record {
    law = inside_law k (omega arith);
    instruction_law = inside_law k (omega arith);
    patch = inside_patch;
    enter = enter;
    enter_instruction = enter;
    look_ahead = look_ahead;
    refuse = λ s h. inr (h.0, h.1);
    leave = λ s h. h.0;
    push = λ s i h e. h.0;
  }

checked : (p : TokenParser) (kinds : List TokenKind) → check_kinds p kinds ≡ true → at_eof p ≡ false
unfolding check_kinds
checked p kinds e = elim (Bool-cases (at_eof p)) [ inl h ↦ absurd (cc (rw h at e)) | inr h ↦ h ]

module _ (text : List ℕ) (P T : Assembler → Type 0) where
  matched_then {ℓ} :
      {B : Type ℓ} (Q : B → Type 0) (k : ℕ) (s : Assembler) (f : Bool → Asm B)
      → Low text (suc k) s.parser
      → at_eof s.parser ≡ false
      → ((p : TokenParser)
          → Low text k p
          → Post P T (Quoted text) Q (f true (record s { parser = p })))
      → (r : Parsed Token) → Ends s.parser.lexer.text (λ a p. Advanced s.parser p) r
      → Post P T (Quoted text) Q (
          bind
            (with_parser s (elim r as (λ x. Parsed Bool) [
              | parsed tok p' ↦ parsed true p'
              | stopped e ↦ stopped e
            ]))
            f)
  matched_then Q k s f low e h (parsed tok p) a = h p (advanced-less k s.parser p low e a)
  matched_then Q k s f low e h (stopped x) a = λ e'. subst HasQuote low.same_text (a e')

  -- A match, and what follows it, with less of the text where it is true.
  match-Post {ℓ} :
      {B : Type ℓ} (Q : B → Type 0) (k : ℕ) (kinds : List TokenKind) (s : Assembler)
      (f : Bool → Asm B)
      → Low text (suc k) s.parser
      → ((p : TokenParser)
          → Low text k p
          → Post P T (Quoted text) Q (f true (record s { parser = p })))
      → Post P T (Quoted text) Q (f false s)
      → Post P T (Quoted text) Q (bind (matches kinds s) f)
  unfolding matches match_kinds
  match-Post Q k kinds s f low h h' = elim (Bool-cases (check_kinds s.parser kinds)) [
    | inl e ↦ rw e (
        matched_then Q k s f low (checked s.parser kinds e) h (parser_advance s.parser)
          (parser_advance-Ends s.parser low.tracked))
    | inr e ↦ rw e h'
  ]

-- A part that came to less.
wider {ℓ} :
    {A : Type ℓ} (text : List ℕ) (k n j : ℕ) (r : Outcome A)
    → Post (Inside text j n) (Thrown text k n) (Quoted text) Any r
    → Post (Inside text (suc j) n) (Thrown text k n) (Quoted text) Any r
wider text k n j (done a s) h = (_, (Low-less (suc j) (omega arith) h.1.0, h.1.1))
wider text k n j (thrown s) h = h
wider text k n j (halted e) h = h

-- The bytes of an array: each round but the last takes a comma.
pub byte_list-Post :
    (text : List ℕ) (k n j fuel size : ℕ)
    → j ≤ k
    → j ≤ fuel
    → Keeps (Inside text j n) (Thrown text k n) (Quoted text) Any (byte_list fuel size)
unfolding byte_list
byte_list-Post text k n zero fuel size le le' s h = absurd (let b = h.0.below in omega arith)
byte_list-Post text k n (suc j) zero size le le' s h = absurd (omega arith)
byte_list-Post text k n (suc j) (suc fuel) size le le' s h =
    let P = Inside text (suc j) n in
    let T = Thrown text k n in
    let law = inside_law text k n (suc j) le in
    Post-bind P T (Quoted text) P Any Any _ (byte_value s.parser.curr.kind s.parser.curr s)
      (byte_value-Keeps P T (Quoted text) law _ _ s h)
      (λ val a u ha.
        Post-bind P T (Quoted text) P Any Any _ _
          (range_error-Keeps P T (Quoted text) law (ltb 0xff val) a ha)
          (λ x b u' hb.
            Post-bind P T (Quoted text) P Any Any _ (advance b) (law.advanced b hb) (λ tok c u'' hc.
              Post-bind P T (Quoted text) P Any Any _ (push_data ((val % 256) ∷ []) c) (_, hc)
                (λ y d u3 hd.
                  match-Post text P T Any j (TokenKind.comma ∷ []) d
                    (λ more. if more then byte_list fuel (add32 size 1) else pure (add32 size 1))
                    hd.0
                    (λ p low. wider text k n j _ (
                      byte_list-Post text k n j fuel (add32 size 1) (omega arith) (omega arith)
                        (record d { parser = p }) (low, hd.1)))
                    (_, hd)))))
