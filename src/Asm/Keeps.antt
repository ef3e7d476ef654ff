-- ===== src/Asm/Keeps.antt =====
-- What the parts of the assembler keep (src/compiler/asm/asm.c): rules that follow the shape of the code,
-- for any predicate on its state that each single store keeps.
pub mod Symbols
pub mod Argument
pub mod Instruction
pub mod Operands
pub mod Data
pub mod Statement
use cyntatic.Prelude.{
  ℕ, suc, ◌≡◌, refl, ap, Bool, true, false, ◌||◌, List, [], ◌∷◌, ◌++◌, Option, some, none, length,
  if◌then◌else◌, Bool-cases, Option-cases, inl, inr,
}
use cyntatic.Source.{Range, range_size}
use cyntatic.Token.{TokenKind, Token}
use cyntatic.Lexer.State.{Stop}
use cyntatic.Parser.{TokenParser, Parsed, parsed, stopped, parser_advance, match_kinds, check_kinds}
use cyntatic.Asm.State.{
  Assembler, AsmSymbol, Asm, Act, Outcome, done, thrown, halted, bind, pure, asserted, error, fail,
  advance, peek, matches, checks, consume, view, with_parser,
}

-- What holds behind a part: `Q` of its value and `P` of the state, `T` of the state behind a throw, and
-- `H` of an end of the program.
abbrev pub Post {ℓ} :
    {A : Type ℓ}
    → (Assembler → Type 0)
    → (Assembler → Type 0)
    → (Stop → Type 0)
    → (A → Type 0)
    → Outcome A
    → Type 0
Post P T H Q (done a s) = Q a × P s
Post P T H Q (thrown s) = T s
Post P T H Q (halted e) = H e

-- Any value.
abbrev pub Any {ℓ} : {A : Type ℓ} → A → Type 0
Any a = Unit

-- The single stores keep `P`; a throw gives `T`.
pub record Law (P T : Assembler → Type 0) (H : Stop → Type 0) : Type 0 where
  pub advanced : (s : Assembler) → P s → Post P T H Any (advance s)
  pub failed : (s : Assembler) → P s → T (record s { logged = suc s.logged })
  pub logs : (s : Assembler) → P s → P (record s { logged = suc s.logged })
  pub names : (s : Assembler) (ys : List (List ℕ × AsmSymbol)) → P s → P (record s { symbols = ys })
  pub stores : (s : Assembler) (bs : List ℕ) → P s → P (record s { constants = bs })
  pub starts : (s : Assembler) (id : ℕ) → P s → P (record s { main = id })
  pub asserts : H Stop.asserted

module _ (P T : Assembler → Type 0) (H : Stop → Type 0) where
  -- Where `P` holds, the part comes to what `Q` tells of its value.
  abbrev pub Keeps {ℓ} : {A : Type ℓ} → (A → Type 0) → Asm A → Type 0
  Keeps Q m = (s : Assembler) → P s → Post P T H Q (m s)

  pub Post-bind {ℓ κ} :
      {A : Type ℓ} {B : Type κ} (P' : Assembler → Type 0) (Q : A → Type 0) (R : B → Type 0)
      (f : A → Asm B) (r : Outcome A)
      → Post P' T H Q r
      → ((a : A) (s : Assembler) → Q a → P' s → Post P T H R (f a s))
      → Post P T H R (bind r f)
  Post-bind P' Q R f (done a s) h k = k a s h.0 h.1
  Post-bind P' Q R f (thrown s) h k = h
  Post-bind P' Q R f (halted e) h k = h

  pub Post-if {ℓ} :
      {A : Type ℓ} (Q : A → Type 0) (m n : Asm A) (s : Assembler) (c : Bool)
      → (c ≡ true → Post P T H Q (m s))
      → (c ≡ false → Post P T H Q (n s))
      → Post P T H Q ((if c then m else n) s)
  Post-if Q m n s true h k = h refl
  Post-if Q m n s false h k = k refl

  pub Post-option {ℓ κ} :
      {O : Type κ} {A : Type ℓ} (Q : A → Type 0) (m : Asm A) (f : O → Asm A) (s : Assembler)
      (o : Option O)
      → (o ≡ none → Post P T H Q (m s))
      → ((x : O) → o ≡ some x → Post P T H Q (f x s))
      → Post P T H Q ((elim o as (λ x'. Asm A) [ none ↦ m | some x ↦ f x ]) s)
  Post-option Q m f s none h k = h refl
  Post-option Q m f s (some x) h k = k x refl

  -- A weaker statement of the value.
  pub Post-value {ℓ} :
      {A : Type ℓ} (Q R : A → Type 0) (r : Outcome A)
      → ((a : A) → Q a → R a)
      → Post P T H Q r
      → Post P T H R r
  Post-value Q R (done a s) f h = (f a h.0, h.1)
  Post-value Q R (thrown s) f h = h
  Post-value Q R (halted e) f h = h

  -- The text of a token, where a failed assertion is allowed.
  pub view-Post : H Stop.asserted → (r : Range) → Keeps Any (view r)
  unfolding view
  view-Post a r s h = elim (Option-cases (range_size r)) [
    | inl e ↦ rw (e, Post) a
    | inr (n, e) ↦ rw (e, Post) (_, h)
  ]

  module _ (law : Law P T H) where
    pub fail-Keeps {ℓ} : {A : Type ℓ} (Q : A → Type 0) → Keeps Q fail
    unfolding fail
    fail-Keeps Q s h = law.failed s h

    pub error-Keeps : Keeps Any error
    unfolding error
    error-Keeps s h = (_, law.logs s h)

    pub asserted-Keeps {ℓ} :
        {A : Type ℓ} (Q : A → Type 0) (o : Option A)
        → ((a : A) → o ≡ some a → Q a)
        → Keeps Q (asserted o)
    asserted-Keeps Q none k s h = law.asserts
    asserted-Keeps Q (some a) k s h = (k a refl, h)

    pub view-Keeps : (r : Range) → Keeps Any (view r)
    view-Keeps r s h = view-Post law.asserts r s h

    matched :
        (s : Assembler) (r : Parsed Token)
        → Post P T H Any (with_parser s r)
        → Post P T H Any (
            with_parser s (elim r as (λ x. Parsed Bool) [
              | parsed tok p' ↦ parsed true p'
              | stopped e ↦ stopped e
            ]))
    matched s (parsed tok p) h = h
    matched s (stopped e) h = h

    pub matches-Keeps : (kinds : List TokenKind) → Keeps Any (matches kinds)
    unfolding matches match_kinds advance
    matches-Keeps kinds s h = elim (Bool-cases (check_kinds s.parser kinds)) [
      | inl e ↦ rw (e, Post) (matched s (parser_advance s.parser) (law.advanced s h))
      | inr e ↦ rw (e, Post) (_, h)
    ]

    pub consume-Keeps : (kind : TokenKind) → Keeps Any (consume kind)
    unfolding consume
    consume-Keeps kind s h =
        Post-if Any advance fail s (check_kinds s.parser (kind ∷ [])) (λ e. law.advanced s h)
          (λ e. fail-Keeps Any s h)
