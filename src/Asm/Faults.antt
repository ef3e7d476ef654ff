-- ===== src/Asm/Faults.antt =====
-- Where the assembler refuses what it means to accept (src/compiler/asm/asm.c).
use cyntatic.Prelude.{
  ℕ, suc, ◌<◌, ◌≡◌, refl, true, false, ◌&&◌, List, [], ◌∷◌, length, ltb, ◌==◌, if◌then◌else◌,
  Bool-cases, arith, Option, some, none, inl, inr,
}
use mathlib.Core.Path.{subst}
use cyntatic.Token.{TokenKind, ordinal}
use cyntatic.Parser.{check_kinds, match_kinds, has_kind}
use cyntatic.Vm.Instr.{Instruction}
use cyntatic.Asm.State.{
  Assembler, Asm, Outcome, done, thrown, halted, pure, fail, consume, view, matches, bind,
}
use cyntatic.Asm.Argument.{find_mode, mode_of, parse_modes, add_integer}

-- Where the call returns, its value satisfies `Q`.
abbrev Gives {ℓ} : {A : Type ℓ} → (A → Type 0) → Outcome A → Type 0
Gives Q (done a s) = Q a
Gives Q (thrown s) = Unit
Gives Q (halted e) = Unit

Gives-bind {ℓ κ} :
    {A : Type ℓ} {B : Type κ} (Q : B → Type 0) (r : Outcome A) (f : A → Asm B)
    → ((a : A) (s : Assembler) → Gives Q (f a s))
    → Gives Q (bind r f)
Gives-bind Q (done a s) f h = h a s
Gives-bind Q (thrown s) f h = _
Gives-bind Q (halted e) f h = _

refused_mode :
    (modes : List ℕ) (o : Option ℕ) (s : Assembler)
    → ltb 0 (length modes) ≡ true
    → Gives
        (λ m. find_mode modes m ≡ false)
        ((elim o as (λ x. Asm ℕ) [
          | none ↦ fail
          | some mode ↦ if ltb 0 (length modes) && find_mode modes mode then fail else pure mode
        ])
          s)
unfolding fail
refused_mode modes none s e = _
refused_mode modes (some mode) s e = elim (Bool-cases (find_mode modes mode)) [
  | inl h ↦ rw (e, h) tt
  | inr h ↦ rw (e, h) h
]

-- `Assembler_parse_modes_`, given the modes that are to be supported, returns none of them.
pub parse_modes-refuses :
    (modes : List ℕ) (s a : Assembler) (mode : ℕ)
    → 0 < length modes
    → parse_modes modes s ≡ done mode a
    → find_mode modes mode ≡ false
unfolding parse_modes
parse_modes-refuses modes s a mode some_mode e = subst (Gives (λ m. find_mode modes m ≡ false)) e (
    Gives-bind _ (consume TokenKind.identifier s) _ (λ tok b.
      Gives-bind _ (view tok.range b) _
        (λ ext c. refused_mode modes (mode_of ext) c (ground arith))))

other_kind :
    (s : Assembler) (k : TokenKind)
    → s.parser.curr.kind ≡ TokenKind.plus
    → (ordinal k == ordinal TokenKind.plus) ≡ false
    → check_kinds s.parser (k ∷ []) ≡ false
unfolding check_kinds has_kind
other_kind s k e n = rw e (rw n refl)

no_match :
    (s : Assembler) (k : TokenKind)
    → check_kinds s.parser (k ∷ []) ≡ false
    → matches (k ∷ []) s ≡ done false s
unfolding matches match_kinds
no_match s k e = rw e refl

-- At a plus sign `add_integer`, which parses what stands behind a variable of non-zero value, logs one
-- error and throws, and changes nothing else of the assembler.
pub add_integer-plus :
    (i : Instruction) (s : Assembler)
    → s.parser.curr.kind ≡ TokenKind.plus
    → add_integer i s ≡ thrown (record s { logged = suc s.logged })
unfolding add_integer consume fail ordinal
add_integer-plus i s e =
    let minus = no_match s TokenKind.minus (other_kind s TokenKind.minus e (ground arith)) in
    let integer = other_kind s TokenKind.integer e (ground arith) in
    rw (minus, bind, minus, integer) refl
