-- ===== src/Asm/State.antt =====
-- The state of the assembler (`AssemblerCtx` of src/compiler/asm/asm.c), how a part of it ends, and the
-- calls of the token parser (`ITP_…` of include/compiler/common/itp.h) in it.
use cyntatic.Prelude.{
  ℕ, suc, ◌+◌, ◌-◌, ◌%◌, Bool, true, false, Option, some, none, List, [], ◌∷◌, drop, if◌then◌else◌,
}
use cyntatic.Utf8.{front}
use cyntatic.Word.{u32_mod, u64_mod}
use cyntatic.Source.{Range, range_size}
use cyntatic.Token.{TokenKind, Token, get_int, get_char, get_float, get_string}
use cyntatic.Lexer.State.{Stop, Problem}
use cyntatic.Parser.{
  TokenParser, Parsed, parsed, stopped, parser_advance, parser_peek, match_kinds, check_kinds,
}
use cyntatic.Vm.Instr.{Instruction}
use cyntatic.Vm.Builder.{SymbolTag}

-- `Symbol`, without the range, which nothing reads.
pub record AsmSymbol : Type 0 where
  pub id : ℕ
  pub size : ℕ
  pub tag : SymbolTag

-- `AssemblerCtx`. The trees are the lists of their entries: the symbols by name, the patches by the
-- index of their instruction, each with the name that its range views. `references` is only filled and
-- not kept here. `logged` is the number of errors that the assembler gave to the log, and `spare` what
-- the memory of `constants` holds at a place before it is written.
pub record Assembler : Type 0 where
  pub parser : TokenParser
  pub main : ℕ
  pub constants : List ℕ
  pub instructions : List Instruction
  pub symbols : List (List ℕ × AsmSymbol)
  pub patch_work : List (ℕ × List ℕ)
  pub logged : ℕ
  pub spare : ℕ → ℕ

-- How a part ends: with a value, with `ITPException` thrown, which leaves what was stored, or where the
-- program ends.
pub data Outcome {ℓ} (A : Type ℓ) : Type ℓ where
  done : A → Assembler → Outcome A
  thrown : Assembler → Outcome A
  halted : Stop → Outcome A

abbrev pub Asm {ℓ} : Type ℓ → Type ℓ
Asm A = Assembler → Outcome A

abbrev pub bind {ℓ κ} : {A : Type ℓ} {B : Type κ} → Outcome A → (A → Asm B) → Outcome B
bind (done a s) f = f a s
bind (thrown s) f = thrown s
bind (halted e) f = halted e

infixl 5 ◌>>=◌
abbrev pub ◌>>=◌ {ℓ κ} : {A : Type ℓ} {B : Type κ} → Asm A → (A → Asm B) → Asm B
m >>= f = λ s. bind (m s) f

infixl 5 ◌>>◌
abbrev pub ◌>>◌ {ℓ κ} : {A : Type ℓ} {B : Type κ} → Asm A → Asm B → Asm B
m >> n = m >>= λ a. n

abbrev pub pure {ℓ} : {A : Type ℓ} → A → Asm A
pure a = λ s. done a s

abbrev pub halt {ℓ} : {A : Type ℓ} → Stop → Asm A
halt e = λ s. halted e

-- A part without a result.
abbrev pub Act : Type 0
Act = Asm {0} Unit

abbrev pub gets {ℓ} : {A : Type ℓ} → (Assembler → A) → Asm A
gets f = λ s. done (f s) s

abbrev pub puts : (Assembler → Assembler) → Act
puts f = λ s. done _ (f s)

-- A failed assertion.
abbrev pub asserted {ℓ} : {A : Type ℓ} → Option A → Asm A
asserted (some a) = pure a
asserted none = halt Stop.asserted

-- `ITP_error` and `ITP_error0`.
unfoldable pub error : Act
error s = done _ (record s { logged = suc s.logged })

-- `ITP_fail` and `ITP_fail0`.
unfoldable pub fail {ℓ} : {A : Type ℓ} → Asm A
fail s = thrown (record s { logged = suc s.logged })

-- What a call of the token parser does to the assembler.
abbrev pub with_parser {ℓ} : {A : Type ℓ} → Assembler → Parsed A → Outcome A
with_parser s (parsed a p) = done a (record s { parser = p })
with_parser s (stopped e) = halted e

-- `ITP_advance`, `ITP_peek`, `ITP_match` and `ITP_check`.
unfoldable pub advance : Asm Token
advance s = with_parser s (parser_advance s.parser)

unfoldable pub peek : Asm Token
peek s = with_parser s (parser_peek s.parser)

unfoldable pub matches : List TokenKind → Asm Bool
matches kinds s = with_parser s (match_kinds s.parser kinds)

abbrev pub checks : List TokenKind → Asm Bool
checks kinds = gets (λ s. check_kinds s.parser kinds)

-- `ITP_curr`.
abbrev pub current : Asm Token
current = gets (λ s. s.parser.curr)

-- `ITP_consume`.
unfoldable pub consume : TokenKind → Asm Token
consume kind = do ok ← checks (kind ∷ []); if ok then advance else fail

-- `Range_view`, on the text of the lexer.
unfoldable pub view : Range → Asm (List ℕ)
view r s = elim (range_size r) [
  | some n ↦ done (front n (drop r.start s.parser.lexer.text)) s
  | none ↦ halted Stop.asserted
]

-- `Token_get(T, Int)`, `Char`, `Float` and `String`, at the width of the member.
abbrev pub int_of : Token → Asm ℕ
int_of tok = asserted (get_int tok) >>= λ n. pure (n % u64_mod)

abbrev pub char_of : Token → Asm ℕ
char_of tok = asserted (get_char tok) >>= λ n. pure (n % u32_mod)

abbrev pub float_of : Token → Asm ℕ
float_of tok = asserted (get_float tok) >>= λ n. pure (n % u64_mod)

abbrev pub string_of : Token → Asm (List ℕ)
string_of tok = asserted (get_string tok)

-- `-(i64)u`, of a bit pattern.
abbrev pub negated : ℕ → ℕ
negated v = (u64_mod - v) % u64_mod

-- The problems of the lexer that the log counts as errors; the other is a warning.
abbrev pub is_error : Problem → Bool
is_error Problem.unknown_escape = false
is_error p = true

unfoldable pub count_errors : List (Problem × Range) → ℕ
count_errors [] = 0
count_errors ((p, r) ∷ rest) = if is_error p then suc (count_errors rest) else count_errors rest

-- `L->errors`.
abbrev pub log_errors : Assembler → ℕ
log_errors s = s.logged + count_errors s.parser.lexer.problems
