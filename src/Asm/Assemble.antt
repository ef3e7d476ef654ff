-- ===== src/Asm/Assemble.antt =====
-- `Assembler_assemble`, `Assembler_init` and `Assembler_link` (src/compiler/asm/asm.c).
use cyntatic.Prelude.{
  ℕ, zero, suc, ◌+◌, ◌*◌, Bool, true, false, some, none, List, [], ◌∷◌, ◌++◌, ltb, length,
  if◌then◌else◌,
}
use cyntatic.Token.{TokenKind}
use cyntatic.Lexer.State.{Lexer, Stop}
use cyntatic.Parser.{Parsed, parsed, stopped, parser_init, at_eof}
use cyntatic.Vm.Run.{Run, ok}
use cyntatic.Vm.Builder.{SymbolTag, Symbol, Builder}
use cyntatic.Vm.Builder as Builder
use cyntatic.Asm.State.{
  Assembler, AsmSymbol, Asm, Act, Outcome, done, thrown, halted, bind, pure, halt, fail, advance,
  peek, current, log_errors, ◌>>=◌, ◌>>◌,
}
use cyntatic.Asm.Symbols.{look_up}
use cyntatic.Asm.Statement.{parse_label, parse_instruction, parse_var_decl}

abbrev pub is_new_line : TokenKind → Bool
is_new_line TokenKind.new_line = true
is_new_line k = false

-- `Assembler_synchronize`, on fuel.
unfoldable pub synchronize : ℕ → Act
synchronize zero = halt Stop.endless
synchronize (suc fuel) = do
  tok ← advance
  prev ← (λ s. done s.parser.prev s)
  finished ← (λ s. done (at_eof s.parser) s)
  if is_new_line prev.kind then pure _ else if finished then pure _ else synchronize fuel

abbrev pub is_colon : TokenKind → Bool
is_colon TokenKind.colon = true
is_colon k = false

-- The switch of `Assembler_assemble`, on the kind of the current token.
unfoldable pub statement_of : TokenKind → ℕ → Act
statement_of TokenKind.identifier fuel = do
  next ← peek
  if is_colon next.kind then parse_label else parse_instruction
statement_of TokenKind.dollar fuel = parse_var_decl fuel
statement_of TokenKind.new_line fuel = advance >> pure _
statement_of TokenKind.comment fuel = advance >> pure _
statement_of k fuel = fail

unfoldable pub statement : ℕ → Act
statement fuel = do tok ← current; statement_of tok.kind fuel

-- `E4C_TRY` and `E4C_CATCH`.
abbrev pub try : Act → Act → Act
try m handler =
    λ s. elim (m s) [ done a s' ↦ done _ s' | thrown s' ↦ handler s' | halted e ↦ halted e ]

-- The loop of `Assembler_assemble`, on fuel; `tokens` is the fuel of the loops in it.
unfoldable pub assemble_loop : ℕ → ℕ → Act
assemble_loop tokens zero = halt Stop.endless
assemble_loop tokens (suc fuel) = do
  finished ← (λ s. done (at_eof s.parser) s)
  if finished
      then pure _
      else (try (statement tokens) (synchronize tokens) >> assemble_loop tokens fuel)

-- Every round takes a token; a token takes a character, but for the last, and one that may follow
-- the end of a string.
abbrev pub token_bound : Assembler → ℕ
token_bound s = 2 * length s.parser.lexer.text + 5

-- The first loop of `Assembler_link` reads the id and the tag of a symbol.
unfoldable pub plain_symbols : List (List ℕ × AsmSymbol) → List (List ℕ × Symbol)
plain_symbols [] = []
plain_symbols ((n, s) ∷ rest) = (n, record { id = s.id; tag = s.tag }) ∷ plain_symbols rest

-- The state of `Builder_link`, whose statements are those of `Assembler_link`.
abbrev pub builder_of : Assembler → Builder
builder_of s = record {
  main = s.main;
  constants = s.constants;
  instructions = s.instructions;
  symbols = plain_symbols s.symbols;
  patch_work = s.patch_work;
  errors = log_errors s;
}

-- `Assembler_link`, into an empty vector: the code.
unfoldable pub link : Assembler → Run (List ℕ)
unfolding Builder.link
link s = Builder.link (builder_of s)

-- What `Assembler_assemble` appends to the code, from the state behind its loop.
unfoldable pub finish : Assembler → Run (List ℕ)
unfolding link
finish s = if ltb 0 (log_errors s) then ok [] else link s

-- `Assembler_assemble`.
unfoldable pub assemble : Asm (Run (List ℕ))
assemble = do (λ s. assemble_loop (token_bound s) (token_bound s) s); (λ s. done (finish s) s)

-- The builtin variables of `Assembler_init`, in its order.
abbrev pub builtin_variables : List (List ℕ × ℕ)
builtin_variables =
    (b'a' ∷ b'r' ∷ b'g' ∷ b'c' ∷ [], 16)
    ∷ (b'a' ∷ b'r' ∷ b'g' ∷ b'v' ∷ [], 24)
    ∷ (b'_' ∷ b'_' ∷ b'r' ∷ b'e' ∷ b'a' ∷ b'd' ∷ [], 0)
    ∷ (b'_' ∷ b'_' ∷ b'w' ∷ b'r' ∷ b'i' ∷ b't' ∷ b'e' ∷ [], 1)
    ∷ (b'_' ∷ b'_' ∷ b'o' ∷ b'p' ∷ b'e' ∷ b'n' ∷ [], 2)
    ∷ (b'_' ∷ b'_' ∷ b'c' ∷ b'l' ∷ b'o' ∷ b's' ∷ b'e' ∷ [], 3)
    ∷ (b'_' ∷ b'_' ∷ b's' ∷ b't' ∷ b'a' ∷ b't' ∷ [], 4)
    ∷ (b'_' ∷ b'_' ∷ b'f' ∷ b's' ∷ b't' ∷ b'a' ∷ b't' ∷ [], 5)
    ∷ (b'_' ∷ b'_' ∷ b'l' ∷ b's' ∷ b't' ∷ b'a' ∷ b't' ∷ [], 6)
    ∷ (b'_' ∷ b'_' ∷ b'p' ∷ b'o' ∷ b'l' ∷ b'l' ∷ [], 7)
    ∷ (b'_' ∷ b'_' ∷ b'l' ∷ b's' ∷ b'e' ∷ b'e' ∷ b'k' ∷ [], 8)
    ∷ (b'_' ∷ b'_' ∷ b'p' ∷ b'i' ∷ b'p' ∷ b'e' ∷ [], 9)
    ∷ (b'_' ∷ b'_' ∷ b's' ∷ b'e' ∷ b'l' ∷ b'e' ∷ b'c' ∷ b't' ∷ [], 10)
    ∷ (b'_' ∷ b'_' ∷ b'd' ∷ b'u' ∷ b'p' ∷ [], 11)
    ∷ (b'_' ∷ b'_' ∷ b'd' ∷ b'u' ∷ b'p' ∷ b'2' ∷ [], 12)
    ∷ (b'_' ∷ b'_' ∷ b'g' ∷ b'e' ∷ b't' ∷ b'p' ∷ b'i' ∷ b'd' ∷ [], 13)
    ∷ (b'_' ∷ b'_' ∷ b's' ∷ b'e' ∷ b'n' ∷ b'd' ∷ b'f' ∷ b'i' ∷ b'l' ∷ b'e' ∷ [], 14)
    ∷ (b'_' ∷ b'_' ∷ b's' ∷ b'o' ∷ b'c' ∷ b'k' ∷ b'e' ∷ b't' ∷ [], 15)
    ∷ (b'_' ∷ b'_' ∷ b'c' ∷ b'o' ∷ b'n' ∷ b'n' ∷ b'e' ∷ b'c' ∷ b't' ∷ [], 16)
    ∷ (b'_' ∷ b'_' ∷ b'a' ∷ b'c' ∷ b'c' ∷ b'e' ∷ b'p' ∷ b't' ∷ [], 17)
    ∷ (b'_' ∷ b'_' ∷ b's' ∷ b'e' ∷ b'n' ∷ b'd' ∷ b't' ∷ b'o' ∷ [], 18)
    ∷ (b'_' ∷ b'_' ∷ b'r' ∷ b'e' ∷ b'c' ∷ b'v' ∷ b'f' ∷ b'r' ∷ b'o' ∷ b'm' ∷ [], 19)
    ∷ (b'_' ∷ b'_' ∷ b's' ∷ b'h' ∷ b'u' ∷ b't' ∷ b'd' ∷ b'o' ∷ b'w' ∷ b'n' ∷ [], 20)
    ∷ (b'_' ∷ b'_' ∷ b'b' ∷ b'i' ∷ b'n' ∷ b'd' ∷ [], 21)
    ∷ (b'_' ∷ b'_' ∷ b'l' ∷ b'i' ∷ b's' ∷ b't' ∷ b'e' ∷ b'n' ∷ [], 22)
    ∷ (
      b'_' ∷ b'_' ∷ b'g' ∷ b'e' ∷ b't' ∷ b's' ∷ b'o' ∷ b'c' ∷ b'k' ∷ b'n' ∷ b'a' ∷ b'm' ∷ b'e' ∷ [],
      23,
    )
    ∷ (
      b'_' ∷ b'_' ∷ b'g' ∷ b'e' ∷ b't' ∷ b'p' ∷ b'e' ∷ b'e' ∷ b'r' ∷ b'n' ∷ b'a' ∷ b'm' ∷ b'e' ∷ [],
      24,
    )
    ∷ (b'_' ∷ b'_' ∷ b'f' ∷ b'c' ∷ b'n' ∷ b't' ∷ b'l' ∷ [], 25)
    ∷ (b'_' ∷ b'_' ∷ b's' ∷ b't' ∷ b'd' ∷ b'i' ∷ b'n' ∷ [], 0)
    ∷ (b'_' ∷ b'_' ∷ b's' ∷ b't' ∷ b'd' ∷ b'o' ∷ b'u' ∷ b't' ∷ [], 1)
    ∷ (b'_' ∷ b'_' ∷ b's' ∷ b't' ∷ b'd' ∷ b'e' ∷ b'r' ∷ b'r' ∷ [], 2)
    ∷ []

-- `Assembler_define`; a name that is there is `abortCompiler`.
unfoldable pub define : List ℕ → ℕ → Act
define name value s = elim (look_up s.symbols name) [
  | some sym ↦ halted Stop.aborted
  | none ↦ done _ (record s {
    symbols = s.symbols ++ (name, record { id = value; size = 0; tag = SymbolTag.define_tag }) ∷ [];
  })
]

unfoldable pub define_all : List (List ℕ × ℕ) → Act
define_all [] = pure _
define_all ((name, value) ∷ rest) = define name value >> define_all rest

-- `Assembler_init`, behind the call of the token parser.
unfoldable pub set_up : (ℕ → ℕ) → Parsed {0} Unit → Outcome {0} Unit
set_up spare (stopped e) = halted e
set_up spare (parsed u p) = define_all builtin_variables (record {
  parser = p;
  main = 0;
  constants = [];
  instructions = [];
  symbols = [];
  patch_work = [];
  logged = 0;
  spare = spare;
})

-- `Assembler_init`, with what the memory of the data holds.
unfoldable pub assembler_init : Lexer → (ℕ → ℕ) → Outcome {0} Unit
assembler_init lx spare = set_up spare (parser_init lx)

-- `Assembler_init` and `Assembler_assemble`, as the main function of the assembler calls them.
unfoldable pub assemble_text : Lexer → (ℕ → ℕ) → Outcome (Run (List ℕ))
assemble_text lx spare = bind (assembler_init lx spare) (λ u. assemble)
