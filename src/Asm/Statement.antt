-- ===== src/Asm/Statement.antt =====
-- Labels, instructions and variables (src/compiler/asm/asm.c).
use cyntatic.Prelude.{
  ℕ, zero, suc, ◌+◌, ◌*◌, ◌%◌, ◌^◌, ◌++◌, Bool, true, false, some, none, List, [], ◌∷◌, ltb, ◌==◌,
  length, if◌then◌else◌,
}
use cyntatic.Word.{u32_mod, u64_mod, add32}
use cyntatic.Token.{TokenKind, Token}
use cyntatic.Lexer.State.{Stop}
use cyntatic.Vm.Value.{mode_size}
use cyntatic.Vm.Instr.{Instruction, zero_instruction}
use cyntatic.Vm.Opcodes.{get_opcode}
use cyntatic.Vm.Builder.{SymbolTag, header_size}
use cyntatic.Asm.State.{
  Asm, Act, pure, halt, gets, puts, error, fail, advance, matches, checks, current, consume, view,
  int_of, char_of, float_of, string_of, asserted, negated, ◌>>=◌, ◌>>◌,
}
use cyntatic.Asm.Symbols.{
  look_up, add_symbol, push_data, append_integral_data, expand_data, set_size,
}
use cyntatic.Asm.Argument.{parse_modes, parse_instruction_arg}

-- `strncmp("main", s, length s) == 0`.
abbrev pub starts_main : List ℕ → Bool
starts_main [] = true
starts_main (a ∷ []) = a == b'm'
starts_main (a ∷ b ∷ []) = if a == b'm' then b == b'a' else false
starts_main (a ∷ b ∷ c ∷ []) = if a == b'm' then (if b == b'a' then c == b'i' else false) else false
starts_main (a ∷ b ∷ c ∷ d ∷ []) =
    if a == b'm'
    then (if b == b'a' then (if c == b'i' then d == b'n' else false) else false)
    else false
starts_main s = false

abbrev pub set_main : ℕ → Act
set_main id = puts (λ s. record s { main = id })

-- `Assembler_parse_label`.
unfoldable pub parse_label : Act
parse_label = do
  tok ← consume TokenKind.identifier
  consume TokenKind.colon
  name ← view tok.range
  found ← gets (λ s. look_up s.symbols name)
  elim found as (λ o. Act) [ some sym ↦ fail | none ↦ pure _ ]
  id ← gets (λ s. length s.instructions)
  add_symbol id SymbolTag.label_tag tok.range
  if starts_main name then set_main id else pure _

abbrev pub bit : Bool → ℕ
bit b = if b then 1 else 0

-- The first argument of an instruction.
unfoldable pub first_argument : Instruction → Asm Instruction
first_argument i = do
  (is_mem, reg, i') ← parse_instruction_arg i false
  pure (record i' { iam = bit is_mem; ra = if i'.rmd == 1 then i'.ims else reg })

-- The second.
unfoldable pub second_argument : Instruction → Asm Instruction
second_argument i = do
  (is_mem, reg, i') ← parse_instruction_arg i true
  pure (record i' { ibm = bit is_mem; rb = reg })

abbrev pub push_instruction : Instruction → Act
push_instruction i = puts (λ s. record s { instructions = s.instructions ++ i ∷ [] })

-- An instruction behind its name: its opcode, and the number of its arguments.
unfoldable pub instruction_of : ℕ → ℕ → Act
instruction_of opc args = do
  advance
  dot ← matches (TokenKind.dot ∷ [])
  imd ← (if dot then parse_modes [] else pure 3)
  i ← pure (record zero_instruction { osz = args + 1; opc = opc; imd = imd })
  i1 ← (if ltb 0 args then first_argument i else pure i)
  i2 ← (if args == 2 then second_argument i1 else pure i1)
  push_instruction i2

-- `Assembler_parse_instruction`.
unfoldable pub parse_instruction : Act
parse_instruction = do
  tok ← current
  name ← view tok.range
  elim (get_opcode name) as (λ o. Act) [ none ↦ fail | some (opc, args) ↦ instruction_of opc args ]

-- The value of a byte in an array, of the kind of its token.
unfoldable pub byte_value : TokenKind → Token → Asm ℕ
byte_value TokenKind.char tok = char_of tok
byte_value TokenKind.integer tok = int_of tok >>= λ n. pure (n % u32_mod)
byte_value k tok = fail

-- The loop over an array of bytes, on fuel: the number of bytes.
unfoldable pub byte_list : ℕ → ℕ → Asm ℕ
byte_list zero size = halt Stop.endless
byte_list (suc fuel) size = do
  tok ← current
  val ← byte_value tok.kind tok
  (if ltb 0xff val then error else pure _)
  advance
  push_data ((val % 256) ∷ [])
  more ← matches (TokenKind.comma ∷ [])
  if more then byte_list fuel (add32 size 1) else pure (add32 size 1)

-- The characters before the first zero: a string and its `strlen`.
unfoldable pub before_zero : List ℕ → List ℕ
before_zero [] = []
before_zero (c ∷ s) = if c == 0 then [] else c ∷ before_zero s

-- The mode behind a back quote.
unfoldable pub quoted_mode : ℕ → List ℕ → Asm ℕ
quoted_mode mode modes = do
  quoted ← matches (TokenKind.backquote ∷ [])
  if quoted then parse_modes modes else pure mode

-- The case `tokInteger` of a variable's value.
unfoldable pub integer_data : Bool → Asm ℕ
integer_data neg = do
  tok ← advance
  n ← int_of tok
  mode ← quoted_mode 3 []
  append_integral_data (if neg then negated n else n) mode

-- The case `tokChar`: `tokS` and `ITP_curr` are the same pointer, so that the test on the sign fails.
unfoldable pub char_data : Asm ℕ
char_data = do tok ← advance; c ← char_of tok; append_integral_data c 0

-- `-value`, of the bits of a `double`.
abbrev pub negated_float : ℕ → ℕ
negated_float bits = (bits + 2 ^ 63) % u64_mod

-- The case `tokFloat`.
unfoldable pub float_data : Bool → Asm ℕ
float_data neg = do
  tok ← advance
  bits ← float_of tok
  mode ← quoted_mode 3 (2 ∷ 3 ∷ [])
  append_integral_data (if neg then negated_float bits else bits) mode

-- The case `tokLBracket`, which reserves bytes; the sign as for a character.
unfoldable pub reserve_data : Asm ℕ
reserve_data = do
  advance
  tok ← consume TokenKind.integer
  mode ← quoted_mode 0 []
  size ← asserted (mode_size mode)
  consume TokenKind.right_bracket
  n ← int_of tok
  expand_data (size * n % u32_mod)
  pure (size * n % u32_mod)

-- The switch on the kind of the token behind a sign.
unfoldable pub signed_data : TokenKind → Bool → Asm ℕ
signed_data TokenKind.integer neg = integer_data neg
signed_data TokenKind.char neg = char_data
signed_data TokenKind.float neg = float_data neg
signed_data TokenKind.left_bracket neg = reserve_data
signed_data k neg = fail

-- The value of a variable that is a number, or a number of bytes.
unfoldable pub number_data : Asm ℕ
number_data = do
  neg ← matches (TokenKind.minus ∷ [])
  if neg then pure true else matches (TokenKind.plus ∷ [])
  tok ← current
  signed_data tok.kind neg

-- The value of a string.
unfoldable pub string_data : Asm ℕ
string_data = do
  tok ← advance
  s ← string_of tok
  push_data (before_zero s)
  pure (length (before_zero s) % u32_mod)

-- An array of bytes, behind its brace.
unfoldable pub array_data : ℕ → Asm ℕ
array_data fuel = do size ← byte_list fuel 0; consume TokenKind.right_brace; pure size

-- The value of a variable: its size.
unfoldable pub variable_data : ℕ → Asm ℕ
variable_data fuel = do
  brace ← matches (TokenKind.left_brace ∷ [])
  text ← checks (TokenKind.string ∷ [])
  if brace then array_data fuel else if text then string_data else number_data

-- `Assembler_parse_var_decl`.
unfoldable pub parse_var_decl : ℕ → Act
parse_var_decl fuel = do
  advance
  tok ← consume TokenKind.identifier
  consume TokenKind.assign
  pos ← gets (λ s. length s.constants + header_size)
  add_symbol pos SymbolTag.var_tag tok.range
  name ← view tok.range
  size ← variable_data fuel
  set_size name size
