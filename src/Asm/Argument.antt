-- ===== src/Asm/Argument.antt =====
-- The modes and the arguments of an instruction (src/compiler/asm/asm.c).
use cyntatic.Prelude.{
  ℕ, ◌+◌, ◌%◌, Bool, true, false, ◌&&◌, ◌||◌, Option, some, none, List, [], ◌∷◌, ltb, ◌==◌, length,
  if◌then◌else◌,
}
use cyntatic.Word.{u64_mod}
use cyntatic.Source.{extend}
use cyntatic.Token.{TokenKind, Token}
use cyntatic.Lexer.State.{Stop}
use cyntatic.Vm.State.{reg_count}
use cyntatic.Vm.Value.{integer_size}
use cyntatic.Vm.Instr.{Instruction}
use cyntatic.Vm.Names.{get_register}
use cyntatic.Asm.State.{
  Asm, pure, halt, gets, error, fail, advance, matches, checks, current, consume, view, int_of,
  char_of, float_of, asserted, negated, ◌>>=◌, ◌>>◌,
}
use cyntatic.Asm.Symbols.{add_symbol_reference, get_variable_size}

-- `Assembler_find_mode`.
unfoldable pub find_mode : List ℕ → ℕ → Bool
find_mode [] mode = false
find_mode (m ∷ modes) mode = m == mode || find_mode modes mode

-- The mode of an extension.
abbrev pub mode_of : List ℕ → Option ℕ
mode_of (c ∷ []) =
    if c == b'b'
    then some 0
    else if c == b's'
    then some 1
    else if c == b'w'
    then some 2
    else if c == b'q'
    then some 3
    else none
mode_of ext = none

-- `Assembler_parse_modes_`.
unfoldable pub parse_modes : List ℕ → Asm ℕ
parse_modes modes = do
  tok ← consume TokenKind.identifier
  ext ← view tok.range
  elim (mode_of ext) as (λ o. Asm ℕ) [
    | none ↦ fail
    | some mode ↦ if ltb 0 (length modes) && find_mode modes mode then fail else pure mode
  ]

-- `sign = *ITP_curr(as)` and the matches behind it: the kind of the token, and `isNeg`.
unfoldable pub parse_sign : Asm (TokenKind × Bool)
parse_sign = do
  tok ← current
  neg ← matches (TokenKind.minus ∷ [])
  if neg then pure (tok.kind, true) else (matches (TokenKind.plus ∷ []) >> pure (tok.kind, false))

abbrev pub is_sign : TokenKind → Bool
is_sign TokenKind.plus = true
is_sign TokenKind.minus = true
is_sign k = false

abbrev pub signed : Bool → ℕ → ℕ
signed neg v = if neg then negated v else v

-- The case `tokInteger` of an immediate argument.
unfoldable pub integer_argument : Bool → Token → Instruction → Asm Instruction
integer_argument neg tok i = do
  v ← int_of tok
  pure (record i { rmd = 1; ims = integer_size v; ii = signed neg v })

-- The switch on an immediate argument, of the kind of its token. The case `tokFloat` goes on in the case
-- `tokInteger`.
unfoldable pub immediate_argument : TokenKind → Bool → Token → Instruction → Asm Instruction
immediate_argument TokenKind.char neg tok i = do
  c ← char_of tok
  pure (record i { rmd = 1; ims = 2; ii = c })
immediate_argument TokenKind.float neg tok i = do
  f ← float_of tok
  integer_argument neg tok (record i { rmd = 1; ims = 3; ii = f })
immediate_argument TokenKind.integer neg tok i = integer_argument neg tok i
immediate_argument k neg tok i = halt Stop.asserted

-- What is added to a variable: the second match is for a minus again.
unfoldable pub add_integer : Instruction → Asm Instruction
add_integer i = do
  neg ← matches (TokenKind.minus ∷ [])
  if neg then pure true else matches (TokenKind.minus ∷ [])
  tok ← consume TokenKind.integer
  v ← int_of tok
  pure (record i { ims = integer_size v; ii = (i.ii + signed neg v) % u64_mod })

-- An argument that names no register.
unfoldable pub symbol_argument : Bool → ℕ → Token → Instruction → Asm Instruction
symbol_argument size_op pos tok i = do
  v ← (if size_op then get_variable_size tok.range else add_symbol_reference pos tok.range true)
  more ← checks (TokenKind.plus ∷ TokenKind.minus ∷ [])
  i' ← pure (record i { rmd = 1; ims = if v == 0 then 2 else integer_size v; ii = v })
  if ltb 0 v && more then add_integer i' else pure i'

-- An argument that names a register.
unfoldable pub register_argument : Bool → Token → Instruction → Asm Instruction
register_argument size_op tok i =
    if size_op
    then (do next ← current; asserted (extend tok.range next.range); fail)
    else pure (record i { rmd = 0 })

-- The cases `tokHash` and `tokIdentifier` of an effective address.
unfoldable pub named_offset : Bool → TokenKind → ℕ → Token → Instruction → Asm Instruction
named_offset size_op sign pos tok i = if is_sign sign then fail else (do
  v ← (if size_op then get_variable_size tok.range else add_symbol_reference pos tok.range false)
  pure (record i { ims = 3; ii = (i.ii + v) % u64_mod }))

-- The switch on an effective address, of the kind of its token.
unfoldable pub offset_value :
    TokenKind → Bool → TokenKind → Bool → ℕ → Token → Instruction → Asm Instruction
offset_value TokenKind.integer size_op sign neg pos tok i = do
  v ← int_of tok
  pure (record i { ims = integer_size v; ii = (i.ii + signed neg v) % u64_mod })
offset_value TokenKind.hash size_op sign neg pos tok i = do
  ok ← checks (TokenKind.identifier ∷ [])
  if ok then named_offset true sign pos tok i else fail
offset_value TokenKind.identifier size_op sign neg pos tok i = named_offset size_op sign pos tok i
offset_value k size_op sign neg pos tok i = error >> pure i

-- An effective address, behind its comma.
unfoldable pub parse_offset : Bool → ℕ → Instruction → Asm Instruction
parse_offset size_op pos i = do
  (sign, neg) ← parse_sign
  tok ← advance
  i' ← offset_value tok.kind size_op sign neg pos tok i
  pure (record i' { iea = 1 })

-- The branch for an identifier: the register, and the instruction.
unfoldable pub name_argument :
    Bool → Bool → TokenKind → Bool → ℕ → Token → Instruction → Asm (ℕ × Instruction)
name_argument is_mem is_rb sign size_op pos tok i = if is_sign sign then fail else (do
  name ← view tok.range
  i' ←
      (if get_register name == reg_count
        then symbol_argument size_op pos tok i
        else register_argument size_op tok i)
  offset ← (if is_mem && is_rb then matches (TokenKind.comma ∷ []) else pure false)
  i'' ← (if offset then parse_offset size_op pos i' else pure i')
  pure (if get_register name == reg_count then 0 else get_register name, i''))

abbrev pub is_identifier : TokenKind → Bool
is_identifier TokenKind.identifier = true
is_identifier k = false

abbrev pub argument_kinds : List TokenKind
argument_kinds =
    TokenKind.integer ∷ TokenKind.char ∷ TokenKind.float ∷ TokenKind.identifier ∷ TokenKind.hash
    ∷ []

-- The part of `Assembler_parse_instruction_arg` behind its first tokens.
unfoldable pub argument_value : Bool → Bool → TokenKind → Bool → Instruction → Asm (ℕ × Instruction)
argument_value is_mem is_rb sign neg i = do
  size_op ← matches (TokenKind.hash ∷ [])
  pos ← gets (λ s. length s.instructions)
  tok ← advance
  if is_identifier tok.kind
      then name_argument is_mem is_rb sign size_op pos tok i
      else (immediate_argument tok.kind neg tok i >>= λ i'. pure (0, i'))

-- `Assembler_parse_instruction_arg`: whether the argument is in memory, the register, and the
-- instruction.
unfoldable pub parse_instruction_arg : Instruction → Bool → Asm (Bool × ℕ × Instruction)
parse_instruction_arg i is_rb = do
  is_mem ← matches (TokenKind.left_bracket ∷ [])
  (sign, neg) ← parse_sign
  ok ← checks argument_kinds
  (if ok then pure true else fail)
  (reg, i') ← argument_value is_mem is_rb sign neg i
  (if is_mem then (consume TokenKind.right_bracket >> pure true) else pure true)
  pure (is_mem, reg, i')
