-- ===== src/Token.antt =====
-- Tokens (include/compiler/common/token.h, src/compiler/common/token.c): the kinds of `TOKEN_LIST`, the
-- values, and the tests on kinds.
mod Kinds
pub mod Text
unfoldable pub use Kinds.*
use cyntatic.Prelude.{
  ℕ, zero, suc, ◌+◌, Bool, true, false, ◌&&◌, Option, some, none, List, [], ◌∷◌, ◌++◌, leb,
}
use cyntatic.Source.{Range}

-- `TokenValue`: its kind, with the member of the union that it names.
pub data TokenValue : Type 0 where
  nothing : TokenValue
  bool_value : Bool → TokenValue
  char_value : ℕ → TokenValue
  int_value : ℕ → TokenValue
  float_value : ℕ → TokenValue
  string_value : List ℕ → TokenValue

-- `Token`.
pub record Token : Type 0 where
  pub kind : TokenKind
  pub value : TokenValue
  pub range : Range

-- `Token_setBool`, `Token_setChar`, `Token_setInt` and `Token_setString`.
abbrev pub set_value : Token → TokenValue → Token
set_value tok v = record tok { value = v }

-- `Token_setFloat`, on the bits of the number: the kind that it sets is `vkdInt`.
unfoldable pub set_float : Token → ℕ → Token
set_float tok bits = record tok { value = TokenValue.int_value bits }

-- `Token_getBool`; `none` is the failed assertion.
unfoldable pub get_bool : Token → Option Bool
get_bool tok = elim tok.value [ TokenValue.bool_value b ↦ some b | _ ↦ none ]

-- `Token_getChar`.
unfoldable pub get_char : Token → Option ℕ
get_char tok = elim tok.value [ TokenValue.char_value c ↦ some c | _ ↦ none ]

-- `Token_getInt`.
unfoldable pub get_int : Token → Option ℕ
get_int tok = elim tok.value [ TokenValue.int_value n ↦ some n | _ ↦ none ]

-- `Token_getFloat`, the bits of the number.
unfoldable pub get_float : Token → Option ℕ
get_float tok = elim tok.value [ TokenValue.float_value bits ↦ some bits | _ ↦ none ]

-- `Token_getString`.
unfoldable pub get_string : Token → Option (List ℕ)
get_string tok = elim tok.value [ TokenValue.string_value s ↦ some s | _ ↦ none ]

-- `TokenKind_isKeyword`.
unfoldable pub is_keyword : TokenKind → Bool
unfolding ordinal
is_keyword k =
    leb (ordinal TokenKind.alingof_kw) (ordinal k) && leb (ordinal k) (ordinal TokenKind.void_kw)

-- `Token_isBinaryOp`.
unfoldable pub is_binary_op : TokenKind → Bool
is_binary_op TokenKind.plus = true
is_binary_op TokenKind.minus = true
is_binary_op TokenKind.mult = true
is_binary_op TokenKind.div = true
is_binary_op TokenKind.modulo = true
is_binary_op TokenKind.equal = true
is_binary_op TokenKind.neq = true
is_binary_op TokenKind.lt = true
is_binary_op TokenKind.gt = true
is_binary_op TokenKind.lte = true
is_binary_op TokenKind.gte = true
is_binary_op TokenKind.logical_and = true
is_binary_op TokenKind.logical_or = true
is_binary_op TokenKind.bit_and = true
is_binary_op TokenKind.bit_or = true
is_binary_op TokenKind.bit_xor = true
is_binary_op TokenKind.sal = true
is_binary_op TokenKind.sar = true
is_binary_op TokenKind.assign = true
is_binary_op TokenKind.plus_assign = true
is_binary_op TokenKind.minis_assign = true
is_binary_op TokenKind.mult_assign = true
is_binary_op TokenKind.div_assign = true
is_binary_op TokenKind.mod_assign = true
is_binary_op TokenKind.bit_and_assign = true
is_binary_op TokenKind.bit_or_assign = true
is_binary_op TokenKind.bit_xor_assign = true
is_binary_op TokenKind.sal_assign = true
is_binary_op TokenKind.sar_assign = true
is_binary_op k = false

-- `Token_isAssignOp`.
unfoldable pub is_assign_op : TokenKind → Bool
is_assign_op TokenKind.plus_assign = true
is_assign_op TokenKind.minis_assign = true
is_assign_op TokenKind.mult_assign = true
is_assign_op TokenKind.div_assign = true
is_assign_op TokenKind.mod_assign = true
is_assign_op TokenKind.bit_and_assign = true
is_assign_op TokenKind.bit_or_assign = true
is_assign_op TokenKind.bit_xor_assign = true
is_assign_op TokenKind.sal_assign = true
is_assign_op TokenKind.sar_assign = true
is_assign_op k = false

-- `Token_isUnaryOp`.
unfoldable pub is_unary_op : TokenKind → Bool
is_unary_op TokenKind.plus = true
is_unary_op TokenKind.minus = true
is_unary_op TokenKind.not = true
is_unary_op TokenKind.complement = true
is_unary_op TokenKind.minus_minus = true
is_unary_op TokenKind.plus_plus = true
is_unary_op k = false

-- `Token_isLogicalOp`.
unfoldable pub is_logical_op : TokenKind → Bool
is_logical_op TokenKind.equal = true
is_logical_op TokenKind.neq = true
is_logical_op TokenKind.gt = true
is_logical_op TokenKind.gte = true
is_logical_op TokenKind.lt = true
is_logical_op TokenKind.lte = true
is_logical_op TokenKind.logical_and = true
is_logical_op TokenKind.logical_or = true
is_logical_op k = false

-- `Token_isTernaryOp`.
unfoldable pub is_ternary_op : TokenKind → Bool
is_ternary_op TokenKind.question = true
is_ternary_op k = false

-- `Token_isStmtBoundary`.
unfoldable pub is_stmt_boundary : TokenKind → Bool
is_stmt_boundary TokenKind.break_kw = true
is_stmt_boundary TokenKind.case_kw = true
is_stmt_boundary TokenKind.continue_kw = true
is_stmt_boundary TokenKind.else_kw = true
is_stmt_boundary TokenKind.enum_kw = true
is_stmt_boundary TokenKind.extern_kw = true
is_stmt_boundary TokenKind.for_kw = true
is_stmt_boundary TokenKind.func_kw = true
is_stmt_boundary TokenKind.if_kw = true
is_stmt_boundary TokenKind.imm_kw = true
is_stmt_boundary TokenKind.inline_kw = true
is_stmt_boundary TokenKind.import_kw = true
is_stmt_boundary TokenKind.macro_kw = true
is_stmt_boundary TokenKind.return_kw = true
is_stmt_boundary TokenKind.static_kw = true
is_stmt_boundary TokenKind.struct_kw = true
is_stmt_boundary TokenKind.switch_kw = true
is_stmt_boundary TokenKind.trait_kw = true
is_stmt_boundary TokenKind.union_kw = true
is_stmt_boundary TokenKind.using_kw = true
is_stmt_boundary TokenKind.while_kw = true
is_stmt_boundary k = false
