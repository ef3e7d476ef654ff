-- ===== src/Token/Text.antt =====
-- The text of a kind of token (src/compiler/common/token.c, include/compiler/common/token.h): the
-- strings of `TOKEN_LIST`.
use cyntatic.Prelude.{ℕ, List, [], ◌∷◌}
use cyntatic.Token.Kinds.{TokenKind}

-- `TokenKind_toString`.
unfoldable pub to_string : TokenKind → List ℕ
to_string TokenKind.eof = b'<' ∷ b'e' ∷ b'o' ∷ b'f' ∷ b'>' ∷ []
to_string TokenKind.new_line = b'<' ∷ b'n' ∷ b'l' ∷ b'>' ∷ []
to_string TokenKind.char = b'<' ∷ b'c' ∷ b'h' ∷ b'a' ∷ b'r' ∷ b'>' ∷ []
to_string TokenKind.string = b'<' ∷ b's' ∷ b't' ∷ b'r' ∷ b'i' ∷ b'n' ∷ b'g' ∷ b'>' ∷ []
to_string TokenKind.integer = b'<' ∷ b'i' ∷ b'n' ∷ b't' ∷ b'e' ∷ b'g' ∷ b'e' ∷ b'r' ∷ b'>' ∷ []
to_string TokenKind.float = b'<' ∷ b'f' ∷ b'l' ∷ b'o' ∷ b'a' ∷ b't' ∷ b'>' ∷ []
to_string TokenKind.identifier =
    b'<' ∷ b'i' ∷ b'd' ∷ b'e' ∷ b'n' ∷ b't' ∷ b'i' ∷ b'f' ∷ b'i' ∷ b'e' ∷ b'r' ∷ b'>' ∷ []
to_string TokenKind.comment = b'<' ∷ b'c' ∷ b'o' ∷ b'm' ∷ b'm' ∷ b'e' ∷ b'n' ∷ b't' ∷ b'>' ∷ []
to_string TokenKind.assign = 39 ∷ b'=' ∷ 39 ∷ []
to_string TokenKind.bit_and = 39 ∷ b'&' ∷ 39 ∷ []
to_string TokenKind.bit_and_assign = 39 ∷ b'&' ∷ b'=' ∷ 39 ∷ []
to_string TokenKind.bit_or = 39 ∷ b'|' ∷ 39 ∷ []
to_string TokenKind.bit_or_assign = 39 ∷ b'|' ∷ b'=' ∷ 39 ∷ []
to_string TokenKind.bit_xor = 39 ∷ b'^' ∷ 39 ∷ []
to_string TokenKind.bit_xor_assign = 39 ∷ b'^' ∷ b'=' ∷ 39 ∷ []
to_string TokenKind.colon = 39 ∷ b':' ∷ 39 ∷ []
to_string TokenKind.double_colon = 39 ∷ b':' ∷ b':' ∷ 39 ∷ []
to_string TokenKind.comma = 39 ∷ b',' ∷ 39 ∷ []
to_string TokenKind.complement = 39 ∷ b'~' ∷ 39 ∷ []
to_string TokenKind.comp_assign = 39 ∷ b'~' ∷ b'=' ∷ 39 ∷ []
to_string TokenKind.div = 39 ∷ b'/' ∷ 39 ∷ []
to_string TokenKind.dot = 39 ∷ b'.' ∷ 39 ∷ []
to_string TokenKind.dot_dot = 39 ∷ b'.' ∷ b'.' ∷ 39 ∷ []
to_string TokenKind.elipsis = 39 ∷ b'.' ∷ b'.' ∷ b'.' ∷ []
to_string TokenKind.div_assign = 39 ∷ b'/' ∷ b'=' ∷ 39 ∷ []
to_string TokenKind.equal = 39 ∷ b'=' ∷ b'=' ∷ 39 ∷ []
to_string TokenKind.gt = 39 ∷ b'>' ∷ 39 ∷ []
to_string TokenKind.gte = 39 ∷ b'>' ∷ b'=' ∷ 39 ∷ []
to_string TokenKind.lt = 39 ∷ b'<' ∷ 39 ∷ []
to_string TokenKind.lte = 39 ∷ b'<' ∷ b'=' ∷ 39 ∷ []
to_string TokenKind.left_brace = 39 ∷ b'{' ∷ 39 ∷ []
to_string TokenKind.right_brace = 39 ∷ b'}' ∷ 39 ∷ []
to_string TokenKind.left_bracket = 39 ∷ b'[' ∷ 39 ∷ []
to_string TokenKind.right_bracket = 39 ∷ b']' ∷ 39 ∷ []
to_string TokenKind.left_paren = 39 ∷ b'(' ∷ 39 ∷ []
to_string TokenKind.right_paren = 39 ∷ b')' ∷ 39 ∷ []
to_string TokenKind.logical_and = 39 ∷ b'&' ∷ b'&' ∷ 39 ∷ []
to_string TokenKind.logical_or = 39 ∷ b'|' ∷ b'|' ∷ 39 ∷ []
to_string TokenKind.minus = 39 ∷ b'-' ∷ 39 ∷ []
to_string TokenKind.minus_minus = 39 ∷ b'-' ∷ b'-' ∷ 39 ∷ []
to_string TokenKind.minis_assign = 39 ∷ b'-' ∷ b'=' ∷ 39 ∷ []
to_string TokenKind.mult = 39 ∷ b'*' ∷ 39 ∷ []
to_string TokenKind.exponent = 39 ∷ b'*' ∷ b'*' ∷ 39 ∷ []
to_string TokenKind.mult_assign = 39 ∷ b'*' ∷ b'=' ∷ 39 ∷ []
to_string TokenKind.not = 39 ∷ b'!' ∷ 39 ∷ []
to_string TokenKind.neq = 39 ∷ b'!' ∷ b'=' ∷ 39 ∷ b')' ∷ []
to_string TokenKind.plus = 39 ∷ b'+' ∷ 39 ∷ []
to_string TokenKind.plus_plus = 39 ∷ b'+' ∷ b'+' ∷ 39 ∷ []
to_string TokenKind.plus_assign = 39 ∷ b'+' ∷ b'=' ∷ 39 ∷ []
to_string TokenKind.modulo = 39 ∷ b'%' ∷ 39 ∷ []
to_string TokenKind.mod_assign = 39 ∷ b'%' ∷ b'=' ∷ 39 ∷ []
to_string TokenKind.question = 39 ∷ b'?' ∷ 39 ∷ []
to_string TokenKind.semicolon = 39 ∷ b';' ∷ 39 ∷ []
to_string TokenKind.sal = 39 ∷ b'<' ∷ b'<' ∷ 39 ∷ []
to_string TokenKind.sal_assign = 39 ∷ b'=' ∷ b'<' ∷ b'<' ∷ 39 ∷ []
to_string TokenKind.sar = 39 ∷ b'>' ∷ b'>' ∷ 39 ∷ []
to_string TokenKind.sar_assign = 39 ∷ b'>' ∷ b'>' ∷ b'=' ∷ 39 ∷ []
to_string TokenKind.left_arrow = 39 ∷ b'<' ∷ b'-' ∷ 39 ∷ []
to_string TokenKind.right_arrow = 39 ∷ b'-' ∷ b'>' ∷ 39 ∷ []
to_string TokenKind.at = 39 ∷ b'@' ∷ 39 ∷ []
to_string TokenKind.hash = 39 ∷ b'#' ∷ 39 ∷ []
to_string TokenKind.backquote = 39 ∷ b'`' ∷ []
to_string TokenKind.dollar = 39 ∷ b'$' ∷ 39 ∷ []
to_string TokenKind.back_slash = 39 ∷ 39 ∷ []
to_string TokenKind.alingof_kw = b'a' ∷ b'l' ∷ b'i' ∷ b'g' ∷ b'n' ∷ b'o' ∷ b'f' ∷ []
to_string TokenKind.as_kw = b'a' ∷ b's' ∷ []
to_string TokenKind.auto_kw = b'a' ∷ b'u' ∷ b't' ∷ b'o' ∷ []
to_string TokenKind.break_kw = b'b' ∷ b'r' ∷ b'e' ∷ b'a' ∷ b'k' ∷ []
to_string TokenKind.case_kw = b'c' ∷ b'a' ∷ b's' ∷ b'e' ∷ []
to_string TokenKind.continue_kw = b'c' ∷ b'o' ∷ b'n' ∷ b't' ∷ b'i' ∷ b'n' ∷ b'u' ∷ b'e' ∷ []
to_string TokenKind.const_kw = b'c' ∷ b'o' ∷ b'n' ∷ b's' ∷ b't' ∷ []
to_string TokenKind.else_kw = b'e' ∷ b'l' ∷ b's' ∷ b'e' ∷ []
to_string TokenKind.enum_kw = b'e' ∷ b'n' ∷ b'u' ∷ b'm' ∷ []
to_string TokenKind.extern_kw = b'e' ∷ b'x' ∷ b't' ∷ b'e' ∷ b'r' ∷ b'n' ∷ []
to_string TokenKind.false_kw = b'f' ∷ b'a' ∷ b'l' ∷ b's' ∷ b'e' ∷ []
to_string TokenKind.for_kw = b'f' ∷ b'o' ∷ b'r' ∷ []
to_string TokenKind.func_kw = b'f' ∷ b'u' ∷ b'n' ∷ b'c' ∷ []
to_string TokenKind.if_kw = b'i' ∷ b'f' ∷ []
to_string TokenKind.imm_kw = b'i' ∷ b'u' ∷ []
to_string TokenKind.in_kw = b'i' ∷ b'n' ∷ []
to_string TokenKind.inline_kw = b'i' ∷ b'n' ∷ b'l' ∷ b'i' ∷ b'n' ∷ b'e' ∷ []
to_string TokenKind.import_kw = b'i' ∷ b'm' ∷ b'p' ∷ b'o' ∷ b'r' ∷ b't' ∷ []
to_string TokenKind.macro_kw = b'm' ∷ b'a' ∷ b'c' ∷ b'r' ∷ b'o' ∷ []
to_string TokenKind.move_kw = b'm' ∷ b'o' ∷ b'v' ∷ b'e' ∷ []
to_string TokenKind.mut_kw = b'm' ∷ b'u' ∷ b't' ∷ []
to_string TokenKind.new_kw = b'n' ∷ b'e' ∷ b'w' ∷ []
to_string TokenKind.null_kw = b'n' ∷ b'u' ∷ b'l' ∷ b'l' ∷ []
to_string TokenKind.return_kw = b'r' ∷ b'e' ∷ b't' ∷ b'u' ∷ b'r' ∷ b'n' ∷ []
to_string TokenKind.sizeof_kw = b's' ∷ b'i' ∷ b'z' ∷ b'e' ∷ b'o' ∷ b'f' ∷ []
to_string TokenKind.static_kw = b's' ∷ b't' ∷ b'a' ∷ b't' ∷ b'i' ∷ b'c' ∷ []
to_string TokenKind.struct_kw = b's' ∷ b't' ∷ b'r' ∷ b'u' ∷ b'c' ∷ b't' ∷ []
to_string TokenKind.switch_kw = b's' ∷ b'w' ∷ b'i' ∷ b't' ∷ b'c' ∷ b'h' ∷ []
to_string TokenKind.this_kw = b't' ∷ b'h' ∷ b'i' ∷ b's' ∷ []
to_string TokenKind.trait_kw = b't' ∷ b'r' ∷ b'a' ∷ b'i' ∷ b't' ∷ []
to_string TokenKind.true_kw = b't' ∷ b'r' ∷ b'u' ∷ b'e' ∷ []
to_string TokenKind.unsafe_kw = b'u' ∷ b'n' ∷ b's' ∷ b'a' ∷ b'f' ∷ b'e' ∷ []
to_string TokenKind.union_kw = b'u' ∷ b'n' ∷ b'i' ∷ b'o' ∷ b'n' ∷ []
to_string TokenKind.using_kw = b'u' ∷ b's' ∷ b'i' ∷ b'n' ∷ b'g' ∷ []
to_string TokenKind.while_kw = b'w' ∷ b'h' ∷ b'i' ∷ b'l' ∷ b'e' ∷ []
to_string TokenKind.void_kw = b'v' ∷ b'o' ∷ b'i' ∷ b'd' ∷ []
to_string TokenKind.line_kw = b'@' ∷ b'l' ∷ b'i' ∷ b'n' ∷ b'e' ∷ []
to_string TokenKind.column_kw = b'@' ∷ b'c' ∷ b'o' ∷ b'l' ∷ b'u' ∷ b'm' ∷ b'n' ∷ []
to_string TokenKind.file_expr_kw = b'@' ∷ b'f' ∷ b'i' ∷ b'l' ∷ b'e' ∷ []
to_string TokenKind.arg_expr_kw = b'@' ∷ b'a' ∷ b'r' ∷ b'g' ∷ []
to_string TokenKind.opaque_kw = b'@' ∷ b'o' ∷ b'p' ∷ b'a' ∷ b'q' ∷ b'u' ∷ b'e' ∷ []
to_string TokenKind.and_kw = b'a' ∷ b'n' ∷ b'd' ∷ []
to_string TokenKind.or_kw = b'o' ∷ b'r' ∷ []
to_string TokenKind.left_str_expr =
    39 ∷ b'>' ∷ b's' ∷ b't' ∷ b'r' ∷ b'e' ∷ b'x' ∷ b'p' ∷ b'r' ∷ 39 ∷ []
to_string TokenKind.right_str_expr =
    39 ∷ b'<' ∷ b's' ∷ b't' ∷ b'r' ∷ b'e' ∷ b'x' ∷ b'p' ∷ b'r' ∷ 39 ∷ []
to_string TokenKind.count = b'<' ∷ b'u' ∷ b'n' ∷ b'k' ∷ b'n' ∷ b'o' ∷ b'w' ∷ b'n' ∷ b'>' ∷ []
