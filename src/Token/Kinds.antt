-- ===== src/Token/Kinds.antt =====
-- The kinds of tokens: `TOKEN_LIST` (include/compiler/common/token.h).
use cyntatic.Prelude.{ℕ, List, [], ◌∷◌}

-- `TokenKind`; `count` is `tokCOUNT`.
pub data TokenKind : Type 0 where
  eof new_line char string integer float identifier comment assign bit_and : TokenKind
  bit_and_assign bit_or bit_or_assign bit_xor bit_xor_assign colon double_colon : TokenKind
  comma complement comp_assign div dot dot_dot elipsis div_assign equal gt gte lt : TokenKind
  lte left_brace right_brace left_bracket right_bracket left_paren right_paren : TokenKind
  logical_and logical_or minus minus_minus minis_assign mult exponent mult_assign : TokenKind
  not neq plus plus_plus plus_assign modulo mod_assign question semicolon sal : TokenKind
  sal_assign sar sar_assign left_arrow right_arrow at hash backquote dollar : TokenKind
  back_slash alingof_kw as_kw auto_kw break_kw case_kw continue_kw const_kw : TokenKind
  else_kw enum_kw extern_kw false_kw for_kw func_kw if_kw imm_kw in_kw inline_kw : TokenKind
  import_kw macro_kw move_kw mut_kw new_kw null_kw return_kw sizeof_kw static_kw : TokenKind
  struct_kw switch_kw this_kw trait_kw true_kw unsafe_kw union_kw using_kw : TokenKind
  while_kw void_kw line_kw column_kw file_expr_kw arg_expr_kw opaque_kw and_kw : TokenKind
  or_kw left_str_expr right_str_expr count : TokenKind

-- All kinds, in the order of the enumeration.
abbrev pub kinds : List TokenKind
kinds =
    TokenKind.eof ∷ TokenKind.new_line ∷ TokenKind.char ∷ TokenKind.string ∷ TokenKind.integer
    ∷ TokenKind.float ∷ TokenKind.identifier ∷ TokenKind.comment ∷ TokenKind.assign
    ∷ TokenKind.bit_and ∷ TokenKind.bit_and_assign ∷ TokenKind.bit_or ∷ TokenKind.bit_or_assign
    ∷ TokenKind.bit_xor ∷ TokenKind.bit_xor_assign ∷ TokenKind.colon ∷ TokenKind.double_colon
    ∷ TokenKind.comma ∷ TokenKind.complement ∷ TokenKind.comp_assign ∷ TokenKind.div ∷ TokenKind.dot
    ∷ TokenKind.dot_dot ∷ TokenKind.elipsis ∷ TokenKind.div_assign ∷ TokenKind.equal ∷ TokenKind.gt
    ∷ TokenKind.gte ∷ TokenKind.lt ∷ TokenKind.lte ∷ TokenKind.left_brace ∷ TokenKind.right_brace
    ∷ TokenKind.left_bracket ∷ TokenKind.right_bracket ∷ TokenKind.left_paren
    ∷ TokenKind.right_paren ∷ TokenKind.logical_and ∷ TokenKind.logical_or ∷ TokenKind.minus
    ∷ TokenKind.minus_minus ∷ TokenKind.minis_assign ∷ TokenKind.mult ∷ TokenKind.exponent
    ∷ TokenKind.mult_assign ∷ TokenKind.not ∷ TokenKind.neq ∷ TokenKind.plus ∷ TokenKind.plus_plus
    ∷ TokenKind.plus_assign ∷ TokenKind.modulo ∷ TokenKind.mod_assign ∷ TokenKind.question
    ∷ TokenKind.semicolon ∷ TokenKind.sal ∷ TokenKind.sal_assign ∷ TokenKind.sar
    ∷ TokenKind.sar_assign ∷ TokenKind.left_arrow ∷ TokenKind.right_arrow ∷ TokenKind.at
    ∷ TokenKind.hash ∷ TokenKind.backquote ∷ TokenKind.dollar ∷ TokenKind.back_slash
    ∷ TokenKind.alingof_kw ∷ TokenKind.as_kw ∷ TokenKind.auto_kw ∷ TokenKind.break_kw
    ∷ TokenKind.case_kw ∷ TokenKind.continue_kw ∷ TokenKind.const_kw ∷ TokenKind.else_kw
    ∷ TokenKind.enum_kw ∷ TokenKind.extern_kw ∷ TokenKind.false_kw ∷ TokenKind.for_kw
    ∷ TokenKind.func_kw ∷ TokenKind.if_kw ∷ TokenKind.imm_kw ∷ TokenKind.in_kw ∷ TokenKind.inline_kw
    ∷ TokenKind.import_kw ∷ TokenKind.macro_kw ∷ TokenKind.move_kw ∷ TokenKind.mut_kw
    ∷ TokenKind.new_kw ∷ TokenKind.null_kw ∷ TokenKind.return_kw ∷ TokenKind.sizeof_kw
    ∷ TokenKind.static_kw ∷ TokenKind.struct_kw ∷ TokenKind.switch_kw ∷ TokenKind.this_kw
    ∷ TokenKind.trait_kw ∷ TokenKind.true_kw ∷ TokenKind.unsafe_kw ∷ TokenKind.union_kw
    ∷ TokenKind.using_kw ∷ TokenKind.while_kw ∷ TokenKind.void_kw ∷ TokenKind.line_kw
    ∷ TokenKind.column_kw ∷ TokenKind.file_expr_kw ∷ TokenKind.arg_expr_kw ∷ TokenKind.opaque_kw
    ∷ TokenKind.and_kw ∷ TokenKind.or_kw ∷ TokenKind.left_str_expr ∷ TokenKind.right_str_expr
    ∷ TokenKind.count ∷ []

-- The number of a kind.
unfoldable pub ordinal : TokenKind → ℕ
ordinal TokenKind.eof = 0
ordinal TokenKind.new_line = 1
ordinal TokenKind.char = 2
ordinal TokenKind.string = 3
ordinal TokenKind.integer = 4
ordinal TokenKind.float = 5
ordinal TokenKind.identifier = 6
ordinal TokenKind.comment = 7
ordinal TokenKind.assign = 8
ordinal TokenKind.bit_and = 9
ordinal TokenKind.bit_and_assign = 10
ordinal TokenKind.bit_or = 11
ordinal TokenKind.bit_or_assign = 12
ordinal TokenKind.bit_xor = 13
ordinal TokenKind.bit_xor_assign = 14
ordinal TokenKind.colon = 15
ordinal TokenKind.double_colon = 16
ordinal TokenKind.comma = 17
ordinal TokenKind.complement = 18
ordinal TokenKind.comp_assign = 19
ordinal TokenKind.div = 20
ordinal TokenKind.dot = 21
ordinal TokenKind.dot_dot = 22
ordinal TokenKind.elipsis = 23
ordinal TokenKind.div_assign = 24
ordinal TokenKind.equal = 25
ordinal TokenKind.gt = 26
ordinal TokenKind.gte = 27
ordinal TokenKind.lt = 28
ordinal TokenKind.lte = 29
ordinal TokenKind.left_brace = 30
ordinal TokenKind.right_brace = 31
ordinal TokenKind.left_bracket = 32
ordinal TokenKind.right_bracket = 33
ordinal TokenKind.left_paren = 34
ordinal TokenKind.right_paren = 35
ordinal TokenKind.logical_and = 36
ordinal TokenKind.logical_or = 37
ordinal TokenKind.minus = 38
ordinal TokenKind.minus_minus = 39
ordinal TokenKind.minis_assign = 40
ordinal TokenKind.mult = 41
ordinal TokenKind.exponent = 42
ordinal TokenKind.mult_assign = 43
ordinal TokenKind.not = 44
ordinal TokenKind.neq = 45
ordinal TokenKind.plus = 46
ordinal TokenKind.plus_plus = 47
ordinal TokenKind.plus_assign = 48
ordinal TokenKind.modulo = 49
ordinal TokenKind.mod_assign = 50
ordinal TokenKind.question = 51
ordinal TokenKind.semicolon = 52
ordinal TokenKind.sal = 53
ordinal TokenKind.sal_assign = 54
ordinal TokenKind.sar = 55
ordinal TokenKind.sar_assign = 56
ordinal TokenKind.left_arrow = 57
ordinal TokenKind.right_arrow = 58
ordinal TokenKind.at = 59
ordinal TokenKind.hash = 60
ordinal TokenKind.backquote = 61
ordinal TokenKind.dollar = 62
ordinal TokenKind.back_slash = 63
ordinal TokenKind.alingof_kw = 64
ordinal TokenKind.as_kw = 65
ordinal TokenKind.auto_kw = 66
ordinal TokenKind.break_kw = 67
ordinal TokenKind.case_kw = 68
ordinal TokenKind.continue_kw = 69
ordinal TokenKind.const_kw = 70
ordinal TokenKind.else_kw = 71
ordinal TokenKind.enum_kw = 72
ordinal TokenKind.extern_kw = 73
ordinal TokenKind.false_kw = 74
ordinal TokenKind.for_kw = 75
ordinal TokenKind.func_kw = 76
ordinal TokenKind.if_kw = 77
ordinal TokenKind.imm_kw = 78
ordinal TokenKind.in_kw = 79
ordinal TokenKind.inline_kw = 80
ordinal TokenKind.import_kw = 81
ordinal TokenKind.macro_kw = 82
ordinal TokenKind.move_kw = 83
ordinal TokenKind.mut_kw = 84
ordinal TokenKind.new_kw = 85
ordinal TokenKind.null_kw = 86
ordinal TokenKind.return_kw = 87
ordinal TokenKind.sizeof_kw = 88
ordinal TokenKind.static_kw = 89
ordinal TokenKind.struct_kw = 90
ordinal TokenKind.switch_kw = 91
ordinal TokenKind.this_kw = 92
ordinal TokenKind.trait_kw = 93
ordinal TokenKind.true_kw = 94
ordinal TokenKind.unsafe_kw = 95
ordinal TokenKind.union_kw = 96
ordinal TokenKind.using_kw = 97
ordinal TokenKind.while_kw = 98
ordinal TokenKind.void_kw = 99
ordinal TokenKind.line_kw = 100
ordinal TokenKind.column_kw = 101
ordinal TokenKind.file_expr_kw = 102
ordinal TokenKind.arg_expr_kw = 103
ordinal TokenKind.opaque_kw = 104
ordinal TokenKind.and_kw = 105
ordinal TokenKind.or_kw = 106
ordinal TokenKind.left_str_expr = 107
ordinal TokenKind.right_str_expr = 108
ordinal TokenKind.count = 109
