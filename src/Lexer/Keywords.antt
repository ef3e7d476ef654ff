-- ===== src/Lexer/Keywords.antt =====
-- The keywords of the lexer (src/compiler/common/lexer.c): the map that `Lexer_initKeywordsMap` fills.
use cyntatic.Prelude.{ℕ, true, false, Option, some, none, List, [], ◌∷◌}
use cyntatic.Token.{TokenKind}
use cyntatic.Map
use cyntatic.Map.{Base}

-- The entries of `TOKEN_LIST` that are keywords, in its order.
abbrev pub keyword_list : List (List ℕ × TokenKind)
keyword_list =
    (b'a' ∷ b'l' ∷ b'i' ∷ b'g' ∷ b'n' ∷ b'o' ∷ b'f' ∷ [], TokenKind.alingof_kw)
    ∷ (b'a' ∷ b's' ∷ [], TokenKind.as_kw)
    ∷ (b'a' ∷ b'u' ∷ b't' ∷ b'o' ∷ [], TokenKind.auto_kw)
    ∷ (b'b' ∷ b'r' ∷ b'e' ∷ b'a' ∷ b'k' ∷ [], TokenKind.break_kw)
    ∷ (b'c' ∷ b'a' ∷ b's' ∷ b'e' ∷ [], TokenKind.case_kw)
    ∷ (b'c' ∷ b'o' ∷ b'n' ∷ b't' ∷ b'i' ∷ b'n' ∷ b'u' ∷ b'e' ∷ [], TokenKind.continue_kw)
    ∷ (b'c' ∷ b'o' ∷ b'n' ∷ b's' ∷ b't' ∷ [], TokenKind.const_kw)
    ∷ (b'e' ∷ b'l' ∷ b's' ∷ b'e' ∷ [], TokenKind.else_kw)
    ∷ (b'e' ∷ b'n' ∷ b'u' ∷ b'm' ∷ [], TokenKind.enum_kw)
    ∷ (b'e' ∷ b'x' ∷ b't' ∷ b'e' ∷ b'r' ∷ b'n' ∷ [], TokenKind.extern_kw)
    ∷ (b'f' ∷ b'a' ∷ b'l' ∷ b's' ∷ b'e' ∷ [], TokenKind.false_kw)
    ∷ (b'f' ∷ b'o' ∷ b'r' ∷ [], TokenKind.for_kw)
    ∷ (b'f' ∷ b'u' ∷ b'n' ∷ b'c' ∷ [], TokenKind.func_kw)
    ∷ (b'i' ∷ b'f' ∷ [], TokenKind.if_kw)
    ∷ (b'i' ∷ b'u' ∷ [], TokenKind.imm_kw)
    ∷ (b'i' ∷ b'n' ∷ [], TokenKind.in_kw)
    ∷ (b'i' ∷ b'n' ∷ b'l' ∷ b'i' ∷ b'n' ∷ b'e' ∷ [], TokenKind.inline_kw)
    ∷ (b'i' ∷ b'm' ∷ b'p' ∷ b'o' ∷ b'r' ∷ b't' ∷ [], TokenKind.import_kw)
    ∷ (b'm' ∷ b'a' ∷ b'c' ∷ b'r' ∷ b'o' ∷ [], TokenKind.macro_kw)
    ∷ (b'm' ∷ b'o' ∷ b'v' ∷ b'e' ∷ [], TokenKind.move_kw)
    ∷ (b'm' ∷ b'u' ∷ b't' ∷ [], TokenKind.mut_kw)
    ∷ (b'n' ∷ b'e' ∷ b'w' ∷ [], TokenKind.new_kw)
    ∷ (b'n' ∷ b'u' ∷ b'l' ∷ b'l' ∷ [], TokenKind.null_kw)
    ∷ (b'r' ∷ b'e' ∷ b't' ∷ b'u' ∷ b'r' ∷ b'n' ∷ [], TokenKind.return_kw)
    ∷ (b's' ∷ b'i' ∷ b'z' ∷ b'e' ∷ b'o' ∷ b'f' ∷ [], TokenKind.sizeof_kw)
    ∷ (b's' ∷ b't' ∷ b'a' ∷ b't' ∷ b'i' ∷ b'c' ∷ [], TokenKind.static_kw)
    ∷ (b's' ∷ b't' ∷ b'r' ∷ b'u' ∷ b'c' ∷ b't' ∷ [], TokenKind.struct_kw)
    ∷ (b's' ∷ b'w' ∷ b'i' ∷ b't' ∷ b'c' ∷ b'h' ∷ [], TokenKind.switch_kw)
    ∷ (b't' ∷ b'h' ∷ b'i' ∷ b's' ∷ [], TokenKind.this_kw)
    ∷ (b't' ∷ b'r' ∷ b'a' ∷ b'i' ∷ b't' ∷ [], TokenKind.trait_kw)
    ∷ (b't' ∷ b'r' ∷ b'u' ∷ b'e' ∷ [], TokenKind.true_kw)
    ∷ (b'u' ∷ b'n' ∷ b's' ∷ b'a' ∷ b'f' ∷ b'e' ∷ [], TokenKind.unsafe_kw)
    ∷ (b'u' ∷ b'n' ∷ b'i' ∷ b'o' ∷ b'n' ∷ [], TokenKind.union_kw)
    ∷ (b'u' ∷ b's' ∷ b'i' ∷ b'n' ∷ b'g' ∷ [], TokenKind.using_kw)
    ∷ (b'w' ∷ b'h' ∷ b'i' ∷ b'l' ∷ b'e' ∷ [], TokenKind.while_kw)
    ∷ (b'v' ∷ b'o' ∷ b'i' ∷ b'd' ∷ [], TokenKind.void_kw)
    ∷ (b'l' ∷ b'i' ∷ b'n' ∷ b'e' ∷ [], TokenKind.line_kw)
    ∷ (b'c' ∷ b'o' ∷ b'l' ∷ b'u' ∷ b'm' ∷ b'n' ∷ [], TokenKind.column_kw)
    ∷ (b'f' ∷ b'i' ∷ b'l' ∷ b'e' ∷ [], TokenKind.file_expr_kw)
    ∷ (b'a' ∷ b'r' ∷ b'g' ∷ [], TokenKind.arg_expr_kw)
    ∷ (b'o' ∷ b'p' ∷ b'a' ∷ b'q' ∷ b'u' ∷ b'e' ∷ [], TokenKind.opaque_kw)
    ∷ (b'a' ∷ b'n' ∷ b'd' ∷ [], TokenKind.logical_and)
    ∷ (b'o' ∷ b'r' ∷ [], TokenKind.logical_or)
    ∷ []

-- The map with the entries of a list set one after the other; `none` where a call of `Map_set_` fails.
unfoldable pub set_all : List (List ℕ × TokenKind) → Base TokenKind → Option (Base TokenKind)
unfolding Map.set
set_all [] m = some m
set_all ((name, kind) ∷ rest) m = elim (Map.set true true m name kind) [
  | some (true, r) ↦ set_all rest r
  | some (false, r) ↦ none
  | none ↦ none
]

-- `sKeyWordList`, from the zeroed map.
unfoldable pub keywords : Option (Base TokenKind)
unfolding set_all
keywords = set_all keyword_list (record { buckets = λ i. []; bucket_count = 0; node_count = 0 })

-- `Map_ref0(&sKeyWordList, key, length)`.
unfoldable pub find_keyword : List ℕ → Option TokenKind
unfolding keywords Map.get
find_keyword key = elim keywords [ some m ↦ Map.get m key | none ↦ none ]
