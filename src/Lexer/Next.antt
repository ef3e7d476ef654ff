-- ===== src/Lexer/Next.antt =====
-- `Lexer_next`, `Lexer_reset` and `Lexer_init` (src/compiler/common/lexer.c).
use cyntatic.Prelude.{
  ℕ, zero, suc, ◌-◌, Bool, true, false, ◌&&◌, ◌||◌, List, [], ◌==◌, if◌then◌else◌, length,
}
use cyntatic.Token.{TokenKind, TokenValue, Token}
use cyntatic.Lexer.State.{
  Lexer, Conversion, Scan, Stop, pure, halt, peek, mark, ok, line_break, pass_char, next_idx,
  update_token, ◌>>=◌, ◌>>◌,
}
use cyntatic.Lexer.Escape.{between}
use cyntatic.Lexer.Tokenize.{tokenize}

-- The zeroed token.
abbrev pub zero_token : Token
zero_token = record {
  kind = TokenKind.eof;
  value = TokenValue.nothing;
  range = record { source = 0; start = 0; end = 0; coord = record { line = 0; column = 0 } };
}

-- `isspace`.
abbrev pub is_space : ℕ → Bool
is_space c = c == 32 || between 9 13 c

abbrev pub is_count : TokenKind → Bool
is_count TokenKind.count = true
is_count k = false

-- The test in the loop of `Lexer_next` over spaces.
unfoldable pub space_token : ℕ → Token → Scan
space_token c tok = do
  here ← mark
  if is_count tok.kind && c == line_break
      then update_token tok TokenKind.new_line here.at here.at here.coord
      else pure (tok.kind, tok)

-- The loop of `Lexer_next` over spaces, `n` the number of characters left: the first line break makes
-- a token, whose position is that behind the break.
unfoldable pub space_fuel : ℕ → Token → Scan
space_fuel zero tok = pure (tok.kind, tok)
space_fuel (suc n) tok = do
  c ← peek 0
  if is_space c
      then (do pass_char c; (kind, tok1) ← space_token c tok; next_idx; space_fuel n tok1)
      else pure (tok.kind, tok)

-- `Lexer_resetNext`, for the token that is pending.
abbrev pub reset_next : Scan
reset_next = λ lx.
    ok (lx.next.kind, lx.next) (record lx { next = record lx.next { kind = TokenKind.count } })

-- `Lexer_next` behind the assignment to `out`, without its call of itself: `count` where
-- `Lexer_tokenize` made no token.
unfoldable pub next_from : Token → Scan
next_from fresh = do
  pending ← (λ lx. ok lx.next.kind lx)
  if is_count pending
      then (do
        (kind, spaced) ← (λ lx. space_fuel (length lx.text - lx.idx) fresh lx)
        if is_count kind then tokenize spaced else pure (kind, spaced))
      else reset_next

-- A call of `Lexer_next` without its call of itself.
unfoldable pub next_once : Scan
next_once = do
  here ← mark
  (kind, fresh) ← update_token zero_token TokenKind.count here.at here.at here.coord
  next_from fresh

-- `Lexer_next`, on fuel.
unfoldable pub next_fuel : ℕ → Scan
next_fuel zero = halt Stop.endless
next_fuel (suc n) = do
  (kind, tok) ← next_once
  if is_count kind then next_fuel n else pure (kind, tok)

-- `Lexer_next`: every call of itself but the last has taken a character.
unfoldable pub next_token : Scan
next_token = λ lx. next_fuel (suc (length lx.text)) lx

-- `Lexer_reset`, which `Lexer_init` ends with.
unfoldable pub reset : ℕ → List ℕ → Lexer → Lexer
reset source text lx = record lx {
  next = record lx.next { kind = TokenKind.count };
  idx = 0;
  source = source;
  text = text;
  in_str = false;
  pos = record { line = 0; column = 0 };
}

-- `Lexer_init`.
unfoldable pub init : ℕ → List ℕ → (List ℕ → Conversion) → Bool → Lexer
init source text strtod erange = reset source text (record {
  text = [];
  source = 0;
  next = zero_token;
  idx = 0;
  pos = record { line = 0; column = 0 };
  in_str = false;
  erange = erange;
  problems = [];
  strtod = strtod;
})
