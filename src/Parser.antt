-- ===== src/Parser.antt =====
-- The token parser (include/compiler/common/itp.h, src/compiler/common/itp.c), which buffers one token
-- of the lexer.
pub mod Progress
use cyntatic.Prelude.{
  ℕ, ◌≡◌, refl, sym, ap, ◌∙◌, Bool, true, false, ◌||◌, List, [], ◌∷◌, ◌==◌, if◌then◌else◌, if_true,
  if_false,
}
use cyntatic.Token.{TokenKind, Token, ordinal}
use cyntatic.Lexer.State.{Lexer, Result, Stop, ok, stop}
use cyntatic.Lexer.Next.{next_token, is_count, zero_token}

-- `ITokenParser`; the log is that of the lexer, and `peeked` is `peek`.
pub record TokenParser : Type 0 where
  pub lexer : Lexer
  pub curr : Token
  pub peeked : Token
  pub prev : Token

-- How a call ends: with a value, or where the lexer stops.
pub data Parsed {ℓ} (A : Type ℓ) : Type ℓ where
  parsed : A → TokenParser → Parsed A
  stopped : Stop → Parsed A

abbrev pub is_eof : TokenKind → Bool
is_eof TokenKind.eof = true
is_eof k = false

-- `ITP_eof`.
abbrev pub at_eof : TokenParser → Bool
at_eof p = is_eof p.curr.kind || is_count p.curr.kind

-- What a call does with the token of `Lexer_next`.
abbrev pub with_token {ℓ} :
    {A : Type ℓ} → Result (TokenKind × Token) → (Token → Lexer → Parsed A) → Parsed A
with_token (ok r lx) f = f r.1 lx
with_token (stop s) f = stopped s

-- The state that `ITokenParser_init` makes, with the first token.
abbrev pub started : Token → Lexer → TokenParser
started tok lx = record {
  lexer = lx;
  curr = tok;
  peeked = record zero_token { kind = TokenKind.count };
  prev = zero_token;
}

-- `ITokenParser_init`.
unfoldable pub parser_init : Lexer → Parsed {0} Unit
parser_init lx = with_token (next_token lx) (λ tok lx'. parsed _ (started tok lx'))

-- `ITokenParser_advance`: the token it returns.
unfoldable pub parser_advance : TokenParser → Parsed Token
parser_advance p =
    if is_eof p.curr.kind
    then parsed p.curr p
    else if is_count p.peeked.kind
    then with_token (next_token p.lexer)
        (λ tok lx. parsed p.curr (record p { lexer = lx; curr = tok; prev = p.curr }))
    else parsed p.curr (record p {
      curr = p.peeked;
      peeked = record p.peeked { kind = TokenKind.count };
      prev = p.curr;
    })

-- `ITokenParser_peek`.
unfoldable pub parser_peek : TokenParser → Parsed Token
parser_peek p =
    if is_eof p.curr.kind
    then parsed p.curr p
    else if is_count p.peeked.kind
    then with_token (next_token p.lexer)
        (λ tok lx. parsed tok (record p { lexer = lx; peeked = tok }))
    else parsed p.peeked p

-- The loop of `ITokenParser_check_`.
unfoldable pub has_kind : TokenKind → List TokenKind → Bool
has_kind k [] = false
has_kind k (x ∷ kinds) = ordinal x == ordinal k || has_kind k kinds

-- `ITokenParser_check_`.
unfoldable pub check_kinds : TokenParser → List TokenKind → Bool
check_kinds p kinds = if at_eof p then false else has_kind p.curr.kind kinds

-- `ITokenParser_match_`.
unfoldable pub match_kinds : TokenParser → List TokenKind → Parsed Bool
match_kinds p kinds =
    if check_kinds p kinds
    then elim (parser_advance p) [ parsed tok p' ↦ parsed true p' | stopped s ↦ stopped s ]
    else parsed false p
