-- ===== src/Parser/Progress.antt =====
-- The calls of the token parser take a part of what is left of the text (src/compiler/common/itp.c).
use cyntatic.Prelude.{
  ℕ, ◌+◌, ◌≤◌, ◌<◌, ◌≡◌, refl, inl, inr, Bool, true, false, ◌||◌, List, arith, ◌*◌, length,
  if◌then◌else◌, Bool-cases,
}
use cyntatic.Token.{TokenKind, Token}
use cyntatic.Lexer.State.{Lexer, Result, Stop, ok, stop}
use cyntatic.Lexer.Next.{next_token, is_count}
use cyntatic.Lexer.Moves.{IsTracked, HasQuote, After}
use cyntatic.Lexer.Moves.Next.{lexer_left, lexer_left-bound, Progress, next_token-Progress}
use cyntatic.Parser.{
  TokenParser, Parsed, parsed, stopped, is_eof, at_eof, with_token, started, parser_init,
  parser_advance, parser_peek,
}

-- A result and the parser behind it satisfy `P`; only a text with a single quote runs out of fuel.
abbrev pub Ends {ℓ} : {A : Type ℓ} → List ℕ → (A → TokenParser → Type 0) → Parsed A → Type 0
Ends text P (parsed a p) = P a p
Ends text P (stopped s) = s ≡ Stop.endless → HasQuote text

abbrev token_left : Token → ℕ
token_left tok = if is_count tok.kind then 0 else 1

abbrev here_left : Bool → ℕ
here_left at_end = if at_end then 0 else 1

-- What is left of the text, with the tokens that are read ahead.
pub parser_left : TokenParser → ℕ
parser_left p = lexer_left p.lexer + token_left p.peeked + here_left (at_eof p)

-- Before the end of the text something is left.
pub parser_left-positive : (p : TokenParser) → at_eof p ≡ false → 0 < parser_left p
unfolding parser_left
parser_left-positive p e = rw e (omega arith)

one_token : (b : Bool) → (if b then 0 else 1) ≤ 1
one_token true = omega arith
one_token false = omega arith

pub parser_left-bound : (p : TokenParser) → parser_left p ≤ 2 * length p.lexer.text + 3
unfolding parser_left
parser_left-bound p =
    omega
      (arith, lexer_left-bound p.lexer, one_token (is_count p.peeked.kind), one_token (at_eof p))

-- What an advance comes to.
pub record Advanced (p p' : TokenParser) : Type 0 where
  pub same_text : p'.lexer.text ≡ p.lexer.text
  pub tracked : IsTracked p'.lexer
  pub not_more : parser_left p' ≤ parser_left p
  pub less : at_eof p ≡ false → parser_left p' < parser_left p

-- What is done with a token.
with_token-Ends :
    (lx : Lexer) (P : Token → TokenParser → Type 0) (f : Token → Lexer → Parsed Token)
    → IsTracked lx
    → ((r : TokenKind × Token) (b : Lexer) → Progress lx r b → Ends lx.text P (f r.1 b))
    → Ends lx.text P (with_token (next_token lx) f)
with_token-Ends lx P f t h = go (next_token lx) (next_token-Progress lx t)
  where
    go :
        (r : Result (TokenKind × Token))
        → After lx.text (Progress lx) r
        → Ends lx.text P (with_token r f)
    go (ok r b) g = h r b g
    go (stop e) g = g

next_left :
    (lx b : Lexer) (kind : TokenKind) (tok : Token)
    → Progress lx (kind, tok) b
    → (lexer_left b + token_left tok ≤ lexer_left lx)
next_left lx b kind tok (s, inl (k, le)) = rw k (omega arith)
next_left lx b kind tok (s, inr lt) = ground arith

here_left_lem :
    (lx b : Lexer) (kind : TokenKind) (tok : Token)
    → Progress lx (kind, tok) b
    → (lexer_left b + here_left (is_eof tok.kind || is_count tok.kind) ≤ lexer_left lx)
here_left_lem lx b kind tok (s, inl (k, le)) = elim (Bool-cases (is_eof tok.kind)) [
  | inl e ↦ rw e (omega arith)
  | inr e ↦ rw (e, k) (omega arith)
]
here_left_lem lx b kind tok (s, inr lt) = elim (Bool-cases (is_eof tok.kind || is_count tok.kind)) [
  | inl e ↦ rw e (omega arith)
  | inr e ↦ rw e (omega arith)
]

-- The current token becomes the next one.
stepped :
    (p : TokenParser) (r : TokenKind × Token) (b : Lexer)
    → is_eof p.curr.kind ≡ false
    → Progress p.lexer r b
    → Advanced p (record p { lexer = b; curr = r.1; prev = p.curr })
unfolding parser_left
stepped p r b e g =
    let h = here_left_lem p.lexer b r.0 r.1 g in
    record {
      same_text = g.0.same_text;
      tracked = g.0.tracked;
      not_more = omega arith;
      less = λ here. rw here (omega arith);
    }

-- The token that was read ahead becomes the current one.
taken :
    (p : TokenParser)
    → IsTracked p.lexer
    → is_count p.peeked.kind ≡ false
    → Advanced p (record p {
      curr = p.peeked;
      peeked = record p.peeked { kind = TokenKind.count };
      prev = p.curr;
    })
unfolding parser_left
taken p t e = record {
  same_text = refl;
  tracked = t;
  not_more = elim (Bool-cases (is_eof p.peeked.kind)) [
    | inl h ↦ rw (h, e) (omega arith)
    | inr h ↦ rw (h, e) (omega arith)
  ];
  less = λ here. elim (Bool-cases (is_eof p.peeked.kind)) [
    | inl h ↦ rw (h, e, here) (omega arith)
    | inr h ↦ rw (h, e, here) (omega arith)
  ];
}

-- `ITokenParser_advance` leaves no more of the text, and less before the end of it.
pub parser_advance-Ends :
    (p : TokenParser)
    → IsTracked p.lexer
    → Ends p.lexer.text (λ tok p'. Advanced p p') (parser_advance p)
unfolding parser_advance
parser_advance-Ends p t = elim (Bool-cases (is_eof p.curr.kind)) [
  | inl e ↦ rw e (record {
    same_text = refl;
    tracked = t;
    not_more = omega arith;
    less = λ here. absurd (cc (rw e at here));
  })
  | inr e ↦ rw e (elim (Bool-cases (is_count p.peeked.kind)) [
    | inl k ↦ rw k (with_token-Ends p.lexer _ _ t (λ r b g. stepped p r b e g))
    | inr k ↦ rw k (taken p t k)
  ])
]

-- What a peek comes to: the current token stays.
pub record Peeked (p p' : TokenParser) : Type 0 where
  pub same_text : p'.lexer.text ≡ p.lexer.text
  pub tracked : IsTracked p'.lexer
  pub not_more : parser_left p' ≤ parser_left p
  pub same_token : p'.curr ≡ p.curr

ahead :
    (p : TokenParser) (r : TokenKind × Token) (b : Lexer)
    → is_count p.peeked.kind ≡ true
    → Progress p.lexer r b
    → Peeked p (record p { lexer = b; peeked = r.1 })
unfolding parser_left
ahead p r b k g =
    let h = next_left p.lexer b r.0 r.1 g in
    record {
      same_text = g.0.same_text;
      tracked = g.0.tracked;
      not_more = rw k (omega arith);
      same_token = refl;
    }

unmoved : (p : TokenParser) → IsTracked p.lexer → Peeked p p
unmoved p t = record { same_text = refl; tracked = t; not_more = omega arith; same_token = refl }

-- `ITokenParser_peek` leaves no more of the text, and the current token.
pub parser_peek-Ends :
    (p : TokenParser)
    → IsTracked p.lexer
    → Ends p.lexer.text (λ tok p'. Peeked p p') (parser_peek p)
unfolding parser_peek
parser_peek-Ends p t = elim (Bool-cases (is_eof p.curr.kind)) [
  | inl e ↦ rw e (unmoved p t)
  | inr e ↦ rw e (elim (Bool-cases (is_count p.peeked.kind)) [
    | inl k ↦ rw k (with_token-Ends p.lexer _ _ t (λ r b g. ahead p r b k g))
    | inr k ↦ rw k (unmoved p t)
  ])
]

-- `ITokenParser_init` keeps track of the text.
pub parser_init-Ends :
    (lx : Lexer)
    → IsTracked lx
    → Ends {0} lx.text (λ u p. (p.lexer.text ≡ lx.text) × IsTracked p.lexer) (parser_init lx)
unfolding parser_init
parser_init-Ends lx t = go (next_token lx) (next_token-Progress lx t)
  where
    go :
        (r : Result (TokenKind × Token))
        → After lx.text (Progress lx) r
        → Ends {0} lx.text
            (λ u p. (p.lexer.text ≡ lx.text) × IsTracked p.lexer)
            (with_token r (λ tok lx'. parsed tt (started tok lx')))
    go (ok r b) g = (g.0.same_text, g.0.tracked)
    go (stop e) g = g
