-- ===== src/Lexer/Moves/Next.antt =====
-- How far `Lexer_next` (src/compiler/common/lexer.c) moves.
use cyntatic.Prelude.{
  ℕ, zero, suc, ◌+◌, ◌-◌, ◌≤◌, ◌<◌, ◌≡◌, ◌⊎◌, refl, sym, ap, inl, inr, true, false, Bool-cases, ◌*◌,
  ◌∙◌, arith, if◌then◌else◌, length,
}
use mathlib.Core.Path.{subst}
use cyntatic.Token.{TokenKind, Token}
use cyntatic.Lexer.State.{Lexer, Result, ok, stop, pure, update_token}
use cyntatic.Lexer.Tokenize.{tokenize}
use cyntatic.Lexer.Next.{
  is_count, space_fuel, zero_token, next_from, next_once, next_fuel, next_token,
}
use cyntatic.Lexer.Moves.{
  IsTracked, Ahead, HasQuote, After, Moves, Ahead-trans, Ahead-less, After-if, After-bind,
}
use cyntatic.Lexer.Moves.Scan.{Scanned, tokenize-Moves}
use cyntatic.Lexer.Moves.Space.{fresh-stays, Spaced, space_fuel-Moves}

-- The number of pending tokens.
abbrev pending : Lexer → ℕ
pending lx = if is_count lx.next.kind then 0 else 1

-- The characters that are left, twice, and the pending token.
pub lexer_left : Lexer → ℕ
lexer_left lx = 2 * (length lx.text - lx.idx) + pending lx

pub lexer_left-bound : (lx : Lexer) → lexer_left lx ≤ 2 * length lx.text + 1
unfolding lexer_left
lexer_left-bound lx = elim (Bool-cases (is_count lx.next.kind)) [
  | inl e ↦ rw e (omega arith)
  | inr e ↦ rw e (omega arith)
]

lexer_left-taken : {a b : Lexer} → IsTracked a → Ahead 1 a b → lexer_left b < lexer_left a
unfolding lexer_left
lexer_left-taken {a} {b} t s =
    let w = ap length s.same_text in
    let m = s.moved in
    let i = s.tracked.0 in
    elim (Bool-cases (is_count b.next.kind)) [
      | inl e ↦ rw e (ground arith)
      | inr e ↦ rw e (ground arith)
    ]

-- The last token: a kind that is not stored in it.
abbrev pub IsLast : TokenKind × Token → Type 0
IsLast r = (is_count r.0 ≡ false) × (is_count r.1.kind ≡ true)

-- What a call of `Lexer_next` without its call of itself comes to: the last token, the pending one, or
-- one character at least.
abbrev Once : Lexer → TokenKind × Token → Lexer → Type 0
Once lx r b =
    (IsLast r × Ahead 0 lx b × (b.next ≡ lx.next))
    ⊎ ((is_count r.0 ≡ false) × Ahead 0 lx b × (lexer_left b < lexer_left lx))
    ⊎ Ahead 1 lx b

-- Taking the pending token.
pending_taken :
    (lx : Lexer)
    → is_count lx.next.kind ≡ false
    → lexer_left (record lx { next = record lx.next { kind = TokenKind.count } }) < lexer_left lx
unfolding lexer_left
pending_taken lx h = rw h (omega arith)

lexer_left-kept : {a b : Lexer} → Ahead 0 a b → b.next ≡ a.next → lexer_left b ≤ lexer_left a
unfolding lexer_left
lexer_left-kept {a} {b} s e =
    let w = ap length s.same_text in
    let m = s.moved in
    let p : pending b ≡ pending a = ap (λ (t : Token). if is_count t.kind then 0 else 1) e in
    omega arith

tokenized :
    (tok : Token) (a b : Lexer) (r : Result (TokenKind × Token))
    → Ahead 0 a b
    → is_count tok.kind ≡ true
    → ((b.next ≡ a.next) ⊎ Ahead 1 a b)
    → After b.text (Scanned tok b) r
    → After a.text (Once a) r
tokenized tok a b (ok x d) s e (inl n) (inl (k, same, stay)) = inl (
  (ap is_count k, ap (λ (t : Token). is_count t.kind) same ∙ e),
  subst (Ahead 0 a) (sym stay) s,
  ap (λ (l : Lexer). l.next) stay ∙ n,
)
tokenized tok a b (ok x d) s e (inr far) (inl (k, same, stay)) =
    inr (inr (subst (Ahead 1 a) (sym stay) far))
tokenized tok a b (ok x d) s e o (inr s') =
    inr (inr (Ahead-less 1 (omega arith) (Ahead-trans s s')))
tokenized tok a b (stop e) s c o h = λ e'. subst HasQuote s.same_text (h e')

Spaced-Moves :
    (tok : Token) (r : TokenKind × Token) (a b : Lexer)
    → IsTracked a
    → is_count tok.kind ≡ true
    → Spaced tok a r b
    → After a.text (Once a) ((if is_count r.0 then tokenize r.1 else pure r) b)
Spaced-Moves tok r a b t c (s, k, inl (same, n)) =
    let at : is_count r.0 ≡ true = ap is_count k ∙ ap (λ (t : Token). is_count t.kind) same ∙ c in
    let at' : is_count r.1.kind ≡ true = ap (λ (t : Token). is_count t.kind) same ∙ c in
    After-if _ _ _ _ b (is_count r.0)
      (λ h. tokenized r.1 a b _ s at' (inl n) (tokenize-Moves r.1 b s.tracked)) (λ h. absurd (cc))
Spaced-Moves tok r a b t c (s, k, inr far) =
    After-if _ _ _ _ b (is_count r.0)
      (λ h.
        tokenized r.1 a b _ s (ap is_count (sym k) ∙ h) (inr far) (tokenize-Moves r.1 b s.tracked))
      (λ h. inr (inr far))

next_from-Moves :
    (tok : Token) (lx : Lexer)
    → IsTracked lx
    → is_count tok.kind ≡ true
    → After lx.text (Once lx) (next_from tok lx)
unfolding next_from
next_from-Moves tok lx t c =
    After-if _ _ _ _ lx (is_count lx.next.kind)
      (λ h.
        After-bind _ (Spaced tok lx) _ _ (space_fuel (length lx.text - lx.idx) tok lx)
          (space_fuel-Moves _ tok lx t (let i = t.0 in omega arith))
          (λ r b s. Spaced-Moves tok r lx b t c s))
      (λ h. inr (
        inl (h, record { same_text = refl; moved = omega arith; tracked = t }, pending_taken lx h)))

next_once-Moves : (lx : Lexer) → IsTracked lx → After lx.text (Once lx) (next_once lx)
unfolding next_once
next_once-Moves lx t =
    After-bind _ (λ r b. (b ≡ lx) × (is_count r.1.kind ≡ true)) _ _
      (update_token zero_token TokenKind.count lx.idx lx.idx lx.pos lx) (fresh-stays lx)
      (λ r b e.
        subst (λ d. After lx.text (Once lx) (next_from r.1 d)) (sym e.0)
          (next_from-Moves r.1 lx t e.1))

-- How far a call moves: it takes a part of what is left, or what it returns is the last token.
abbrev pub Progress : Lexer → TokenKind × Token → Lexer → Type 0
Progress lx r b =
    Ahead 0 lx b
    × (((is_count r.1.kind ≡ true) × (lexer_left b ≤ lexer_left lx))
        ⊎ (lexer_left b < lexer_left lx))

Progress-from :
    (a b : Lexer) (r : Result (TokenKind × Token))
    → Ahead 0 a b
    → lexer_left b < lexer_left a
    → After b.text (Progress b) r
    → After a.text (Progress a) r
Progress-from a b (ok x d) s less (s', inl (k, le)) =
    (Ahead-less 0 (omega arith) (Ahead-trans s s'), inr (omega arith))
Progress-from a b (ok x d) s less (s', inr lt) =
    (Ahead-less 0 (omega arith) (Ahead-trans s s'), inr (omega arith))
Progress-from a b (stop e) s less h = λ e'. subst HasQuote s.same_text (h e')

-- What follows the call, with one round less.
next_more :
    (n : ℕ) (lx : Lexer)
    → IsTracked lx
    → length lx.text < lx.idx + suc n
    → ((b : Lexer)
        → IsTracked b
        → length b.text < b.idx + n
        → After b.text (Progress b) (next_fuel n b))
    → (r : TokenKind × Token) (b : Lexer) → Once lx r b
    → After lx.text (Progress lx) ((if is_count r.0 then next_fuel n else pure r) b)
next_more n lx t lt rest r b (inl ((e, k), s, same)) =
    After-if _ _ _ _ b (is_count r.0) (λ h. absurd (cc)) (λ h. (s, inl (k, lexer_left-kept s same)))
next_more n lx t lt rest r b (inr (inl (e, s, less))) =
    After-if _ _ _ _ b (is_count r.0) (λ h. absurd (cc)) (λ h. (s, inr less))
next_more n lx t lt rest r b (inr (inr s)) =
    After-if _ _ _ _ b (is_count r.0)
      (λ h.
        Progress-from lx b _ (Ahead-less 0 (omega arith) s) (lexer_left-taken t s)
          (rest b s.tracked (let m = s.moved in let w = ap length s.same_text in omega arith)))
      (λ h. (Ahead-less 0 (omega arith) s, inr (lexer_left-taken t s)))

next_fuel-Moves :
    (n : ℕ) (lx : Lexer)
    → IsTracked lx
    → length lx.text < lx.idx + n
    → After lx.text (Progress lx) (next_fuel n lx)
unfolding next_fuel
next_fuel-Moves zero lx t lt = absurd (let i = t.0 in omega arith)
next_fuel-Moves (suc n) lx t lt =
    After-bind _ (Once lx) _ _ (next_once lx) (next_once-Moves lx t)
      (λ r b o. next_more n lx t lt (next_fuel-Moves n) r b o)

-- `Lexer_next` takes a part of what is left of the text, or is at its end.
pub next_token-Progress : (lx : Lexer) → IsTracked lx → After lx.text (Progress lx) (next_token lx)
unfolding next_token
next_token-Progress lx t = next_fuel-Moves (suc (length lx.text)) lx t (omega arith)

forget-Progress :
    (lx : Lexer) (r : Result (TokenKind × Token))
    → After lx.text (Progress lx) r
    → After lx.text (λ x b. Ahead 0 lx b) r
forget-Progress lx (ok x b) h = h.0
forget-Progress lx (stop e) h = h

-- `Lexer_next` goes forward, keeps track, and ends where the text has no single quote.
pub next_token-Moves : Moves 0 next_token
next_token-Moves lx t = forget-Progress lx _ (next_token-Progress lx t)
