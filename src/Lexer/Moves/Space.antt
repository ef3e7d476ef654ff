-- ===== src/Lexer/Moves/Space.antt =====
-- How far the loop of `Lexer_next` over spaces (src/compiler/common/lexer.c) moves.
use cyntatic.Prelude.{
  ℕ, zero, suc, ◌+◌, ◌≤◌, ◌≡◌, ◌⊎◌, refl, sym, inl, inr, true, arith, ◌==◌, ◌&&◌, length,
  Option-cases,
}
use mathlib.Core.Path.{subst}
use cyntatic.Source.{range_update}
use cyntatic.Token.{TokenKind, Token}
use cyntatic.Lexer.State.{Lexer, Result, ok, stop, char_at, line_break, update_token, update_pos}
use cyntatic.Lexer.Next.{is_count, is_space, space_token, space_fuel, zero_token}
use cyntatic.Lexer.Moves.{
  IsTracked, Ahead, HasQuote, After, Ahead-trans, Ahead-refl, Ahead-less, After-if, After-bind,
}
use cyntatic.Lexer.Moves.Cursor.{pass-Ahead}

-- Making a token leaves the lexer as it is.
update_token-stays :
    (tok : Token) (kind : TokenKind) (s : ℕ) (lx : Lexer)
    → After lx.text (λ r b. b ≡ lx) (update_token tok kind s s lx.pos lx)
unfolding update_token
update_token-stays tok kind s lx = elim (Option-cases (range_update lx.source s s lx.pos)) [
  | inl e ↦ rw (After, e) (λ h. absurd (cc))
  | inr (r, e) ↦ rw (After, e) refl
]

pub fresh-stays :
    (lx : Lexer)
    → After lx.text
        (λ r b. (b ≡ lx) × (is_count r.1.kind ≡ true))
        (update_token zero_token TokenKind.count lx.idx lx.idx lx.pos lx)
unfolding update_token
fresh-stays lx = elim (Option-cases (range_update lx.source lx.idx lx.idx lx.pos)) [
  | inl e ↦ rw (After, e) (λ h. absurd (cc))
  | inr (r, e) ↦ rw (After, e) (refl, refl)
]

space_token-stays :
    (c : ℕ) (tok : Token) (lx : Lexer) → After lx.text (λ r b. b ≡ lx) (space_token c tok lx)
unfolding space_token
space_token-stays c tok lx =
    After-if _ _ _ _ lx (is_count tok.kind && c == line_break)
      (λ h. update_token-stays tok _ lx.idx lx) (λ h. refl)

-- The spaces keep the pending token; a line break among them makes a token.
abbrev pub Spaced : Token → Lexer → TokenKind × Token → Lexer → Type 0
Spaced tok lx r b =
    Ahead 0 lx b × (r.0 ≡ r.1.kind) × (((r.1 ≡ tok) × (b.next ≡ lx.next)) ⊎ Ahead 1 lx b)

Spaced-from :
    (tok tok' : Token) (lx b : Lexer) (r : Result (TokenKind × Token))
    → Ahead 1 lx b
    → After b.text (Spaced tok' b) r
    → After lx.text (Spaced tok lx) r
Spaced-from tok tok' lx b (ok x c) s (h, e, o) =
    let far = Ahead-trans s h in
    (Ahead-less 0 (omega arith) far, e, inr (Ahead-less 1 (omega arith) far))
Spaced-from tok tok' lx b (stop x) s h = λ e. subst HasQuote s.same_text (h e)

pub space_fuel-Moves :
    (n : ℕ) (tok : Token) (lx : Lexer)
    → IsTracked lx
    → lx.idx + n ≤ length lx.text
    → After lx.text (Spaced tok lx) (space_fuel n tok lx)
unfolding space_fuel
space_fuel-Moves zero tok lx t le = (Ahead-refl lx t, refl, inl (refl, refl))
space_fuel-Moves (suc n) tok lx t le =
    let c = char_at lx.text lx.idx in
    let at : Lexer = record lx { pos = update_pos lx.pos c } in
    let s = pass-Ahead lx t (omega arith) in
    After-if _ _ _ _ lx (is_space c)
      (λ h.
        After-bind _ (λ r b. b ≡ at) _ _ (space_token c tok at) (space_token-stays c tok at)
          (λ r b e.
            subst
              (λ d. After lx.text (Spaced tok lx) (space_fuel n r.1 (record d { idx = d.idx + 1 })))
              (sym e)
              (Spaced-from tok r.1 lx _ _ s (space_fuel-Moves n r.1 _ s.tracked (omega arith)))))
      (λ h. (Ahead-refl lx t, refl, inl (refl, refl)))
