-- ===== src/Asm/Ends.antt =====
-- The assembler ends (src/compiler/asm/asm.c): each statement takes a token, and so does the handler of
-- one that throws.
use cyntatic.Prelude.{
  ℕ, zero, suc, ◌+◌, ◌*◌, ◌<◌, ◌≤◌, ◌≡◌, ◌≢◌, inl, inr, refl, sym, ap, ◌∙◌, Bool, false, List, [],
  ◌∷◌, length, if◌then◌else◌, arith, Option-cases,
}
use mathlib.Core.Path.{subst}
use cyntatic.Lexer.State.{Stop, Conversion, char_at}
use cyntatic.Lexer.Next.{init}
use cyntatic.Lexer.Reached.{Reached-IsTracked, start as start_lexer}
use cyntatic.Lexer.Literal.{quote}
use cyntatic.Lexer.Moves.{IsTracked}
use cyntatic.Parser.{TokenParser, Parsed, parsed, stopped, parser_init, at_eof}
use cyntatic.Parser.Progress.{Ends, parser_left-positive, parser_left-bound, parser_init-Ends}
use cyntatic.Asm.State.{Assembler, Outcome, done, thrown, halted, pure, advance, bind}
use cyntatic.Asm.Symbols.{look_up}
use cyntatic.Asm.Assemble.{
  synchronize, is_new_line, statement, try, assemble_loop, token_bound, assemble, finish, define,
  define_all, builtin_variables, set_up, assembler_init, assemble_text,
}
use cyntatic.Asm.Keeps.{Post, Any, Post-bind, Post-if}
use cyntatic.Asm.Keeps.Statement.{statement-Post}
use cyntatic.Asm.Bounds.{try-Post}
use cyntatic.Asm.Low.{
  Low, Low-less, Quoted, Thrown, advance-Post, advanced-Low, advanced-less, start, byte_list-Post,
}

-- `Assembler_synchronize`.
module _ (text : List ℕ) where
  abbrev Left : ℕ → Assembler → Type 0
  Left k s = Low text k s.parser

  lower :
      (k : ℕ) (r : Outcome {0} Unit)
      → Post (Left k) (Left 0) (Quoted text) Any r
      → Post (Left (suc k)) (Left 0) (Quoted text) Any r
  lower k (done a s) h = (_, Low-less (suc k) (omega arith) h.1)
  lower k (thrown s) h = h
  lower k (halted e) h = h

  -- A round of its loop behind the advance.
  synchronize_rest :
      (k fuel : ℕ) (a : Assembler)
      → Left (suc k) a
      → (at_eof a.parser ≡ false → Post (Left k) (Left 0) (Quoted text) Any (synchronize fuel a))
      → Post (Left (suc k)) (Left 0) (Quoted text) Any (
          (if is_new_line a.parser.prev.kind
              then pure _
              else if at_eof a.parser
              then pure _
              else synchronize fuel)
            a)
  synchronize_rest k fuel a low rest =
      Post-if (Left (suc k)) (Left 0) (Quoted text) {A = Unit {0}} Any (pure _) _ a
        (is_new_line a.parser.prev.kind) (λ e. (_, low))
        (λ e.
          Post-if (Left (suc k)) (Left 0) (Quoted text) {A = Unit {0}} Any (pure _)
            (synchronize fuel) a (at_eof a.parser) (λ e'. (_, low))
            (λ e'. lower k (synchronize fuel a) (rest e')))

  -- From a place before the end.
  synchronize-more :
      (k fuel : ℕ) (s : Assembler)
      → k ≤ fuel
      → Left (suc k) s
      → at_eof s.parser ≡ false
      → Post (Left k) (Left 0) (Quoted text) Any (synchronize fuel s)
  unfolding synchronize
  synchronize-more zero fuel s le low e =
      absurd (let b = low.below in omega (arith, parser_left-positive s.parser e))
  synchronize-more (suc k) zero s le low e = absurd (omega arith)
  synchronize-more (suc k) (suc fuel) s le low e =
      Post-bind (Left (suc k)) (Left 0) (Quoted text) (Left (suc k)) Any Any _ (advance s)
        (advance-Post text (Left 0) (Left (suc k)) (suc (suc k)) s low
          (λ p a. advanced-less (suc k) s.parser p low e a))
        (λ tok a u ha.
          synchronize_rest k fuel a ha (λ t. synchronize-more k fuel a (omega arith) ha t))

  -- From where a statement throws.
  synchronize-Post :
      (k n fuel : ℕ) (s : Assembler)
      → k < fuel
      → Thrown text k n s
      → Post (Left k) (Left 0) (Quoted text) Any (synchronize fuel s)
  unfolding synchronize
  synchronize-Post k n fuel s lt (inr (low, e)) = synchronize-more k fuel s (omega arith) low e
  synchronize-Post k n zero s lt (inl low) = absurd (omega arith)
  synchronize-Post zero n (suc fuel) s lt (inl low) = absurd (let b = low.below in omega arith)
  synchronize-Post (suc k) n (suc fuel) s lt (inl low) =
      Post-bind (Left (suc k)) (Left 0) (Quoted text) (Left (suc k)) Any Any _ (advance s)
        (advance-Post text (Left 0) (Left (suc k)) (suc k) s low
          (λ p a. advanced-Low s.parser p low a))
        (λ tok a u ha.
          synchronize_rest k fuel a ha (λ t. synchronize-more k fuel a (omega arith) ha t))

  -- The loop of `Assembler_assemble`.
  assemble_loop-Post :
      (tokens k fuel : ℕ) (s : Assembler)
      → k < tokens
      → k < fuel
      → Left (suc k) s
      → Post (Left (suc k)) (Left 0) (Quoted text) Any (assemble_loop tokens fuel s)
  unfolding assemble_loop
  assemble_loop-Post tokens k zero s lt lt' low = absurd (omega arith)
  assemble_loop-Post tokens zero (suc fuel) s lt lt' low =
      Post-if (Left 1) (Left 0) (Quoted text) {A = Unit {0}} Any (pure _) _ s (at_eof s.parser)
        (λ e. (_, low))
        (λ e. absurd (let b = low.below in omega (arith, parser_left-positive s.parser e)))
  assemble_loop-Post tokens (suc k) (suc fuel) s lt lt' low =
      Post-if (Left (suc (suc k))) (Left 0) (Quoted text) {A = Unit {0}} Any (pure _) _ s
        (at_eof s.parser) (λ e. (_, low))
        (λ e.
          let n = length s.instructions in
          Post-bind (Left (suc (suc k))) (Left 0) (Quoted text) (Left (suc k)) Any Any _
            (try (statement tokens) (synchronize tokens) s)
            (try-Post (Left (suc k)) (Thrown text (suc k) n) (Left 0) (Quoted text)
              (statement tokens) (synchronize tokens) s
              (statement-Post _ _ _ (Left (suc k)) (Thrown text (suc k) n) (Quoted text) n
                (start text (suc k) n) tokens
                (λ a. byte_list-Post text (suc k) n (suc k) tokens 0 (omega arith) (omega arith) a)
                s (low, e, refl))
              (λ a ha. synchronize-Post (suc k) n tokens a lt ha))
            (λ x a u ha.
              lower (suc k) _ (assemble_loop-Post tokens k fuel a (omega arith) (omega arith) ha)))

bound_Low :
    (s : Assembler)
    → IsTracked s.parser.lexer
    → Low s.parser.lexer.text (suc (2 * length s.parser.lexer.text + 4)) s.parser
bound_Low s t = record {
  same_text = refl;
  tracked = t;
  below = omega (arith, parser_left-bound s.parser);
}

-- The end of the program behind a part.
abbrev Ended {ℓ} : {A : Type ℓ} → (Stop → Type 0) → Outcome A → Type 0
Ended H (done a s) = Unit
Ended H (thrown s) = ⊥
Ended H (halted e) = H e

then_finish :
    (text : List ℕ) (r : Outcome {0} Unit)
    → Post (Left text (suc (2 * length text + 4))) (Left text 0) (Quoted text) Any r
    → Ended (Quoted text) (bind r (λ u s. done (finish s) s))
then_finish text (done a s) h = _
then_finish text (thrown s) h = omega (arith, h.below)
then_finish text (halted e) h = h

-- From every state whose lexer keeps track of its place in a text without single quotes,
-- `Assembler_assemble` neither runs out of fuel in a loop nor leaves an exception uncaught.
pub assemble-ends :
    (s : Assembler)
    → IsTracked s.parser.lexer
    → ((i : ℕ) → char_at s.parser.lexer.text i ≢ quote)
    → (assemble s ≢ halted Stop.endless) × ((a : Assembler) → assemble s ≢ thrown a)
unfolding assemble
assemble-ends s t no_quote =
    let text = s.parser.lexer.text in
    let h = then_finish text _ (
      assemble_loop-Post text (token_bound s) (2 * length text + 4) (token_bound s) s (omega arith)
        (omega arith) (bound_Low s t)) in
    (
      λ e. let (i, at) = subst (Ended (Quoted text)) e h refl in no_quote i at,
      λ a e. subst (Ended (Quoted text)) e h,
    )

-- `Assembler_define` leaves the parser.
define_all-parser :
    (p : TokenParser) (H : Stop → Type 0) (l : List (List ℕ × ℕ)) (s : Assembler)
    → H Stop.aborted
    → s.parser ≡ p
    → Post (λ a. a.parser ≡ p) (λ a. ⊥) H Any (define_all l s)
unfolding define_all define
define_all-parser p H [] s a e = (_, e)
define_all-parser p H ((name, value) ∷ l) s a e = elim (Option-cases (look_up s.symbols name)) [
  | inl q ↦ rw (q, Post, bind) (define_all-parser p H l _ a e)
  | inr (sym, q) ↦ rw (q, Post, bind) a
]

no_endless : (text : List ℕ) → Quoted text Stop.aborted
no_endless text e = absurd (cc)

then_assemble :
    (text : List ℕ) (p : TokenParser) (r : Outcome {0} Unit)
    → p.lexer.text ≡ text
    → IsTracked p.lexer
    → ((i : ℕ) → char_at text i ≢ quote)
    → Post (λ a. a.parser ≡ p) (λ a. ⊥) (Quoted text) Any r
    → ((bind r (λ u. assemble)) ≢ halted Stop.endless)
      × ((a : Assembler) → bind r (λ u. assemble) ≢ thrown a)
then_assemble text p (done u s) same t no_quote h =
    let e : s.parser.lexer.text ≡ text = ap (λ (q : TokenParser). q.lexer.text) h.1 ∙ same in
    assemble-ends s (subst (λ (q : TokenParser). IsTracked q.lexer) (sym h.1) t)
      (λ i. subst (λ w. char_at w i ≢ quote) (sym e) (no_quote i))
then_assemble text p (thrown s) same t no_quote h = absurd h
then_assemble text p (halted x) same t no_quote h =
    (λ e. let q : x ≡ Stop.endless = cc in let (i, at) = h q in no_quote i at, λ a e. cc)

initialized :
    (text : List ℕ) (spare : ℕ → ℕ) (r : Parsed {0} Unit)
    → ((i : ℕ) → char_at text i ≢ quote)
    → Ends text (λ u p. (p.lexer.text ≡ text) × IsTracked p.lexer) r
    → ((bind (set_up spare r) (λ u. assemble)) ≢ halted Stop.endless)
      × ((a : Assembler) → bind (set_up spare r) (λ u. assemble) ≢ thrown a)
unfolding set_up
initialized text spare (parsed u p) no_quote (same, t) =
    then_assemble text p _ same t no_quote
      (define_all-parser p (Quoted text) builtin_variables _ (no_endless text) refl)
initialized text spare (stopped x) no_quote h =
    (λ e. let q : x ≡ Stop.endless = cc in let (i, at) = h q in no_quote i at, λ a e. cc)

-- On every text without single quotes, `Assembler_init` and `Assembler_assemble` neither run out of
-- fuel in a loop nor leave an exception uncaught.
pub assemble_text-ends :
    (source : ℕ) (text : List ℕ) (strtod : List ℕ → Conversion) (erange : Bool) (spare : ℕ → ℕ)
    → ((i : ℕ) → char_at text i ≢ quote)
    → (assemble_text (init source text strtod erange) spare ≢ halted Stop.endless)
      × ((a : Assembler) → assemble_text (init source text strtod erange) spare ≢ thrown a)
unfolding assemble_text assembler_init
assemble_text-ends source text strtod erange spare no_quote =
    let lx = init source text strtod erange in
    let (same, t) =
      Reached-IsTracked {source = source} {text = text} {strtod = strtod} {erange = erange}
        {lx = lx} start_lexer in
    initialized text spare (parser_init lx) no_quote (
      subst (λ w. Ends w (λ u p. (p.lexer.text ≡ w) × IsTracked p.lexer) (parser_init lx)) same
        (parser_init-Ends lx t))
