-- ===== src/Asm/Throws.antt =====
-- What a statement leaves behind that throws (src/compiler/asm/asm.c).
use cyntatic.Prelude.{
  ℕ, zero, suc, ◌<◌, ◌≤◌, ◌≡◌, ◌⊎◌, inl, inr, refl, ap, true, List, [], ◌∷◌, ◌++◌, length, arith,
}
use mathlib.Core.Path.{subst}
use cyntatic.Parser.{parser_advance, parser_peek, at_eof}
use cyntatic.Vm.Instr.{Instruction}
use cyntatic.Asm.State.{Assembler, done, thrown, pure, advance, peek}
use cyntatic.Asm.Assemble.{synchronize, is_new_line, statement}
use cyntatic.Asm.Keeps.{Post, Any, Law, Post-bind, Post-if}
use cyntatic.Asm.Keeps.Statement.{Start, statement-Post}
use cyntatic.Asm.Bounds.{AnyStop, parsed-Post, byte_list-Keeps}

module _ (is : List Instruction) (k : ℕ) where
  -- The instructions stay, and errors are only added to the log.
  abbrev Same : Assembler → Type 0
  Same s = (s.instructions ≡ is) × (k ≤ s.logged)

  abbrev Failed : Assembler → Type 0
  Failed s = (s.instructions ≡ is) × (k < s.logged)

  -- Behind a statement there is one instruction more at most.
  abbrev Grown : Assembler → Type 0
  Grown s =
      ((s.instructions ≡ is) ⊎ ((i : Instruction) × (s.instructions ≡ is ++ i ∷ [])))
      × (k ≤ s.logged)

  Same-law : Law Same Failed AnyStop
  unfolding advance
  Same-law = record {
    advanced = λ s h. parsed-Post Same Failed AnyStop s (parser_advance s.parser) (λ e. _) (λ p. h);
    failed = λ s h. (h.0, (let l = h.1 in omega arith));
    logs = λ s h. (h.0, (let l = h.1 in omega arith));
    names = λ s ys h. h;
    stores = λ s bs h. h;
    starts = λ s id h. h;
    asserts = _;
  }

  Same-Start : Start Same Same Same Grown Failed AnyStop (length is)
  unfolding peek
  Same-Start = record {
    law = Same-law;
    instruction_law = Same-law;
    patch = record { fixed = λ s h. ap length h.0; patches = λ s name h. h };
    enter = Same-law.advanced;
    enter_instruction = Same-law.advanced;
    look_ahead = λ s h. parsed-Post Same Failed AnyStop s (parser_peek s.parser) (λ e. _) (λ p. h);
    refuse = Same-law.failed;
    leave = λ s h. (inl h.0, h.1);
    push = λ s i h e. (inr (i, ap (λ l. l ++ i ∷ []) h.0), h.1);
  }

  statement-Grown :
      (tokens : ℕ) (s : Assembler) → Same s → Post Grown Failed AnyStop Any (statement tokens s)
  statement-Grown tokens s h =
      statement-Post Same Same Same Grown Failed AnyStop (length is) Same-Start tokens
        (byte_list-Keeps Same Failed Same-law tokens 0) s h

-- Where the handler stops. `logged` counts the errors of the assembler itself, not those of the lexer.
abbrev pub AtBoundary : Assembler → Assembler → Type 0
AtBoundary s a =
    (a.instructions ≡ s.instructions)
    × (a.logged ≡ s.logged)
    × ((is_new_line a.parser.prev.kind ≡ true) ⊎ (at_eof a.parser ≡ true))

abbrev Unchanged : Assembler → Assembler → Type 0
Unchanged s a = (a.instructions ≡ s.instructions) × (a.logged ≡ s.logged)

synchronize-AtBoundary :
    (fuel : ℕ) (s b : Assembler)
    → Unchanged s b
    → Post (AtBoundary s) (λ a. ⊥) AnyStop Any (synchronize fuel b)
unfolding synchronize advance
synchronize-AtBoundary zero s b h = _
synchronize-AtBoundary (suc fuel) s b h =
    Post-bind (AtBoundary s) (λ a. ⊥) AnyStop (Unchanged s) Any Any _ (advance b)
      (parsed-Post (Unchanged s) (λ a. ⊥) AnyStop b (parser_advance b.parser) (λ e. _) (λ p. h))
      (λ tok a u ha.
        Post-if (AtBoundary s) (λ a. ⊥) AnyStop {A = Unit {0}} Any (pure _) _ a
          (is_new_line a.parser.prev.kind) (λ e. (_, (ha.0, ha.1, inl e)))
          (λ e.
            Post-if (AtBoundary s) (λ a. ⊥) AnyStop {A = Unit {0}} Any (pure _) (synchronize fuel) a
              (at_eof a.parser) (λ e'. (_, (ha.0, ha.1, inr e')))
              (λ e'. synchronize-AtBoundary fuel s a ha)))

-- A statement that throws has pushed no instruction, and the errors that the assembler itself logged
-- are more than before. Where the handler returns it stands behind a line break or at the end of the
-- text, and has changed neither the instructions nor the number of errors that the assembler itself
-- logged; what the lexer reports on the way is not counted there. A statement that does not throw
-- leaves the instructions or pushes one.
pub statement-throws :
    (tokens : ℕ) (s : Assembler)
    → ((a : Assembler)
        → statement tokens s ≡ thrown a
        → (a.instructions ≡ s.instructions)
          × (s.logged < a.logged)
          × ((fuel : ℕ) (b : Assembler) → synchronize fuel a ≡ done _ b → AtBoundary a b))
      × ((a : Assembler)
          → statement tokens s ≡ done _ a
          → (a.instructions ≡ s.instructions)
            ⊎ ((i : Instruction) × (a.instructions ≡ s.instructions ++ i ∷ [])))
statement-throws tokens s =
    let h = statement-Grown s.instructions s.logged tokens s (refl, omega arith) in
    let P = Post (Grown s.instructions s.logged) (Failed s.instructions s.logged) AnyStop Any in
    (
      λ a e.
          let t : Failed s.instructions s.logged a = subst P e h in
          (
            t.0,
            t.1,
            λ fuel b e'.
                (subst (Post (AtBoundary a) (λ c. ⊥) AnyStop Any) e'
                  (synchronize-AtBoundary fuel a a (refl, refl))).1,
          ),
      λ a e. (subst P e h).1.0,
    )
