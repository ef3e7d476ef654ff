-- ===== src/Asm/Bounds.antt =====
-- The instructions and the patches of the assembler (src/compiler/asm/asm.c).
use cyntatic.Prelude.{
  ℕ, zero, suc, ◌%◌, ◌<◌, ◌≤◌, ◌≡◌, ◌⊎◌, inl, inr, refl, sym, List, [], ◌∷◌, ◌++◌, All, length,
  length-append, ltb, Bool-cases, arith,
}
use mathlib.Core.Path.{subst}
use cyntatic.Word.{add32}
use cyntatic.Token.{TokenKind}
use cyntatic.Lexer.State.{Stop}
use cyntatic.Parser.{Parsed, parsed, stopped, TokenParser, parser_advance, parser_peek, at_eof}
use cyntatic.Vm.Instr.{Instruction}
use cyntatic.Vm.Builder.{add_patch}
use cyntatic.Asm.State.{
  Assembler, Act, Outcome, done, thrown, halted, pure, advance, peek, matches, with_parser,
}
use cyntatic.Asm.Statement.{byte_value, byte_list}
use cyntatic.Asm.Symbols.{push_data}
use cyntatic.Asm.Assemble.{synchronize, is_new_line, statement, try, assemble_loop}
use cyntatic.Asm.Keeps.{Post, Any, Law, Keeps, Post-bind, Post-if, matches-Keeps}
use cyntatic.Asm.Keeps.Symbols.{PatchLaw}
use cyntatic.Asm.Keeps.Operands.{Encodable}
use cyntatic.Asm.Keeps.Data.{byte_value-Keeps, range_error-Keeps}
use cyntatic.Asm.Keeps.Statement.{Start, statement-Post}

-- Any end of the program.
abbrev pub AnyStop : Stop → Type 0
AnyStop e = Unit

-- The patches stand before `n`.
abbrev pub Before : ℕ → List (ℕ × List ℕ) → Type 0
Before n patches = All (λ p. p.0 < n) patches

Before-less : (n m : ℕ) (patches : List (ℕ × List ℕ)) → n ≤ m → Before n patches → Before m patches
Before-less n m [] le h = _
Before-less n m (p ∷ patches) le (a, h) = (omega arith, Before-less n m patches le h)

add_patch-Before :
    (pos n : ℕ) (name : List ℕ) (patches : List (ℕ × List ℕ))
    → pos < n
    → Before n patches
    → Before n (add_patch pos name patches)
unfolding add_patch
add_patch-Before pos n name [] lt h = (lt, _)
add_patch-Before pos n name ((p, s) ∷ rest) lt (a, h) = elim (Bool-cases (ltb pos p)) [
  | inl e ↦ rw e (lt, (a, h))
  | inr e ↦ rw e (a, add_patch-Before pos n name rest lt h)
]

All-push :
    (is : List Instruction) (i : Instruction)
    → All Encodable is
    → Encodable i
    → All Encodable (is ++ i ∷ [])
All-push [] i h e = (e, _)
All-push (x ∷ is) i (a, h) e = (a, All-push is i h e)

-- What holds between the statements: every instruction can be written, and, as long as the assembler
-- reported no error, every patch is one of an instruction.
pub record SoundAt (is : List Instruction) (patches : List (ℕ × List ℕ)) (logged : ℕ) : Type 0 where
  pub encodable : All Encodable is
  pub near : Before (suc (length is)) patches
  pub patched : (0 < logged) ⊎ Before (length is) patches

abbrev pub Sound : Assembler → Type 0
Sound s = SoundAt s.instructions s.patch_work s.logged

-- The same with `n` instructions.
abbrev Within : ℕ → Assembler → Type 0
Within n s = Sound s × (length s.instructions ≡ n)

-- What holds while an instruction is read.
record ReadingAt (n : ℕ) (is : List Instruction) (patches : List (ℕ × List ℕ)) : Type 0 where
  encodable : All Encodable is
  count : length is ≡ n
  near : Before (suc n) patches

abbrev Reading : ℕ → Assembler → Type 0
Reading n s = ReadingAt n s.instructions s.patch_work

-- A call of the token parser changes nothing else.
pub parsed-Post {ℓ} :
    {A : Type ℓ} (P T : Assembler → Type 0) (H : Stop → Type 0) (s : Assembler) (r : Parsed A)
    → ((e : Stop) → H e)
    → ((p : TokenParser) → P (record s { parser = p }))
    → Post P T H Any (with_parser s r)
parsed-Post P T H s (parsed a p) h k = (_, k p)
parsed-Post P T H s (stopped e) h k = h e

logged_Sound : (s : Assembler) → Sound s → Sound (record s { logged = suc s.logged })
logged_Sound s h = record { encodable = h.encodable; near = h.near; patched = inl (omega arith) }

within_law : (n : ℕ) → Law (Within n) Sound AnyStop
unfolding advance
within_law n = record {
  advanced =
      λ s h. parsed-Post (Within n) Sound AnyStop s (parser_advance s.parser) (λ e. _) (λ p. h);
  failed = λ s h. logged_Sound s h.0;
  logs = λ s h. (logged_Sound s h.0, h.1);
  names = λ s ys h. h;
  stores = λ s bs h. h;
  starts = λ s id h. h;
  asserts = _;
}

failed_Sound : (n : ℕ) (s : Assembler) → Reading n s → Sound (record s { logged = suc s.logged })
failed_Sound n s h = record {
  encodable = h.encodable;
  near = subst (λ m. Before (suc m) s.patch_work) (sym h.count) h.near;
  patched = inl (omega arith);
}

reading_law : (n : ℕ) → Law (Reading n) Sound AnyStop
unfolding advance
reading_law n = record {
  advanced =
      λ s h. parsed-Post (Reading n) Sound AnyStop s (parser_advance s.parser) (λ e. _) (λ p. h);
  failed = failed_Sound n;
  logs = λ s h. h;
  names = λ s ys h. h;
  stores = λ s bs h. h;
  starts = λ s id h. h;
  asserts = _;
}

reading_patch : (n : ℕ) → PatchLaw (Reading n) n
reading_patch n = record {
  fixed = λ s h. h.count;
  patches = λ s name h. record {
    encodable = h.encodable;
    near = add_patch-Before n (suc n) name s.patch_work (omega arith) h.near;
    count = h.count;
  };
}

read_of : (n : ℕ) (s : Assembler) → Within n s → Reading n s
read_of n s (h, e) = record {
  encodable = h.encodable;
  near = subst (λ m. Before (suc m) s.patch_work) e h.near;
  count = e;
}

pushed :
    (n : ℕ) (s : Assembler) (i : Instruction)
    → Reading n s
    → Encodable i
    → Sound (record s { instructions = s.instructions ++ i ∷ [] })
pushed n s i h e =
    let a = length-append s.instructions (i ∷ []) in
    let c = h.count in
    let size : length (s.instructions ++ i ∷ []) ≡ suc n = omega arith in
    let here = subst (λ m. Before m s.patch_work) (sym size) h.near in
    record {
      encodable = All-push s.instructions i h.encodable e;
      near = Before-less _ _ s.patch_work (omega arith) here;
      patched = inr here;
    }

start : (n : ℕ) → Start (Within n) (Within n) (Reading n) Sound Sound AnyStop n
unfolding advance peek
start n = record {
  law = within_law n;
  instruction_law = reading_law n;
  patch = reading_patch n;
  enter = (within_law n).advanced;
  enter_instruction = λ s h. (reading_law n).advanced s (read_of n s h);
  look_ahead =
      λ s h. parsed-Post (Within n) Sound AnyStop s (parser_peek s.parser) (λ e. _) (λ p. h);
  refuse = (within_law n).failed;
  leave = λ s h. h.0;
  push = pushed n;
}

-- The bytes of an array.
pub byte_list-Keeps :
    (P T : Assembler → Type 0)
    → Law P T AnyStop
    → (fuel size : ℕ) → Keeps P T AnyStop Any (byte_list fuel size)
unfolding byte_list
byte_list-Keeps P T law zero size s h = _
byte_list-Keeps P T law (suc fuel) size s h =
    Post-bind P T AnyStop P Any Any _ (byte_value s.parser.curr.kind s.parser.curr s)
      (byte_value-Keeps P T AnyStop law _ _ s h)
      (λ val a u ha.
        Post-bind P T AnyStop P Any Any _ _ (range_error-Keeps P T AnyStop law (ltb 0xff val) a ha)
          (λ x b u' hb.
            Post-bind P T AnyStop P Any Any _ (advance b) (law.advanced b hb) (λ tok c u'' hc.
              Post-bind P T AnyStop P Any Any _ (push_data ((val % 256) ∷ []) c)
                (_, law.stores c _ hc)
                (λ y d u3 hd.
                  Post-bind P T AnyStop P Any Any _ (matches (TokenKind.comma ∷ []) d)
                    (matches-Keeps P T AnyStop law _ d hd)
                    (λ more g u4 hg.
                      Post-if P T AnyStop Any (byte_list fuel (add32 size 1)) (pure (add32 size 1))
                        g more (λ e. byte_list-Keeps P T law fuel (add32 size 1) g hg)
                        (λ e. (_, hg)))))))

synchronize-Keeps : (fuel : ℕ) → Keeps Sound Sound AnyStop Any (synchronize fuel)
unfolding synchronize advance
synchronize-Keeps zero s h = _
synchronize-Keeps (suc fuel) s h =
    Post-bind Sound Sound AnyStop Sound Any Any _ (advance s)
      (parsed-Post Sound Sound AnyStop s (parser_advance s.parser) (λ e. _) (λ p. h))
      (λ tok a u ha.
        Post-if Sound Sound AnyStop Any (pure _) _ a (is_new_line a.parser.prev.kind) (λ e. (_, ha))
          (λ e.
            Post-if Sound Sound AnyStop Any (pure _) (synchronize fuel) a (at_eof a.parser)
              (λ e'. (_, ha)) (λ e'. synchronize-Keeps fuel a ha)))

-- The handler goes on from a throw.
pub try-Post :
    (P T T' : Assembler → Type 0) (H : Stop → Type 0) (m handler : Act) (s : Assembler)
    → Post P T H Any (m s)
    → ((a : Assembler) → T a → Post P T' H Any (handler a))
    → Post P T' H Any (try m handler s)
try-Post P T T' H m handler s h k = go (m s) h
  where
    go :
        (r : Outcome {0} Unit)
        → Post P T H Any r
        → Post P T' H Any (elim r as (λ x. Outcome {0} Unit) [
          | done a s' ↦ done _ s'
          | thrown s' ↦ handler s'
          | halted e ↦ halted e
        ])
    go (done a b) q = (_, q.1)
    go (thrown b) q = k b q
    go (halted e) q = q

-- The loop of `Assembler_assemble` keeps what holds between the statements.
pub assemble_loop-Sound :
    (tokens fuel : ℕ) → Keeps Sound Sound AnyStop Any (assemble_loop tokens fuel)
unfolding assemble_loop
assemble_loop-Sound tokens zero s h = _
assemble_loop-Sound tokens (suc fuel) s h =
    Post-if Sound Sound AnyStop Any (pure _) _ s (at_eof s.parser) (λ e. (_, h))
      (λ e.
        Post-bind Sound Sound AnyStop Sound Any Any _
          (try (statement tokens) (synchronize tokens) s)
          (try-Post Sound Sound Sound AnyStop (statement tokens) (synchronize tokens) s
            (statement-Post _ _ _ Sound Sound AnyStop _ (start (length s.instructions)) tokens
              (byte_list-Keeps _ _ (within_law _) tokens 0) s (h, refl))
            (λ a ha. synchronize-Keeps tokens a ha))
          (λ x a u ha. assemble_loop-Sound tokens fuel a ha))
