-- ===== src/Asm/Code.antt =====
-- The code that `Assembler_assemble` (src/compiler/asm/asm.c) writes: the linker and
-- `VM_code_append_` accept every instruction of the assembler.
use cyntatic.Prelude.{
  ℕ, zero, suc, ◌+◌, ◌<◌, ◌≡◌, inl, inr, refl, sym, ◌∙◌, Bool, true, false, ◌&&◌, some, List, [],
  ◌∷◌, ◌++◌, All, length, ltb, ◌==◌, if◌then◌else◌, Bool-cases, arith, if_true, if_false, lt→ltb,
  Option-cases,
}
use mathlib.Core.Path.{subst}
use cyntatic.Word.{u64_mod}
use cyntatic.Lexer.State.{Lexer}
use cyntatic.Parser.{Parsed, parsed, stopped, parser_init}
use cyntatic.Vm.Run.{Run, ok, fault, ◌>>=◌}
use cyntatic.Vm.Value.{mode_size, le_bytes}
use cyntatic.Vm.Instr.{Instruction}
use cyntatic.Vm.Code.{has_imm, imm_bytes, encode, code_append}
use cyntatic.Vm.Builder.{
  Builder, modify, minus_ip, plus_ip, is_patched, add_to_references, size_of, link_loop, linked,
  references, header_bytes, header_size,
}
use cyntatic.Vm.Builder as Builder
use cyntatic.Asm.State.{Assembler, Outcome, done, thrown, halted, log_errors, bind}
use cyntatic.Asm.Symbols.{look_up}
use cyntatic.Asm.Assemble.{
  assemble, assemble_loop, finish, link, builder_of, define, define_all, builtin_variables,
  assembler_init, set_up, assemble_text, token_bound,
}
use cyntatic.Asm.Keeps.{Post, Any}
use cyntatic.Asm.Keeps.Operands.{Encodable}
use cyntatic.Asm.Bounds.{AnyStop, Before, Sound, assemble_loop-Sound}

-- The call ends with a value.
abbrev pub Succeeds {ℓ} : {A : Type ℓ} → Run A → Type ℓ
Succeeds {A} r = (a : A) × (r ≡ ok a)

bind-Succeeds {ℓ} :
    {A B : Type ℓ} (r : Run A) (f : A → Run B)
    → Succeeds r
    → ((a : A) → Succeeds (f a))
    → Succeeds (r >>= f)
bind-Succeeds (ok a) f h k = k a
bind-Succeeds (fault e) f (a, h) k = absurd (cc)

-- A mode of two bits has a size.
pub mode_size-mode : (m : ℕ) → m < 4 → (n : ℕ) × (mode_size m ≡ some n)
unfolding mode_size
mode_size-mode zero h = (_, refl)
mode_size-mode (suc zero) h = (_, refl)
mode_size-mode (suc (suc zero)) h = (_, refl)
mode_size-mode (suc (suc (suc zero))) h = (_, refl)
mode_size-mode (suc (suc (suc (suc m)))) h = absurd (omega arith)

immediate_mode :
    (i : Instruction) → Encodable i → has_imm i ≡ true → (if i.osz == 2 then i.ra else i.ims) < 4
immediate_mode i e h = elim (Bool-cases (i.osz == 2)) [
  | inl t ↦ rw t (e.moded (ground arith) h)
  | inr t ↦ rw t e.word.ims
]

imm_bytes-ok : (i : Instruction) → Encodable i → has_imm i ≡ true → Succeeds (imm_bytes i)
unfolding imm_bytes
imm_bytes-ok i e h =
    let (n, q) = mode_size-mode _ (immediate_mode i e h) in (le_bytes n i.ii, rw q refl)

encode-ok : (i : Instruction) → Encodable i → Succeeds (encode i)
unfolding encode
encode-ok i e = elim (Bool-cases (ltb 1 i.osz && has_imm i)) [
  | inl t ↦
      let h : has_imm i ≡ true = ground arith in
      let (bs, q) = bind-Succeeds (imm_bytes i) _ (imm_bytes-ok i e h) (λ imm. (_, refl)) in
      (bs, if_true _ t ∙ q)
  | inr t ↦ (_, if_false _ t)
]

code_append-ok :
    (code : List ℕ) (is : List Instruction) → All Encodable is → Succeeds (code_append code is)
unfolding code_append
code_append-ok code [] h = (code, refl)
code_append-ok code (i ∷ is) (e, h) =
    bind-Succeeds (encode i) _ (encode-ok i e) (λ bs. code_append-ok (code ++ bs) is h)

-- An instruction with another offset.
offset_Encodable :
    (i : Instruction) (v : ℕ) → Encodable i → v < u64_mod → Encodable (record i { ii = v })
offset_Encodable i v e h =
    let w = e.word in
    record {
      word = record {
        osz = w.osz;
        opc = w.opc;
        ra = w.ra;
        iam = w.iam;
        rmd = w.rmd;
        imd = w.imd;
        ims = w.ims;
        rb = w.rb;
        ibm = w.ibm;
        iea = w.iea;
        ii = h;
      };
      sized = e.sized;
      moded = e.moded;
      plain = e.plain;
    }

modify-Encodable :
    (j : ℕ) (f : Instruction → Instruction) (is : List Instruction)
    → ((i : Instruction) → Encodable i → Encodable (f i))
    → All Encodable is
    → All Encodable (modify j f is)
unfolding modify
modify-Encodable j f [] k h = _
modify-Encodable zero f (i ∷ is) k (e, h) = (k i e, h)
modify-Encodable (suc j) f (i ∷ is) k (e, h) = (e, modify-Encodable j f is k h)

if_Encodable :
    (c : Bool) (is js : List Instruction)
    → All Encodable is
    → All Encodable js
    → All Encodable (if c then is else js)
if_Encodable true is js h k = h
if_Encodable false is js h k = k

add_to_references-Encodable :
    (refs : List (ℕ × ℕ)) (i ip : ℕ) (is : List Instruction)
    → All Encodable is
    → All Encodable (add_to_references refs i ip is)
unfolding add_to_references
add_to_references-Encodable [] i ip is h = h
add_to_references-Encodable ((t, j) ∷ refs) i ip is h = add_to_references-Encodable refs i ip _ (
    if_Encodable (t == i) _ is
      (modify-Encodable j (plus_ip ip) is (λ x e. offset_Encodable x _ e (omega arith)) h) h)

link_loop-Encodable :
    (patches : List (ℕ × List ℕ)) (refs : List (ℕ × ℕ)) (n i ip : ℕ) (is : List Instruction)
    → All Encodable is
    → All Encodable (link_loop patches refs n i ip is)
unfolding link_loop
link_loop-Encodable patches refs zero i ip is h = h
link_loop-Encodable patches refs (suc n) i ip is h =
    link_loop-Encodable patches refs n (suc i) _ _ (
      add_to_references-Encodable refs i ip _ (
        if_Encodable (is_patched i patches) _ is
          (modify-Encodable i (minus_ip ip) is (λ x e. offset_Encodable x _ e (omega arith)) h) h))

linked-ok :
    (b : Builder) (refs : List (ℕ × ℕ)) (db : ℕ)
    → All Encodable b.instructions
    → Succeeds (linked b refs db)
unfolding linked
linked-ok b refs db h =
    let is = link_loop b.patch_work refs (length b.instructions) 0 db b.instructions in
    bind-Succeeds (code_append [] is) _
      (code_append-ok [] is
        (link_loop-Encodable b.patch_work refs (length b.instructions) 0 db b.instructions h))
      (λ bs. (_, refl))

link-ok : (b : Builder) → All Encodable b.instructions → Succeeds (Builder.link b)
unfolding Builder.link
link-ok b h =
    let (refs, missing) = references b.symbols b.patch_work in
    elim (Bool-cases (ltb 0 (b.errors + missing))) [
      | inl t ↦ ([], if_true _ t)
      | inr t ↦
          let (bs, q) = linked-ok b refs (header_size + length b.constants) h in
          (bs, if_false _ t ∙ q)
    ]

finish-ok : (s : Assembler) → All Encodable s.instructions → Succeeds (finish s)
unfolding finish link
finish-ok s h = elim (Bool-cases (ltb 0 (log_errors s))) [
  | inl t ↦ ([], if_true _ t)
  | inr t ↦ let (bs, q) = link-ok (builder_of s) h in (bs, if_false _ t ∙ q)
]

define_all-Sound :
    (l : List (List ℕ × ℕ)) (s : Assembler)
    → Sound s
    → Post Sound Sound AnyStop Any (define_all l s)
unfolding define_all define
define_all-Sound [] s h = (_, h)
define_all-Sound ((name, value) ∷ l) s h = elim (Option-cases (look_up s.symbols name)) [
  | inl e ↦ rw (e, Post, bind) (define_all-Sound l _ h)
  | inr (sym, e) ↦ rw (e, Post, bind) tt
]

-- What `Assembler_init` makes is sound.
assembler_init-Sound :
    (lx : Lexer) (spare : ℕ → ℕ) → Post Sound Sound AnyStop Any (assembler_init lx spare)
unfolding assembler_init set_up
assembler_init-Sound lx spare = go (parser_init lx)
  where
    go : (r : Parsed {0} Unit) → Post Sound Sound AnyStop Any (set_up spare r)
    go (stopped e) = _
    go (parsed u p) =
        define_all-Sound builtin_variables _ (record { encodable = _; near = _; patched = inr _ })

-- What an assembled program comes to.
abbrev Assembled : Run (List ℕ) → Assembler → Type 0
Assembled r s = Sound s × (r ≡ finish s)

-- Where the call returns, what holds behind it.
abbrev Returned {ℓ} : {A : Type ℓ} → (A → Assembler → Type 0) → Outcome A → Type 0
Returned P (done a s) = P a s
Returned P (thrown s) = Unit
Returned P (halted e) = Unit

finished :
    (r : Outcome {0} Unit)
    → Post Sound Sound AnyStop Any r
    → Returned Assembled (bind r (λ u s. done (finish s) s))
finished (done a s) h = (h.1, refl)
finished (thrown s) h = _
finished (halted e) h = _

assembled :
    (r : Outcome {0} Unit)
    → Post Sound Sound AnyStop Any r
    → Returned Assembled (bind r (λ u. assemble))
unfolding assemble
assembled (done a s) h =
    finished (assemble_loop (token_bound s) (token_bound s) s)
      (assemble_loop-Sound (token_bound s) (token_bound s) s h.1)
assembled (thrown s) h = _
assembled (halted e) h = _

assemble_text-Assembled :
    (lx : Lexer) (spare : ℕ → ℕ) (r : Run (List ℕ)) (s : Assembler)
    → assemble_text lx spare ≡ done r s
    → Assembled r s
unfolding assemble_text
assemble_text-Assembled lx spare r s e =
    subst (Returned Assembled) e
      (assembled (assembler_init lx spare) (assembler_init-Sound lx spare))

-- Where the assembler returns, from any text, every instruction that it holds has fields of their widths
-- and a size, and, where its size is two and it has an immediate, a mode in the field that
-- `VM_code_append_` reads the mode of that immediate from, and no flag of an effective address where its
-- size is two.
pub assemble_text-Encodable :
    (lx : Lexer) (spare : ℕ → ℕ) (r : Run (List ℕ)) (s : Assembler)
    → assemble_text lx spare ≡ done r s
    → All Encodable s.instructions
assemble_text-Encodable lx spare r s e = (assemble_text-Assembled lx spare r s e).0.encodable

-- Where the assembler returns, from any text, and the log has no error, every patch has the index
-- of an instruction.
pub assemble_text-patched :
    (lx : Lexer) (spare : ℕ → ℕ) (r : Run (List ℕ)) (s : Assembler)
    → assemble_text lx spare ≡ done r s
    → log_errors s ≡ 0
    → Before (length s.instructions) s.patch_work
assemble_text-patched lx spare r s e none_logged =
    elim (assemble_text-Assembled lx spare r s e).0.patched [
      | inl h ↦ absurd (omega arith)
      | inr h ↦ h
    ]

finish-refused : (s : Assembler) → 0 < log_errors s → finish s ≡ ok []
unfolding finish
finish-refused s h = if_true _ (lt→ltb 0 (log_errors s) h)

-- Where the assembler returns, from any text, linking and writing the code end in code and not in a
-- fault, and the code is empty where the log has an error.
pub assemble_text-Succeeds :
    (lx : Lexer) (spare : ℕ → ℕ) (r : Run (List ℕ)) (s : Assembler)
    → assemble_text lx spare ≡ done r s
    → (code : List ℕ) × (r ≡ ok code) × (0 < log_errors s → code ≡ [])
assemble_text-Succeeds lx spare r s e =
    let a = assemble_text-Assembled lx spare r s e in
    let (bs, q) = finish-ok s a.0.encodable in
    (bs, a.1 ∙ q, λ h. let empty = finish-refused s h in cc)
