-- ===== src/Asm/Keeps/Operands.antt =====
-- The instruction that `Assembler_parse_instruction` (src/compiler/asm/asm.c) makes of its arguments.
use cyntatic.Prelude.{
  ℕ, suc, ◌+◌, ◌<◌, ◌≤◌, ◌≡◌, refl, ap, ◌∙◌, Bool, true, false, List, [], ◌∷◌, ◌++◌, some, length,
  if◌then◌else◌, arith, ltb, ◌==◌, Bool-cases, inl, inr, All, of_some_eq, eq_of_==,
}
use cyntatic.Token.{TokenKind}
use cyntatic.Lexer.State.{Stop}
use cyntatic.Vm.Instr.{Instruction, IsWord, zero_instruction}
use cyntatic.Vm.Code.{has_imm}
use cyntatic.Vm.Opcodes.{op_codes, is_equal, strncasecmp, find_opcode, get_opcode}
use cyntatic.Asm.State.{Assembler, pure, advance, matches}
use cyntatic.Asm.Argument.{parse_modes, parse_instruction_arg}
use cyntatic.Asm.Statement.{bit, first_argument, second_argument, instruction_of}
use cyntatic.Asm.Keeps.{Post, Any, Law, Keeps, Post-bind, Post-if, Post-value, matches-Keeps}
use cyntatic.Asm.Keeps.Symbols.{PatchLaw}
use cyntatic.Asm.Keeps.Instruction.{Read, parse_modes-Keeps, parse_instruction_arg-Keeps}

-- An instruction that `VM_code_append_` can write: its fields have their widths, and where it has an
-- immediate, the field that holds its mode holds one; with a single argument it has no effective
-- address.
pub record Encodable (i : Instruction) : Type 0 where
  pub word : IsWord i
  pub sized : 0 < i.osz
  pub moded : i.osz ≡ 2 → has_imm i ≡ true → i.ra < 4
  pub plain : i.osz ≡ 2 → i.iea ≡ 0

-- An instruction behind its first argument.
record First (osz : ℕ) (i : Instruction) : Type 0 where
  word : IsWord i
  size : i.osz ≡ osz
  plain : i.iea ≡ 0
  moded : i.rmd ≡ 1 → i.ra < 4

-- An instruction behind its second.
record Second (osz : ℕ) (i : Instruction) : Type 0 where
  word : IsWord i
  size : i.osz ≡ osz

start-IsWord :
    (osz opc imd : ℕ)
    → osz < 4
    → opc < 64
    → imd < 4
    → IsWord (record zero_instruction { osz = osz; opc = opc; imd = imd })
start-IsWord osz opc imd a b c = record {
  osz = a;
  opc = b;
  ra = omega arith;
  iam = omega arith;
  rmd = omega arith;
  imd = c;
  ims = omega arith;
  rb = omega arith;
  ibm = omega arith;
  iea = omega arith;
  ii = omega arith;
}

bit-small : (b : Bool) → bit b < 2
bit-small true = omega arith
bit-small false = omega arith

ra_small : (rmd ims reg : ℕ) → ims < 4 → reg < 16 → (if rmd == 1 then ims else reg) < 16
ra_small rmd ims reg h k = ground arith

ra_mode : (rmd ims reg : ℕ) → ims < 4 → rmd ≡ 1 → (if rmd == 1 then ims else reg) < 4
ra_mode rmd ims reg h e = ground arith

stored-First :
    (i : Instruction) (r : Bool × ℕ × Instruction)
    → i.iea ≡ 0
    → Read false i r
    → First i.osz (record r.2 { iam = bit r.0; ra = if r.2.rmd == 1 then r.2.ims else r.1 })
stored-First i r no_offset a =
    let w = a.word in
    record {
      word = record {
        osz = w.osz;
        opc = w.opc;
        ra = ra_small r.2.rmd r.2.ims r.1 w.ims a.reg;
        iam = bit-small r.0;
        rmd = w.rmd;
        imd = w.imd;
        ims = w.ims;
        rb = w.rb;
        ibm = w.ibm;
        iea = w.iea;
        ii = w.ii;
      };
      size = a.same_size;
      plain = a.same_offset refl ∙ no_offset;
      moded = λ e. ra_mode r.2.rmd r.2.ims r.1 w.ims e;
    }

stored-Second :
    (i : Instruction) (r : Bool × ℕ × Instruction)
    → Read true i r
    → Second i.osz (record r.2 { ibm = bit r.0; rb = r.1 })
stored-Second i r a =
    let w = a.word in
    record {
      word = record {
        osz = w.osz;
        opc = w.opc;
        ra = w.ra;
        iam = w.iam;
        rmd = w.rmd;
        imd = w.imd;
        ims = w.ims;
        rb = a.reg;
        ibm = bit-small r.0;
        iea = w.iea;
        ii = w.ii;
      };
      size = a.same_size;
    }

has_imm-cases : (i : Instruction) → has_imm i ≡ true → i.iea ≡ 0 → i.rmd ≡ 1
has_imm-cases i h e = ground arith

First-Encodable : (i : Instruction) (args : ℕ) → First (args + 1) i → Encodable i
First-Encodable i args f = record {
  word = f.word;
  sized = (let e = f.size in omega arith);
  moded = λ e h. f.moded (has_imm-cases i h f.plain);
  plain = λ e. f.plain;
}

Second-Encodable : (i : Instruction) → Second 3 i → Encodable i
Second-Encodable i f = record {
  word = f.word;
  sized = (let e = f.size in omega arith);
  moded = λ e h. absurd (let e' = f.size in omega arith);
  plain = λ e. absurd (let e' = f.size in omega arith);
}

-- What the table of operations gives.
abbrev IsOpcode : ℕ → ℕ × ℕ → Type 0
IsOpcode n r = (r.0 < n) × (r.1 < 3)

find_opcode-IsOpcode :
    (l : List (List ℕ × ℕ)) (k n : ℕ) (name : List ℕ) (r : ℕ × ℕ)
    → All (λ e. e.1 < 3) l
    → k + length l ≤ n
    → find_opcode l k name ≡ some r
    → IsOpcode n r
unfolding find_opcode
find_opcode-IsOpcode [] k n name r h le e = absurd (cc)
find_opcode-IsOpcode ((s, args) ∷ l) k n name r (small, h) le e =
    elim (Bool-cases (is_equal (strncasecmp name (length name) s))) [
      | inl t ↦ of_some_eq (IsOpcode n) (rw t at e) (omega arith, small)
      | inr t ↦ find_opcode-IsOpcode l (suc k) n name r h (omega arith) (rw t at e)
    ]

pub get_opcode-IsOpcode : (name : List ℕ) (r : ℕ × ℕ) → get_opcode name ≡ some r → IsOpcode 64 r
unfolding get_opcode
get_opcode-IsOpcode name r e =
    find_opcode-IsOpcode op_codes 0 64 name r (ground arith) (omega arith) e

abbrev IsMode : ℕ → Type 0
IsMode m = m < 4

module _ (P T : Assembler → Type 0) (H : Stop → Type 0) (law : Law P T H) (n : ℕ)
    (patch : PatchLaw P n) where
  first_argument-Keeps :
      (i : Instruction) → IsWord i → i.iea ≡ 0 → Keeps P T H (First i.osz) (first_argument i)
  unfolding first_argument
  first_argument-Keeps i w e s h =
      Post-bind P T H P (Read false i) (First i.osz) _ (parse_instruction_arg i false s)
        (parse_instruction_arg-Keeps P T H law n patch i false w s h)
        (λ r a q ha. (stored-First i r e q, ha))

  second_argument-Keeps :
      (i : Instruction) → IsWord i → Keeps P T H (Second i.osz) (second_argument i)
  unfolding second_argument
  second_argument-Keeps i w s h =
      Post-bind P T H P (Read true i) (Second i.osz) _ (parse_instruction_arg i true s)
        (parse_instruction_arg-Keeps P T H law n patch i true w s h)
        (λ r a q ha. (stored-Second i r q, ha))

  -- The arguments of an instruction, for each number of them.
  First-read :
      (args : ℕ) (i : Instruction)
      → First (args + 1) i
      → Keeps P T H (First (args + 1)) (if ltb 0 args then first_argument i else pure i)
  First-read args i f s h =
      Post-if P T H (First (args + 1)) (first_argument i) (pure i) s (ltb 0 args)
        (λ e.
          Post-value P T H (First i.osz) (First (args + 1)) _ (λ j g. first_sized g f.size)
            (first_argument-Keeps i f.word f.plain s h))
        (λ e. (f, h))
    where
      first_sized : {osz m : ℕ} {j : Instruction} → First osz j → osz ≡ m → First m j
      first_sized g e = record {
        word = g.word;
        size = g.size ∙ e;
        plain = g.plain;
        moded = g.moded;
      }

  Second-read :
      (args : ℕ) (i : Instruction)
      → First (args + 1) i
      → Keeps P T H Encodable (if args == 2 then second_argument i else pure i)
  Second-read args i f s h =
      Post-if P T H Encodable (second_argument i) (pure i) s (args == 2)
        (λ e.
          Post-value P T H (Second i.osz) Encodable _
            (λ j g.
              Second-Encodable j (second_sized g (f.size ∙ ap (λ m. m + 1) (eq_of_== args 2 e))))
            (second_argument-Keeps i f.word s h))
        (λ e. (First-Encodable i args f, h))
    where
      second_sized : {osz m : ℕ} {j : Instruction} → Second osz j → osz ≡ m → Second m j
      second_sized g e = record { word = g.word; size = g.size ∙ e }

  IsMode-read : (dot : Bool) → Keeps P T H IsMode (if dot then parse_modes [] else pure 3)
  IsMode-read true s h = parse_modes-Keeps P T H law [] s h
  IsMode-read false s h = (omega arith, h)

  -- An instruction is read and pushed, from a state in which the name of its operation is the current
  -- token.
  pub instruction_of-Post :
      (P0 P1 : Assembler → Type 0) (opc args : ℕ)
      → opc < 64
      → args < 3
      → ((s : Assembler) → P0 s → Post P T H Any (advance s))
      → ((s : Assembler) (i : Instruction)
          → P s
          → Encodable i
          → P1 (record s { instructions = s.instructions ++ i ∷ [] }))
      → (s : Assembler) → P0 s
      → Post P1 T H Any (instruction_of opc args s)
  unfolding instruction_of
  instruction_of-Post P0 P1 opc args small few enter push s h =
      Post-bind P1 T H P Any Any _ (advance s) (enter s h) (λ tok a u ha.
        Post-bind P1 T H P Any Any _ (matches (TokenKind.dot ∷ []) a)
          (matches-Keeps P T H law _ a ha)
          (λ dot b u' hb.
            Post-bind P1 T H P IsMode Any _ ((if dot then parse_modes [] else pure 3) b)
              (IsMode-read dot b hb)
              (λ imd c m hc.
                let i : Instruction = record zero_instruction {
                  osz = args + 1;
                  opc = opc;
                  imd = imd;
                } in
                let f : First (args + 1) i = record {
                  word = start-IsWord (args + 1) opc imd (omega arith) small m;
                  size = refl;
                  plain = refl;
                  moded = λ e. absurd (omega arith);
                } in
                Post-bind P1 T H P (First (args + 1)) Any _
                  ((if ltb 0 args then first_argument i else pure i) c) (First-read args i f c hc)
                  (λ j d g hd.
                    Post-bind P1 T H P Encodable Any _
                      ((if args == 2 then second_argument j else pure j) d)
                      (Second-read args j g d hd) (λ k l q hl. (_, push l k hl q))))))
