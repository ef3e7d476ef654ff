-- ===== src/Asm/Decoded.antt =====
-- The code of an instruction of the assembler is read back (src/compiler/asm/asm.c, src/vm/code.c).
use cyntatic.Prelude.{
  ℕ, ◌<◌, ◌≡◌, refl, sym, ap, true, ◌||◌, some, List, [], ◌∷◌, ◌++◌, length, ◌==◌, if◌then◌else◌,
  arith, Bool-cases, inl, inr, ◌⊎◌, All, drop-append,
}
use mathlib.Core.Path.{subst}
use cyntatic.Vm.Run.{Run, ok}
use cyntatic.Vm.Value.{mode_size, le_bytes, length-le_bytes}
use cyntatic.Vm.Instr.{Instruction, IsWord, zero_instruction, b1, b2, b3}
use cyntatic.Vm.Code.{has_imm, encode, decode, instruction_at}
use cyntatic.Vm.Code.Decode.{cut_to, imm_read}
use cyntatic.Lexer.State.{Lexer}
use cyntatic.Asm.State.{Assembler, done}
use cyntatic.Asm.Assemble.{assemble_text}
use cyntatic.Asm.Keeps.Operands.{Encodable}
use cyntatic.Asm.Code.{mode_size-mode, assemble_text-Encodable}

-- What `VM_code_instruction_at` makes of the bytes of an instruction: the fields that they hold, a lone
-- immediate's mode in `ims`, and the immediate cut to its mode.
pub seen : Instruction → Instruction
seen i =
    if i.osz == 1
    then record zero_instruction { osz = 1; opc = i.opc }
    else if i.osz == 2
    then (if i.rmd == 1
        then record zero_instruction {
          osz = 2;
          opc = i.opc;
          iam = i.iam;
          rmd = 1;
          imd = i.imd;
          ims = i.ra;
          ii = cut_to i.ra i.ii;
        }
        else record zero_instruction { osz = 2; opc = i.opc; ra = i.ra; iam = i.iam; imd = i.imd })
    else record i { ii = if has_imm i then cut_to i.ims i.ii else 0 }

-- The bytes of an instruction can be read back, whatever follows.
abbrev ReadBack : Instruction → Type 0
ReadBack i =
    (bs : List ℕ) × (encode i ≡ ok bs)
    × ((post : List ℕ) → decode (bs ++ post) ≡ ok (seen i, length bs))

module _ (opc ra iam imd : ℕ) (a : opc < 64) (b : ra < 16) (c : iam < 2) (d : imd < 4)
    (rmd ims rb ibm iea ii : ℕ) (e : rmd < 2) (f : ims < 4) (g : rb < 16) (h : ibm < 2)
    (k : iea < 2) where
  -- The instruction with these fields.
  abbrev word : ℕ → Instruction
  word osz = record {
    osz = osz;
    opc = opc;
    ra = ra;
    iam = iam;
    rmd = rmd;
    imd = imd;
    ims = ims;
    rb = rb;
    ibm = ibm;
    iea = iea;
    ii = ii;
  }

  one_byte : ReadBack (word 1)
  unfolding encode decode seen
  one_byte = (b1 (word 1) ∷ [], refl, λ post. ground arith)

  two_plain : rmd ≡ 0 → iea ≡ 0 → ReadBack (word 2)
  unfolding encode decode seen
  two_plain r z = (b1 (word 2) ∷ b2 (word 2) ∷ [], ground arith, λ post. ground arith)

  two_immediate : (n : ℕ) → mode_size ra ≡ some n → ra < 4 → rmd ≡ 1 → iea ≡ 0 → ReadBack (word 2)
  unfolding encode decode seen
  two_immediate n size small r z = (
    b1 (word 2) ∷ b2 (word 2) ∷ le_bytes n ii,
    ground (arith, size),
    λ post. ground (arith, size, imm_read ra n ii size post, length-le_bytes n ii),
  )

  three_plain : rmd ≡ 0 → iea ≡ 0 → ReadBack (word 3)
  unfolding encode decode seen
  three_plain r z =
      (b1 (word 3) ∷ b2 (word 3) ∷ b3 (word 3) ∷ [], ground arith, λ post. ground arith)

  three_immediate :
      (n : ℕ) → mode_size ims ≡ some n → (rmd == 1 || iea == 1) ≡ true → ReadBack (word 3)
  unfolding encode decode seen
  three_immediate n size imm = (
    b1 (word 3) ∷ b2 (word 3) ∷ b3 (word 3) ∷ le_bytes n ii,
    ground (arith, size),
    λ post. ground (arith, size, imm_read ims n ii size post, length-le_bytes n ii),
  )

-- The two values of a one-bit field.
bit-cases : (b : ℕ) → b < 2 → (b ≡ 0) ⊎ (b ≡ 1)
bit-cases b h = elim (Bool-cases (b == 0)) [
  | inl e ↦ inl (ground arith)
  | inr e ↦ inr (ground arith)
]

two-ReadBack : (i : Instruction) → Encodable i → i.osz ≡ 2 → ReadBack (record i { osz = 2 })
two-ReadBack i e q =
    let w = e.word in
    elim (bit-cases i.rmd w.rmd) [
      | inl r ↦
          two_plain i.opc i.ra i.iam i.imd w.opc w.ra w.iam w.imd i.rmd i.ims i.rb i.ibm i.iea i.ii
            w.rmd w.ims w.rb w.ibm w.iea r (e.plain q)
      | inr r ↦
          let small : i.ra < 4 = e.moded q (ground arith) in
          let (n, size) = mode_size-mode i.ra small in
          two_immediate i.opc i.ra i.iam i.imd w.opc w.ra w.iam w.imd i.rmd i.ims i.rb i.ibm i.iea
            i.ii w.rmd w.ims w.rb w.ibm w.iea n size small r (e.plain q)
    ]

three-ReadBack : (i : Instruction) → IsWord i → ReadBack (record i { osz = 3 })
three-ReadBack i w = elim (Bool-cases (i.rmd == 1 || i.iea == 1)) [
  | inl imm ↦
      let (n, size) = mode_size-mode i.ims w.ims in
      three_immediate i.opc i.ra i.iam i.imd w.opc w.ra w.iam w.imd i.rmd i.ims i.rb i.ibm i.iea
        i.ii w.rmd w.ims w.rb w.ibm w.iea n size imm
  | inr imm ↦
      let a = w.rmd in
      let b = w.iea in
      three_plain i.opc i.ra i.iam i.imd w.opc w.ra w.iam w.imd i.rmd i.ims i.rb i.ibm i.iea i.ii
        w.rmd w.ims w.rb w.ibm w.iea (ground arith) (ground arith)
]

-- An instruction that the linker can write can be read back.
Encodable-ReadBack : (i : Instruction) → Encodable i → ReadBack i
Encodable-ReadBack i e =
    let w = e.word in
    elim (Bool-cases (i.osz == 1)) [
      | inl t ↦
          let q : i.osz ≡ 1 = ground arith in
          subst ReadBack (ap (λ o. record i { osz = o }) (sym q)) (
            one_byte i.opc i.ra i.iam i.imd w.opc w.ra w.iam w.imd i.rmd i.ims i.rb i.ibm i.iea i.ii
              w.rmd w.ims w.rb w.ibm w.iea)
      | inr t ↦ elim (Bool-cases (i.osz == 2)) [
        | inl t2 ↦
            let q : i.osz ≡ 2 = ground arith in
            subst ReadBack (ap (λ o. record i { osz = o }) (sym q)) (two-ReadBack i e q)
        | inr t2 ↦
            let z = e.sized in
            let z' = w.osz in
            let q : i.osz ≡ 3 = ground arith in
            subst ReadBack (ap (λ o. record i { osz = o }) (sym q)) (three-ReadBack i w)
      ]
    ]

-- The bytes of an instruction, wherever they stand in the code, are read as that instruction.
abbrev pub IsRead : Instruction → Type 0
IsRead i =
    (bs : List ℕ) × (encode i ≡ ok bs)
    × ((pre post : List ℕ)
        → instruction_at (pre ++ (bs ++ post)) (length pre) ≡ ok (seen i, length bs))

Encodable-IsRead : (i : Instruction) → Encodable i → IsRead i
unfolding instruction_at
Encodable-IsRead i e =
    let (bs, written, read) = Encodable-ReadBack i e in
    (bs, written, λ pre post. rw drop-append (read post))

All-IsRead : (is : List Instruction) → All Encodable is → All IsRead is
All-IsRead [] h = _
All-IsRead (i ∷ is) (e, h) = (Encodable-IsRead i e, All-IsRead is h)

-- Where the assembler returns, from any text, each instruction that it holds is written by
-- `VM_code_append_`, and its bytes, wherever they stand in the code, are read by
-- `VM_code_instruction_at` as an instruction of their number with the fields that the bytes hold, a lone
-- immediate's mode moved to `ims`, and the immediate cut to its mode and sign extended.
pub assemble_text-IsRead :
    (lx : Lexer) (spare : ℕ → ℕ) (r : Run (List ℕ)) (s : Assembler)
    → assemble_text lx spare ≡ done r s
    → All IsRead s.instructions
assemble_text-IsRead lx spare r s e =
    All-IsRead s.instructions (assemble_text-Encodable lx spare r s e)
