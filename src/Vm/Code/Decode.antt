-- ===== src/Vm/Code/Decode.antt =====
-- `VM_code_instruction_at` undoes `VM_code_append_` (src/vm/code.c).
use cyntatic.Prelude.{
  ℕ, zero, suc, ◌+◌, ◌*◌, ◌%◌, ◌^◌, ◌≤◌, ◌<◌, ◌≡◌, refl, ◌∙◌, true, false, ◌&&◌, some, none, List,
  [], ◌∷◌, ◌++◌, arith, ltb, ◌==◌, if◌then◌else◌, length, length-append, All, drop-append,
}
use mathlib.Core.List.{append_assoc, append-nil}
use cyntatic.Vm.Run.{ok, fault, ◌>>=◌}
use cyntatic.Vm.Value.{
  mode_size, le_bytes, le_read, sign_extend, mode_size-IsSize, le_read-le_bytes, length-le_bytes,
}
use cyntatic.Vm.Instr.{Instruction, zero_instruction, b1, b2, b3}
use cyntatic.Vm.Code.{has_imm, encode, code_append, decode, instruction_at, disassemble_from}

-- The mode of an immediate, a field of two bits, and the number of bytes it stands for.
abbrev pub IsSized : ℕ → ℕ → Type 0
IsSized mode n = (mode < 4) × (mode_size mode ≡ some n)

-- A value written in `n` bytes and read back: cut to them and sign extended.
abbrev pub cut : ℕ → ℕ → ℕ
cut n ii = sign_extend n (ii % 2 ^ (8 * n))

-- An immediate written in the bytes of its mode and read back.
abbrev pub cut_to : ℕ → ℕ → ℕ
cut_to mode ii = elim (mode_size mode) [ some n ↦ cut n ii | none ↦ ii ]

-- An instruction with one immediate argument.
abbrev one_imm_word : ℕ → ℕ → ℕ → ℕ → ℕ → Instruction
one_imm_word opc iam imd mode ii = record zero_instruction {
  osz = 2;
  opc = opc;
  ra = mode;
  iam = iam;
  rmd = 1;
  imd = imd;
  ii = ii;
}

-- An instruction with two arguments.
abbrev two_word : ℕ → ℕ → ℕ → ℕ → ℕ → ℕ → ℕ → ℕ → ℕ → ℕ → Instruction
two_word opc ra iam rmd imd ims rb ibm iea ii = record {
  osz = 3;
  opc = opc;
  ra = ra;
  iam = iam;
  rmd = rmd;
  imd = imd;
  ims = ims;
  rb = rb;
  ibm = ibm;
  iea = iea;
  ii = ii;
}

-- The instructions that the macros of include/vm/instr.h build: `cHALT` and `cDBG` with the opcode
-- alone, one argument in a register (`rRa`, `mRa`) or immediate (`xIMa`, `mIMa`), two arguments with
-- the first in a register and the second in a register, immediate, or at an offset from a register
-- (`rbEA`). An immediate or offset is any number, whether it fits its mode or not. Each field is below
-- what its bits hold.
pub data IsForm : Instruction → Type 0 where
  plain : (opc : ℕ) → opc < 64 → IsForm (record zero_instruction { osz = 1; opc = opc })
  one_reg :
      (opc ra iam imd : ℕ)
      → opc < 64
      → ra < 16
      → iam < 2
      → imd < 4
      → IsForm (record zero_instruction { osz = 2; opc = opc; ra = ra; iam = iam; imd = imd })
  one_imm :
      (opc iam imd mode ii n : ℕ)
      → opc < 64
      → iam < 2
      → imd < 4
      → IsSized mode n
      → IsForm (one_imm_word opc iam imd mode ii)
  two_reg :
      (opc ra iam imd ims rb ibm : ℕ)
      → opc < 64
      → ra < 16
      → iam < 2
      → imd < 4
      → ims < 4
      → rb < 16
      → ibm < 2
      → IsForm (two_word opc ra iam 0 imd ims rb ibm 0 0)
  two_imm :
      (opc ra iam imd ims rb ibm ii n : ℕ)
      → opc < 64
      → ra < 16
      → iam < 2
      → imd < 4
      → rb < 16
      → ibm < 2
      → IsSized ims n
      → IsForm (two_word opc ra iam 1 imd ims rb ibm 0 ii)
  two_offset :
      (opc ra iam imd ims rb ibm ii n : ℕ)
      → opc < 64
      → ra < 16
      → iam < 2
      → imd < 4
      → rb < 16
      → ibm < 2
      → IsSized ims n
      → IsForm (two_word opc ra iam 0 imd ims rb ibm 1 ii)

-- The instruction as it is read back: a lone immediate argument has its mode moved from `ra` to `ims`,
-- and an immediate or offset is cut to the bytes of its mode and sign extended.
unfoldable pub decoded : Instruction → Instruction
decoded i =
    if i.osz == 2 && i.rmd == 1
    then record i { ims = i.ra; ra = 0; ii = cut_to i.ra i.ii }
    else if has_imm i
    then record i { ii = cut_to i.ims i.ii }
    else i

-- The bytes of an instruction, and what the decoder makes of them whatever follows.
pub record Decodes (i : Instruction) (bs : List ℕ) : Type 0 where
  pub written : encode i ≡ ok bs
  pub read : (post : List ℕ) → decode (bs ++ post) ≡ ok (decoded i, length bs)
  pub sized : 0 < length bs

-- An immediate of a mode's size can be read back.
pub imm_read :
    (mode n ii : ℕ)
    → mode_size mode ≡ some n
    → (post : List ℕ) → le_read n (le_bytes n ii ++ post) ≡ some (ii % 2 ^ (8 * n))
imm_read mode n ii e post = le_read-le_bytes n ii post (mode_size-IsSize mode e)

form-Decodes : {i : Instruction} → IsForm i → (bs : List ℕ) × Decodes i bs
unfolding encode decode decoded
form-Decodes (plain opc a) =
    (_, record { written = refl; read = λ post. ground arith; sized = omega arith })
form-Decodes (one_reg opc ra iam imd a b c d) =
    (_, record { written = refl; read = λ post. ground arith; sized = omega arith })
form-Decodes (two_reg opc ra iam imd ims rb ibm a b c d e f g) =
    (_, record { written = refl; read = λ post. ground arith; sized = omega arith })
form-Decodes (one_imm opc iam imd mode ii n a b c f) =
    let i = one_imm_word opc iam imd mode ii in
    (
      b1 i ∷ b2 i ∷ le_bytes n ii,
      record {
        written = ground (arith, f.1);
        read = λ post. ground (arith, f.1, imm_read mode n ii f.1 post, length-le_bytes n ii);
        sized = omega arith;
      },
    )
form-Decodes (two_imm opc ra iam imd ims rb ibm ii n a b c d e g f) =
    let i = two_word opc ra iam 1 imd ims rb ibm 0 ii in
    (
      b1 i ∷ b2 i ∷ b3 i ∷ le_bytes n ii,
      record {
        written = ground (arith, f.1);
        read = λ post. ground (arith, f.1, imm_read ims n ii f.1 post, length-le_bytes n ii);
        sized = omega arith;
      },
    )
form-Decodes (two_offset opc ra iam imd ims rb ibm ii n a b c d e g f) =
    let i = two_word opc ra iam 0 imd ims rb ibm 1 ii in
    (
      b1 i ∷ b2 i ∷ b3 i ∷ le_bytes n ii,
      record {
        written = ground (arith, f.1);
        read = λ post. ground (arith, f.1, imm_read ims n ii f.1 post, length-le_bytes n ii);
        sized = omega arith;
      },
    )

-- The bytes that `VM_code_append_` writes for an instruction of the macros (without arguments, with one,
-- or with two of which the first is in a register), wherever they stand in the code, are read back by `VM_code_instruction_at` as that instruction (a lone immediate's mode moved to
-- `ims`, and an immediate or offset, whatever its value, cut to the bytes of its mode and sign extended),
-- with the number of bytes written as its size.
pub instruction_at-encode :
    {i : Instruction}
    → IsForm i
    → (bs : List ℕ) × (encode i ≡ ok bs)
      × (0 < length bs)
      × ((pre post : List ℕ)
          → instruction_at (pre ++ (bs ++ post)) (length pre) ≡ ok (decoded i, length bs))
unfolding instruction_at
instruction_at-encode f =
    let (bs, d) = form-Decodes f in
    (bs, d.written, d.sized, λ pre post. rw drop-append (d.read post))

-- The number of bytes that an instruction takes.
pub byte_size : Instruction → ℕ
byte_size i = elim (encode i) [ ok bs ↦ length bs | fault e ↦ 0 ]

-- The listing of a program that starts at `ip`.
pub listing : ℕ → List Instruction → List (ℕ × Instruction)
unfolding byte_size
listing ip [] = []
listing ip (i ∷ seq) = (ip, decoded i) ∷ listing (ip + byte_size i) seq

code_append-append :
    (i : Instruction) {bs : List ℕ} (code : List ℕ) (seq : List Instruction)
    → encode i ≡ ok bs
    → code_append code (i ∷ seq) ≡ code_append (code ++ bs) seq
unfolding code_append
code_append-append i code seq e = rw (e, ◌>>=◌)

-- Disassembling from `ip` the code that ends at its end.
disassemble_step :
    (fuel ip n : ℕ) (code : List ℕ) (i : Instruction) {rest : List (ℕ × Instruction)}
    → ip < length code
    → instruction_at code ip ≡ ok (i, n)
    → 0 < n
    → disassemble_from fuel code (ip + n) ≡ ok rest
    → disassemble_from (suc fuel) code ip ≡ ok ((ip, i) ∷ rest)
unfolding disassemble_from
disassemble_step fuel ip n code i lt e pos h =
    let test : ltb ip (length code) ≡ true = ground arith in
    let nz : (n == 0) ≡ false = ground arith in rw (test, e, nz, h)

disassemble_end : (fuel : ℕ) (code : List ℕ) → disassemble_from fuel code (length code) ≡ ok []
unfolding disassemble_from
disassemble_end zero code = refl
disassemble_end (suc fuel) code =
    let test : ltb (length code) (length code) ≡ false = ground arith in rw test

listing-cons :
    (ip : ℕ) (i : Instruction) (seq : List Instruction) {bs : List ℕ}
    → encode i ≡ ok bs
    → listing ip (i ∷ seq) ≡ (ip, decoded i) ∷ listing (ip + length bs) seq
unfolding listing
listing-cons ip i seq e = rw (e, byte_size)

disassemble_more :
    (pre bs post : List ℕ) (i : Instruction) (seq : List Instruction)
    → encode i ≡ ok bs
    → 0 < length bs
    → instruction_at (pre ++ (bs ++ post)) (length pre) ≡ ok (decoded i, length bs)
    → ((fuel : ℕ)
        → length post ≤ fuel
        → disassemble_from fuel (pre ++ (bs ++ post)) (length pre + length bs)
          ≡ ok (listing (length pre + length bs) seq))
    → (fuel : ℕ) → length (bs ++ post) ≤ fuel
    → disassemble_from fuel (pre ++ (bs ++ post)) (length pre) ≡ ok (listing (length pre) (i ∷ seq))
disassemble_more pre bs post i seq written sized read listed zero h =
    absurd (omega (arith, length-append bs post))
disassemble_more pre bs post i seq written sized read listed (suc fuel) h =
    rw (listing-cons (length pre) i seq written) (
      disassemble_step fuel (length pre) (length bs) (pre ++ (bs ++ post)) (decoded i)
        (omega (arith, length-append pre (bs ++ post), length-append bs post)) read sized
        (listed fuel (omega (arith, length-append bs post))))

-- Appending instructions of the macros (without arguments, with one, or with two of which the first is in
-- a register) to some code and disassembling from the old end, with fuel for
-- the bytes appended, lists exactly those instructions, each at its address and as it is read back: with
-- an immediate or offset cut to the bytes of its mode and sign extended, and the mode of a lone
-- immediate in `ims`.
pub disassemble-code_append :
    (seq : List Instruction)
    → All IsForm seq
    → (pre : List ℕ)
    → (post : List ℕ) × (code_append pre seq ≡ ok (pre ++ post))
      × ((fuel : ℕ)
          → length post ≤ fuel
          → disassemble_from fuel (pre ++ post) (length pre) ≡ ok (listing (length pre) seq))
unfolding code_append listing
disassemble-code_append [] f pre =
    ([], rw append-nil, λ fuel _. rw append-nil (disassemble_end fuel pre))
disassemble-code_append (i ∷ seq) (f, fs) pre =
    let (bs, written, sized, read) = instruction_at-encode f in
    let (post, appended, listed) = disassemble-code_append seq fs (pre ++ bs) in
    (
      bs ++ post,
      code_append-append i pre seq written ∙ rw (append_assoc pre bs post) at appended,
      disassemble_more pre bs post i seq written sized (read pre post)
          (rw (append_assoc pre bs post, length-append pre bs) at listed),
    )
