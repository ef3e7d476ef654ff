-- ===== src/Vm/Instr.antt =====
-- The instruction word (include/vm/vm.h): its bit fields, the registers and the operation codes. Each
-- bit field is a number; `IsWord` gives their widths. `osz` and the low bits of each byte come first, as
-- gcc and clang lay bit fields out on the machines the project builds for.
use cyntatic.Prelude.{ℕ, ◌+◌, ◌*◌, ◌/◌, ◌%◌, ◌<◌, List, [], ◌∷◌, Option, get_elem?}
use cyntatic.Word.{u64_mod}

-- `Instruction`. `ii` is the bit pattern of the immediate.
pub record Instruction : Type 0 where
  pub osz : ℕ
  pub opc : ℕ
  pub ra : ℕ
  pub iam : ℕ
  pub rmd : ℕ
  pub imd : ℕ
  pub ims : ℕ
  pub rb : ℕ
  pub ibm : ℕ
  pub iea : ℕ
  pub ii : ℕ

-- `Instruction instr = {0}`.
abbrev pub zero_instruction : Instruction
zero_instruction = record {
  osz = 0;
  opc = 0;
  ra = 0;
  iam = 0;
  rmd = 0;
  imd = 0;
  ims = 0;
  rb = 0;
  ibm = 0;
  iea = 0;
  ii = 0;
}

-- The widths of the fields.
pub record IsWord (i : Instruction) : Type 0 where
  pub osz : i.osz < 4
  pub opc : i.opc < 64
  pub ra : i.ra < 16
  pub iam : i.iam < 2
  pub rmd : i.rmd < 2
  pub imd : i.imd < 4
  pub ims : i.ims < 4
  pub rb : i.rb < 16
  pub ibm : i.ibm < 2
  pub iea : i.iea < 2
  pub ii : i.ii < u64_mod

-- The three bytes as the union shows them.
unfoldable pub b1 : Instruction → ℕ
b1 i = i.osz + 4 * i.opc

unfoldable pub b2 : Instruction → ℕ
b2 i = i.ra + 16 * i.iam + 32 * i.rmd + 64 * i.imd

unfoldable pub b3 : Instruction → ℕ
b3 i = i.ims + 4 * i.rb + 64 * i.ibm + 128 * i.iea

-- A store to each byte sets its fields.
unfoldable pub set_b1 : Instruction → ℕ → Instruction
set_b1 i b = record i { osz = b % 4; opc = b / 4 }

unfoldable pub set_b2 : Instruction → ℕ → Instruction
set_b2 i b = record i { ra = b % 16; iam = b / 16 % 2; rmd = b / 32 % 2; imd = b / 64 }

unfoldable pub set_b3 : Instruction → ℕ → Instruction
set_b3 i b = record i { ims = b % 4; rb = b / 4 % 16; ibm = b / 64 % 2; iea = b / 128 }

-- `VM_OP_CODES`, in its order.
pub data Opcode : Type 0 where
  halt dbg ret jmp jmpz jmpnz jmpg jmps lnot bnot inc dec call push pop popn puti puts putc : Opcode
  mcpy dlloc ncall alloca rmem mov add sub and or sar sal xor bor band mul div mod_op cmp alloc :
      Opcode

pub opcodes : List Opcode
opcodes =
    halt ∷ dbg ∷ ret ∷ jmp ∷ jmpz ∷ jmpnz ∷ jmpg ∷ jmps ∷ lnot ∷ bnot ∷ inc ∷ dec ∷ call ∷ push
    ∷ pop ∷ popn ∷ puti ∷ puts ∷ putc ∷ mcpy ∷ dlloc ∷ ncall ∷ alloca ∷ rmem ∷ mov ∷ add ∷ sub ∷ and
    ∷ or ∷ sar ∷ sal ∷ xor ∷ bor ∷ band ∷ mul ∷ div ∷ mod_op ∷ cmp ∷ alloc ∷ []

-- The operation of a six-bit code, `none` from `opcCOUNT` on.
unfoldable pub opcode_of : ℕ → Option Opcode
unfolding opcodes
opcode_of n = get_elem? opcodes n
