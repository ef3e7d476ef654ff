-- ===== src/Vm/Tests.antt =====
-- Runs of whole programs on the machine.
use cyntatic.Prelude.{ℕ, ◌≡◌, refl, Bool, true, List, [], ◌∷◌}
use cyntatic.Vm.Heap
use cyntatic.Vm.Value.{mode_size, le_read, le_bytes, sign_extend}
use cyntatic.Vm.Run.{Run, ok, fault, Fault, unknown_instruction, ◌>>=◌}
use cyntatic.Vm.Instr.{Instruction, zero_instruction, opcode_of}
use cyntatic.Vm.Code.{code_append, header_db}
use cyntatic.Vm.State.{Vm, Output, number, read, write}
use cyntatic.Vm.Start.{vm_init, vm_run}

-- A code header without constants.
abbrev header : List ℕ
header = 0 ∷ 0 ∷ 0 ∷ 0 ∷ 0 ∷ 0 ∷ 0 ∷ 0 ∷ 16 ∷ 0 ∷ 0 ∷ 0 ∷ 0 ∷ 0 ∷ 0 ∷ 0 ∷ []

-- `op r1 v`, with a word immediate on a quad register.
abbrev reg_imm : ℕ → ℕ → Instruction
reg_imm op v = record zero_instruction {
  osz = 3;
  opc = op;
  ra = 1;
  rmd = 1;
  imd = 3;
  ims = 2;
  ii = v;
}

abbrev reg_op : ℕ → Instruction
reg_op op = record zero_instruction { osz = 2; opc = op; ra = 1; imd = 3 }

-- mov r1 5; add r1 7; push r1; pop r1; puti r1; halt
abbrev sum_program : List Instruction
sum_program =
    reg_imm 24 5
    ∷ reg_imm 25 7
    ∷ reg_op 13
    ∷ reg_op 14
    ∷ reg_op 16
    ∷ record zero_instruction { osz = 1; opc = 0 }
    ∷ []

no_native : ℕ → Vm → ℕ → ℕ → Run Vm
no_native id vm argv n = fault Fault.undefined

output : Run (Bool × Vm) → Run (Bool × List Output)
output r = do (ended, vm) ← r; ok (ended, vm.out)

run_program : List Instruction → ℕ → Run (Bool × List Output)
unfolding code_append vm_init vm_run no_native output mode_size header_db le_read Heap.alloc
    le_bytes opcode_of read write sign_extend
run_program seq fuel = do
  code ← code_append header seq
  vm ← vm_init (λ a. 0) 0x10000 code 4096 4 256
  output (vm_run no_native fuel vm ((b'a' ∷ []) ∷ []))

sum_runs : run_program sum_program 10 ≡ ok (true, number 12 ∷ [])
unfolding run_program
sum_runs = refl

-- `mod` is assembled and decoded, and the machine has no case for it.
mod_aborts : run_program (reg_imm 36 5 ∷ []) 10 ≡ fault unknown_instruction
unfolding run_program
mod_aborts = refl
