-- ===== src/Vm/Examples.antt =====
-- The theorems on the virtual machine at concrete machines and programs.
use cyntatic.Prelude.{
  ℕ, ◌+◌, ◌-◌, ◌*◌, ◌%◌, ◌^◌, ◌≤◌, ◌<◌, ◌≡◌, refl, false, List, [], ◌∷◌, ◌++◌, arith, length, ◌==◌,
  if◌then◌else◌, some,
}
use cyntatic.Vm.Heap.{heap_init}
use cyntatic.Vm.Value.{mode_size, integer_size, sign_extend, le_bytes, integer_size-sign_extend}
use cyntatic.Vm.Run.{Run, ok, fault, undefined}
use cyntatic.Vm.Instr.{Instruction, zero_instruction}
use cyntatic.Vm.Code.{encode, instruction_at, fetch, code_append, disassemble_from}
use cyntatic.Vm.Code.Decode.{
  IsForm, plain, two_imm, decoded, instruction_at-encode, listing, disassemble-code_append,
}
use cyntatic.Vm.Code.Fetch.{fetch-instruction_at}
use cyntatic.Vm.State.{Vm, sp, ip, bp, set_reg, mem, write, read, ram_value, ram_store}
use cyntatic.Vm.State.Laws.{read-write}
use cyntatic.Vm.Stack.{push, pop, enter_frame, leave_frame}
use cyntatic.Vm.Stack.Laws.{pop-push, leave_frame-enter_frame, entered}
use cyntatic.Vm.Exec.{execute}
use cyntatic.Vm.Start.{step}
use cyntatic.Vm.Start.Loop.{step-encode}

no_native : ℕ → Vm → ℕ → ℕ → Run Vm
no_native id vm argv n = fault undefined

-- add r1 200, in a byte: the immediate is read back as -56.
abbrev add_200 : Instruction
add_200 = record {
  osz = 3;
  opc = 25;
  ra = 1;
  iam = 0;
  rmd = 1;
  imd = 3;
  ims = 0;
  rb = 0;
  ibm = 0;
  iea = 0;
  ii = 200;
}

abbrev halt : Instruction
halt = record zero_instruction { osz = 1; opc = 0 }

add_200-IsForm : IsForm add_200
unfolding mode_size sign_extend
add_200-IsForm =
    two_imm 25 1 0 3 0 0 0 200 1 (omega arith) (omega arith) (omega arith) (omega arith)
      (omega arith) (omega arith) (omega arith, refl)

minus_56 : (decoded add_200).ii ≡ 2 ^ 64 - 56
unfolding decoded mode_size sign_extend
minus_56 = refl

halt-IsForm : IsForm halt
halt-IsForm = plain 0 (omega arith)

-- A machine whose code is a `halt`, with one value pushed: the number of arguments, 1.
abbrev machine : Vm
machine = record {
  halted = false;
  regs = λ r. if r == sp then 4000 else 0;
  code = 1 ∷ [];
  ram = λ a. if a == 4000 then 1 else 0;
  base = 0x10000;
  sb = 2048;
  hb = 16;
  hlm = 2040;
  size = 4096;
  heap = heap_init 16 2040 4 16 8;
  out = [];
}

instruction_at-encode_example :
    (bs : List ℕ) × (encode add_200 ≡ ok bs)
    × (0 < length bs)
    × ((pre post : List ℕ)
        → instruction_at (pre ++ (bs ++ post)) (length pre) ≡ ok (decoded add_200, length bs))
instruction_at-encode_example = instruction_at-encode add_200-IsForm

disassemble-code_append_example :
    (post : List ℕ) × (code_append (9 ∷ []) (add_200 ∷ halt ∷ []) ≡ ok ((9 ∷ []) ++ post))
    × ((fuel : ℕ)
        → length post ≤ fuel
        → disassemble_from fuel ((9 ∷ []) ++ post) 1 ≡ ok (listing 1 (add_200 ∷ halt ∷ [])))
disassemble-code_append_example =
    disassemble-code_append (add_200 ∷ halt ∷ []) (add_200-IsForm, (halt-IsForm, tt)) (9 ∷ [])

fetch-instruction_at_example : fetch (9 ∷ 1 ∷ []) 1 ≡ ok (halt, 2)
unfolding instruction_at
fetch-instruction_at_example = fetch-instruction_at (9 ∷ 1 ∷ []) 1 refl (omega arith)

step-encode_example :
    step no_native machine ≡ execute no_native (set_reg machine ip (0 + 1)) (decoded halt) 0
unfolding encode
step-encode_example = step-encode no_native halt-IsForm (1 ∷ []) refl [] [] machine refl refl

pop-push_example :
    (vm1 : Vm) × (vm2 : Vm) × (push machine 77 ≡ ok vm1)
    × (pop vm1 ≡ ok (77, vm2))
    × (vm2.regs sp ≡ 4000)
    × ((q : ℕ) → 4000 ≤ q → vm2.ram q ≡ machine.ram q)
pop-push_example = pop-push machine 77 (omega arith, omega arith, omega arith) (omega arith)

leave_frame-enter_frame_example :
    (enter_frame machine ≡ ok (entered machine))
    × ((vm3 : Vm) × (leave_frame (entered machine) ≡ ok vm3)
        × (vm3.regs sp ≡ 4000 + 8 + 1 * 8)
        × (vm3.regs ip ≡ 0)
        × (vm3.regs bp ≡ 0)
        × (vm3.ram ≡ (entered machine).ram))
unfolding ram_value
leave_frame-enter_frame_example =
    leave_frame-enter_frame machine (entered machine) 1 (omega arith, omega arith, omega arith)
      (omega arith) (omega arith) refl (omega arith) (omega arith) refl refl (λ q a b. refl)

read-write_example :
    read (record machine { ram = ram_store machine.ram 100 (44 ∷ 1 ∷ []) }) (mem 100) 1
    ≡ ok (sign_extend 2 (300 % 2 ^ (8 * 2)))
unfolding write mode_size le_bytes
read-write_example = read-write machine (mem 100) 300 1 2 refl tt refl

integer_size-sign_extend_example :
    (n : ℕ) × (mode_size (integer_size 300) ≡ some n) × (sign_extend n (300 % 2 ^ (8 * n)) ≡ 300)
integer_size-sign_extend_example = integer_size-sign_extend 300 (omega arith)
