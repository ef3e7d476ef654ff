-- ===== src/Vm/Builder/Tests.antt =====
-- The theorem on the linker applied, and a small program linked.
use cyntatic.Prelude.{◌+◌, ◌-◌, ◌%◌, ◌≡◌, refl, some, List, [], ◌∷◌, get_elem?, arith}
use cyntatic.Word.{u64_mod}
use cyntatic.Vm.Instr.{Instruction, zero_instruction}
use cyntatic.Vm.Builder.{link_loop, is_patched}
use cyntatic.Vm.Builder.Distance.{link_loop-distance, address}

-- A jump with an immediate of four bytes, and a halt.
abbrev jump_to : Instruction
jump_to = record zero_instruction { osz = 2; rmd = 1; ra = 2; ims = 2 }

abbrev program : List Instruction
program = jump_to ∷ record zero_instruction { osz = 1 } ∷ []

link_loop-distance_example :
    get_elem? (link_loop ((0, b'e' ∷ []) ∷ []) ((1, 0) ∷ []) 2 0 16 program) 0
    ≡ some (record jump_to {
      ii = (0 + (u64_mod - address program 16 0) + address program 16 1) % u64_mod;
    })
unfolding is_patched
link_loop-distance_example =
    link_loop-distance ((0, b'e' ∷ []) ∷ []) [] [] 1 0 16 program refl _ _ (omega arith) 2 jump_to
      refl (omega arith) (omega arith) (omega arith)
