-- ===== src/Vm.antt =====
-- The virtual machine (include/vm, src/vm).
pub mod Builder
pub mod Heap
pub mod Run
pub mod Value
pub mod Instr
pub mod Code
pub mod State
pub mod Stack
pub mod Alu
pub mod Exec
pub mod Start
pub mod Names
pub mod Opcodes
mod Tests
mod Examples
