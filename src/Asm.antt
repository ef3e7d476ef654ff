-- ===== src/Asm.antt =====
-- The assembler (src/compiler/asm/asm.c).
pub mod State
pub mod Symbols
pub mod Argument
pub mod Statement
pub mod Assemble
pub mod Keeps
pub mod Bounds
pub mod Code
pub mod Low
pub mod Ends
pub mod Throws
pub mod Faults
pub mod Decoded
pub mod Labels
mod Tests
