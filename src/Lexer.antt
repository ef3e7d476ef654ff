-- ===== src/Lexer.antt =====
-- The lexer (include/compiler/common/lexer.h, src/compiler/common/lexer.c).
pub mod State
pub mod Keywords
pub mod Escape
pub mod Number
pub mod Literal
pub mod Words
pub mod Tokenize
pub mod Next
pub mod Moves
pub mod Reached
pub mod Name
pub mod Spelling
pub mod Decimal
pub mod Word
mod Tests
