-- ===== src/Lexer.antt =====
-- The lexer of the compiler, compiler/src/fidl/compiler/lexer.
pub mod Runes
pub mod Tokens
pub mod Machine
pub mod States
pub mod Moves
pub mod Left
pub mod Below
pub mod Ends
pub mod Longest
pub mod Stream
pub mod Positions
mod Tests
