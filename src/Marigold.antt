-- ===== src/Marigold.antt =====
-- marigold/: the compiler of the Marigold language.
pub mod Tokens
pub mod Lexer
