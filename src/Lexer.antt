-- ===== src/Lexer.antt =====
-- src/lexer.hpp and src/lexer.cpp: the lexer. Token types and keywords are in Token, the character
-- stream in Chars, the scanners in Scan; the other modules hold the proofs.
pub mod Token
pub mod Chars
pub mod Result
pub mod Scan
pub mod Stream
pub mod Consumes
pub mod Scanned
pub mod Lexeme
pub mod Forward
pub mod Comments
pub mod Munch
