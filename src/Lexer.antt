-- ===== src/Lexer.antt =====
-- The lexer: src/lexer.c and src/lexer.h, with the tokens of src/common.h.
-- The text is what is left of the source: a list of bytes, whose end reads as the byte 0 that ends
-- a C string. Positions count as in the source, lines and columns modulo 2^32.
pub mod Kinds
pub mod Spelling
pub mod Cursor
pub mod Operators
pub mod Scan
pub mod Stream
pub mod Moves
pub mod Progress
pub mod Lookahead
pub mod Strings
pub mod Words
