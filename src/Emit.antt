-- ===== src/Emit.antt =====
-- The code emitter: src/emit.c. Byte buffers, tables of symbols, relocations and branch patches,
-- and the encodings of instructions as bytes. A register is its number in `X86Reg`; an `int32_t`,
-- an `int8_t` or a `uint8_t` is its bit pattern.
pub mod Buffer
pub mod Encode
pub mod State
pub mod Frame
pub mod Saved
pub mod Insts
pub mod Funcs
pub mod Decode
pub mod Fields
pub mod Formats
pub mod Instructions
pub mod Addresses
pub mod Growth
pub mod Patches
pub mod Steps
pub mod Order
pub mod Targets
pub mod Jumps
pub mod Recorded
pub mod Symbols
