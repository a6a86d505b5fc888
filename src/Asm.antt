-- ===== src/Asm.antt =====
-- The assembler, src/asm.
pub mod Driver
pub mod Encode
pub mod Immediate
pub mod Line
pub mod Mnemonics
pub mod Operands
pub mod Registers
pub mod Symbols
pub mod Tokens
