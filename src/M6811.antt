-- ===== src/M6811.antt =====
-- The 6811: src/arch/m6811, with inc/arch/m6811, and its section of src/arch/m68xx/opfunc.c.
pub mod Registers
pub mod Opfunc
pub mod Timer
pub mod Sci
pub mod Spi
pub mod Ireg
pub mod Optab
pub mod Instr
pub mod Rules
pub mod Rows
pub mod Laws
pub mod Functions
pub mod Safety
pub mod Interrupt
pub mod Divide
pub mod Clock
pub mod Compare
pub mod Bits
pub mod Fifo
pub mod Decode
