-- ===== src/M6800.antt =====
-- The 6800: src/arch/m6800, with inc/arch/m6800/chip.h and sci.h.
pub mod Registers
pub mod Sci
pub mod Ireg
pub mod Optab
pub mod Instr
pub mod Agree
pub mod Laws
pub mod Safety
