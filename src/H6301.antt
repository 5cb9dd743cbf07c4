-- ===== src/H6301.antt =====
-- The HD6301: src/arch/h6301, with inc/arch/h6301/chip.h.
pub mod Registers
pub mod Timer
pub mod Sci
pub mod Ireg
pub mod Optab
pub mod Instr
pub mod Agree
pub mod Clock
pub mod Laws
pub mod Safety
