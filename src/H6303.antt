-- ===== src/H6303.antt =====
-- The HD6303: src/arch/h6303, with inc/arch/h6303/chip.h.
pub mod Registers
pub mod Timer
pub mod Sci
pub mod Ireg
pub mod Optab
pub mod Instr
pub mod Run
pub mod Laws
pub mod Functions
pub mod Safety
pub mod Fifo
pub mod Clock
pub mod Sticky
pub mod Reach
pub mod Decode
