-- ===== src/M6811/Opfunc.antt =====
-- src/arch/m68xx/opfunc.c, the section that only the 6811 build compiles.
pub mod Address
pub mod Interrupt
pub mod Divide
pub mod Bits
pub mod Indexed
pub mod Words
