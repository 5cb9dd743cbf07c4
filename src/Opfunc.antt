-- ===== src/Opfunc.antt =====
-- src/arch/m68xx/opfunc.c: the functions that execute 6800, 6801 and 6301 instructions, one definition
-- for each, by what they do. They are the same for every chip: the chip is an instance argument.
pub mod Address
pub mod Modify
pub mod Addition
pub mod Subtraction
pub mod Logic
pub mod Shift
pub mod Branch
pub mod Load
pub mod Transfer
pub mod Decide
pub mod Decimal
pub mod Pushed
pub mod Words
pub mod Return
pub mod Interrupt
pub mod Immediate
