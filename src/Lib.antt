-- ===== src/Lib.antt =====
-- A model of sim68xx, a simulator for the processors of the 6800 family, in its HD6303, HD6301,
-- 6800 and 6811 builds, with the theorems that make its core correct.
--
-- The program is a set of C files over global variables. A build links the parts that all processors
-- share (src/arch/m68xx and src/base) with the files of one chip (src/arch/h6303, h6301, m6800 or
-- m6811). A command loop calls `instr_exec`, which polls the interrupts, fetches an opcode through the
-- memory, runs its function from the opcode table, and lets the timers advance. The opcode functions use the
-- arithmetic/logic unit, the register macros and the memory; the memory calls the handlers of the
-- chip's internal registers; the stack pointer functions keep a list of active subroutines for the user.
--
-- The globals are one record, `Machine` (Machine.antt), and a C function is a function from the globals
-- to its result and the globals after it (`M`). Each definition has the name of its C function.
--   Machine, Machine/Reg    inc/arch/m68xx/reg.h: registers, flags, their macros
--   Alu                     src/arch/m68xx/alu.c
--   Callstack               src/base/callstac.c, and the stack pointer functions of src/arch/m68xx/reg.c
--   Memory                  src/arch/m68xx/memory.c, inc/arch/m68xx/ireg.h; `Chip` is what a chip brings
--   Opfunc                  src/arch/m68xx/opfunc.c: one definition for each opcode function, over any chip
--   H6303/Registers, Ireg   inc/arch/h6303/chip.h and src/arch/h6303/ireg.c: the chip as an instance
--   H6303/Timer, Sci        src/arch/h6303/timer.c and sci.c
--   H6303/Optab, Instr      src/arch/h6303/optab.c and instr.c
--   H6301                   src/arch/h6301 and inc/arch/h6301, file by file as for the HD6303: the same
--                           interface filled by a second chip
--   M6800                   src/arch/m6800 and inc/arch/m6800, with the ACIA in sci.c, as built with M6800
--   M6811/Opfunc            the 6811 section of src/arch/m68xx/opfunc.c
--   M6811/Optab             src/arch/m6811/optab.c: four tables, for one byte and after 0x18, 0x1a, 0xcd
--   M6811/Timer, Sci, Spi   src/arch/m6811/timer.c, sci.c and spi.c
--   M6811/Registers, Ireg   inc/arch/m6811/chip.h and src/arch/m6811/ireg.c: the third chip
--   M6811/Instr             src/arch/m6811/instr.c
--   Loader                  src/base/fileio.c, the S19 loader
--   Symtab                  src/base/symtab.c
--   I2c                     src/boards/i2c_sim.c: the I2C bus and the X9241 behind it, with its own globals
--   H6303/Run               src/base/cpu.c, the globals at start, and the steps of the simulator
-- The proofs stand beside: Alu/Add, Sub and Shift for the arithmetic, Callstack/Contents and
-- Callstack/Unwind for the list of frames, Memory/Access for reads after writes, H6303/Decode and
-- H6301/Agree for the opcode tables, Opfunc/Decide for branches, Opfunc/Decimal for DAA,
-- Opfunc/Pushed, Return and Interrupt for the processor's stack, Loader/Line and Loader/File for records
-- and files, Loader/Loop for their loop, Symtab/Entries and Symtab/Files for the table as a list,
-- I2c/Edges, Bytes, Writing, Reading and Others for the bus as its master sees it,
-- H6303/Fifo, Clock and Sticky for the serial interface and the timers, and Invariant with H6303/Laws,
-- Safety and Reach for what holds of every reachable machine; H6301/Laws, Safety and Clock are the same
-- for the HD6301 and M6800/Agree, Laws and Safety for the 6800, with H6303/Functions for the opcode
-- functions over any chip. Of the 6811, M6811/Functions, Rules, Rows, Laws and Safety carry the
-- invariant through its functions and tables; M6811/Interrupt is about interrupts, Decode about the
-- tables, Bits about BSET and BCLR, Divide about the divisions, Clock and Compare about the timer and
-- Fifo about the peripheral interface. Tests applies the theorems to machines.
--
-- Integers: a `u_char` or a bit-field keeps its low bits (`u8`, `u16`), a `u_int` has 32 bits and a
-- `u_long` 64; subtraction wraps (`sub32`, `sub64`). Where C leaves the order of evaluation open,
-- operands are taken from left to right. Output is a list of messages. An access past the end of an
-- array sets `Machine.undefined`, or `Bus.undefined` of I2c; what a run does after that in C is
-- open, and the model goes on with an array that has room. Two loops run on fuel: that of `reg_setsp`
-- pops a frame each round, so the number of frames is enough; that over the bytes of an S19 record
-- counts up to the size that the record gives, so the size is enough. The loops over the compare channels of the 6811 run over the
-- five of them; their ticks, of type long, are 64-bit numbers in two's complement.
--
-- `sscanf` of the C library is a parameter (`Scanf`, `SymbolScanf`), with what the C standard says of it
-- as a hypothesis (`IsScanf`); the lines that `fgets` delivers and what `fopen` finds are arguments.
--
-- Not modelled: the disassembler and other printing, the command interpreter, host input and output,
-- the boards but for the I2C bus, the mode of that bus which nothing selects, the hook of the 6811 that
-- nothing installs, the default that cpu_reset sets with M6800, and the 6805 with its section of
-- opfunc.c, whose registers have other widths.
pub mod Common
pub mod Machine
pub mod Loader
pub mod Symtab
pub mod I2c
pub mod Alu
pub mod Callstack
pub mod Memory
pub mod Opfunc
pub mod H6303
pub mod H6301
pub mod M6800
pub mod M6811
pub mod Invariant
pub mod Tests
