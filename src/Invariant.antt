-- ===== src/Invariant.antt =====
-- What holds of the globals between two instructions: registers and bytes within their widths, the
-- call stack within its array and nested, the receive buffers within their arrays.
pub mod Registers
pub mod Stack
pub mod Alu
pub mod Memory
pub mod Opfunc
pub mod Rows
use sim68xx.Common.{ℕ, ◌+◌, ◌^◌, ◌≤◌, ◌<◌, [], ◌∷◌}
use sim68xx.Machine.{Machine, M}
use sim68xx.Callstack.{max_callstack}
use sim68xx.Callstack.Contents.{Frames, contents}
use sim68xx.H6303.Sci.{bufsize}
use sim68xx.H6303.Optab.Entry.{Opcode}

-- From the top on, each frame's stack pointer is at least that of the one above it, and that of the
-- top frame at least `lo`.
abbrev pub IsNested : ℕ → Frames → Type 0
IsNested lo [] = Unit
IsNested lo ((a, s) ∷ frames) = (lo ≤ s) × (s < 2 ^ 16) × IsNested s frames

pub record IsValid (m : Machine) : Type 0 where
  pub a_byte : m.regs.a < 2 ^ 8
  pub b_byte : m.regs.b < 2 ^ 8
  pub ccr_byte : m.regs.ccr < 2 ^ 8
  pub ix_word : m.regs.ix < 2 ^ 16
  pub iy_word : m.regs.iy < 2 ^ 16
  pub sp_word : m.regs.sp < 2 ^ 16
  pub pc_word : m.regs.pc < 2 ^ 16
  pub ram_bytes : (i : ℕ) → m.mem.ram i < 2 ^ 8
  pub iram_bytes : (i : ℕ) → m.iram i < 2 ^ 8
  pub frames_fit : m.callstack.sp ≤ max_callstack
  pub nested : IsNested m.regs.sp (contents m.callstack)
  pub received_fit : m.sci.rxindex + m.sci.rxinterrupts ≤ bufsize
  pub clocked_fit : m.spi.spi_rx_index ≤ m.spi.spi_rx_nbytes
  pub clocked_room : m.spi.spi_rx_nbytes ≤ bufsize

-- A command that preserves the invariant.
abbrev pub Keeps : {A : Type 0} → M A → Type 0
Keeps c = (m : Machine) → IsValid m → IsValid (c m).1

abbrev pub KeepsOpcode : Opcode → Type 0
KeepsOpcode o = Keeps o.op_func
