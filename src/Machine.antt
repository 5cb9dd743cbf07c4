-- ===== src/Machine.antt =====
-- The globals of the linked simulator as one record, and the commands that read and write them:
-- `struct regs` (inc/arch/m68xx/reg.h), `struct cpu` (inc/base/cpu.h), the memory variables
-- (src/arch/m68xx/memory.c), the call stack (src/base/callstac.c), and the internal registers, timer,
-- SCI and SPI variables of the chips (src/arch/h6303, h6301 and m6811).
pub mod Reg
pub mod Flags
use sim68xx.Common.{ℕ, Bool, List, ◌∷◌, ◌++◌, [], u8, u16}

-- The bit-fields of `struct regs`: 8 bits wide `a`, `b` and `ccr`, 16 bits the others.
pub record Regs : Type 0 where
  pub a : ℕ
  pub b : ℕ
  pub ix : ℕ
  pub iy : ℕ
  pub sp : ℕ
  pub pc : ℕ
  pub ccr : ℕ

-- `struct cpu`; `running` is `state == RUNNING`.
pub record Cpu : Type 0 where
  pub stack_min : ℕ
  pub stack_max : ℕ
  pub ncycles : ℕ
  pub running : Bool

-- `ram` and `breaks` are arrays of `memsize` bytes: an access past their end sets `Machine.undefined`.
pub record Memory : Type 0 where
  pub ram : ℕ → ℕ
  pub ram_start : ℕ
  pub ram_end : ℕ
  pub breaks : ℕ → ℕ
  pub break_flag : Bool
  pub break_addr : ℕ

-- `struct callstack`: `elements` as two arrays, `sp` the first free index.
pub record Callstack : Type 0 where
  pub sp : ℕ
  pub entry_point : ℕ → ℕ
  pub stack_on_entry : ℕ → ℕ

-- The statics of the sci.c and timer.c of the chips. The 6811 calls those of sci.c `sci_recvbuf`,
-- `sci_rx_index`, `sci_rx_ints` and `sci_tx_ints`.
pub record Sci : Type 0 where
  pub recvbuf : ℕ → ℕ
  pub rxindex : ℕ
  pub rxinterrupts : ℕ
  pub txinterrupts : ℕ

pub record Timer : Type 0 where
  pub tcsr_is_read : Bool
  pub tcsr2_is_read : Bool

-- The statics of src/arch/m6811/spi.c.
pub record Spi : Type 0 where
  pub spsr_is_read : Bool
  pub spi_interrupt : Bool
  pub spi_rx_buf : ℕ → ℕ
  pub spi_rx_nbytes : ℕ
  pub spi_rx_index : ℕ

-- What the program prints, as a value.
pub data Message : Type 0 where
  error_getb error_putb trapped : ℕ → ℕ → Message
  too_many_nestings : Message
  below_stack_min above_stack_max : ℕ → Message
  put : ℕ → Message
  rti_mismatch : ℕ → ℕ → Message
  interrupt : ℕ → Message
  checksum : ℕ → ℕ → Message
  invalid_s19 : Message
  bad_line : ℕ → Message
  toc_unsupported : ℕ → Message

pub record Machine : Type 0 where
  pub regs : Regs
  pub cpu : Cpu
  pub mem : Memory
  pub callstack : Callstack
  pub ireg_start : ℕ
  pub iram : ℕ → ℕ
  pub sci : Sci
  pub timer : Timer
  pub spi : Spi
  -- `toc[i].ticks` of src/arch/m6811/timer.c, a `long`: 64 bits in two's complement.
  pub toc_ticks : ℕ → ℕ
  pub rti_pc : ℕ
  pub call_level : ℕ
  -- What was printed, the latest first.
  pub messages : List Message
  -- No variable of the program: an access outside an array was made, which C leaves undefined.
  pub undefined : Bool

-- A C function over the globals: its result and the globals after it.
abbrev pub M : Type 0 → Type 0
M A = Machine → A × Machine

abbrev pub pure : {A : Type 0} → A → M A
pure a s = (a, s)

infixl 5 ◌>>=◌ ◌>>◌
abbrev pub ◌>>=◌ : {A B : Type 0} → M A → (A → M B) → M B
◌>>=◌ m f s = let (a, s') = m s in f a s'

abbrev pub ◌>>◌ : {B : Type 0} → M (Unit {0}) → M B → M B
m >> k = m >>= λ _. k

abbrev pub modify : (Machine → Machine) → M (Unit {0})
modify f s = (tt, f s)

abbrev pub gets : {A : Type 0} → (Machine → A) → M A
gets f s = (f s, s)

abbrev pub when : Bool → M (Unit {0}) → M (Unit {0})
when Bool.true m = m
when Bool.false m = pure tt

-- A call for its effect: the value is dropped.
abbrev pub drop_value : {A : Type 0} → M A → M (Unit {0})
drop_value m s = (tt, (m s).1)

unfoldable pub report : Message → M (Unit {0})
report e = modify (λ s. record s { messages = e ∷ s.messages })

-- `a[i] = v`.
abbrev pub update : (ℕ → ℕ) → ℕ → ℕ → ℕ → ℕ
update f i v j = sim68xx.Common.if◌then◌else◌ (sim68xx.Common.◌==◌ i j) v (f j)
