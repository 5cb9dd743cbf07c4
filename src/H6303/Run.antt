-- ===== src/H6303/Run.antt =====
-- The life of the simulator: the globals at start (src/arch/m68xx/memory.c `mem_init`), `cpu_reset` of
-- src/base/cpu.c, and what the command loop and the boards do to the chip.
use sim68xx.Common.{ℕ, true, false, if◌then◌else◌, List, []}
use sim68xx.Machine.{Machine, Memory, M, ◌>>◌, modify}
use sim68xx.Machine.Reg.{nonzero}
use sim68xx.H6303.Sci.{sci_in}
use sim68xx.H6303.Instr.{reset, instr_exec}

-- `mem_init`: 64 KB of 0xff, no breakpoint.
abbrev pub mem_init : Memory
mem_init = record {
  ram = λ i. 0xff;
  ram_start = 0;
  ram_end = 65535;
  breaks = λ i. 0;
  break_flag = false;
  break_addr = 0;
}

-- The globals of C are zero before `mem_init`.
abbrev pub initial : Machine
initial = record {
  regs = record { a = 0; b = 0; ix = 0; iy = 0; sp = 0; pc = 0; ccr = 0 };
  cpu = record { stack_min = 0; stack_max = 0; ncycles = 0; running = false };
  mem = mem_init;
  callstack = record { sp = 0; entry_point = λ i. 0; stack_on_entry = λ i. 0 };
  ireg_start = 0;
  iram = λ i. 0;
  sci = record { recvbuf = λ i. 0; rxindex = 0; rxinterrupts = 0; txinterrupts = 0 };
  timer = record { tcsr_is_read = false; tcsr2_is_read = false };
  spi = record {
    spsr_is_read = false;
    spi_interrupt = false;
    spi_rx_buf = λ i. 0;
    spi_rx_nbytes = 0;
    spi_rx_index = 0;
  };
  toc_ticks = λ i. 0;
  rti_pc = 0;
  call_level = 0;
  messages = [];
  undefined = false;
}

-- The build is not M6800.
unfoldable pub cpu_reset : M (Unit {0})
cpu_reset = do
  reset
  modify (λ m. record m {
    cpu = record m.cpu {
      ncycles = 0;
      stack_max = if nonzero m.cpu.stack_max then m.cpu.stack_max else 0x00ff;
    };
  })

abbrev pub cpu_start : M (Unit {0})
cpu_start = modify (λ m. record m { cpu = record m.cpu { running = true } })

abbrev pub cpu_stop : M (Unit {0})
cpu_stop = modify (λ m. record m { cpu = record m.cpu { running = false } })

-- One step: an instruction, a reset, bytes that arrive at the serial interface, or a start or stop
-- of the processor by the command loop.
pub data Step (m : Machine) : Machine → Type 0 where
  executed : Step m (instr_exec m).1
  restarted : Step m (cpu_reset m).1
  received : (s : List ℕ) → Step m (sci_in s m).1
  started : Step m (cpu_start m).1
  stopped : Step m (cpu_stop m).1

pub data Reach (m : Machine) : Machine → Type 0 where
  here : Reach m m
  next : {m' m'' : Machine} → Reach m m' → Step m' m'' → Reach m m''
