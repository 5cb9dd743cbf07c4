-- ===== src/M6811/Safety.antt =====
-- src/arch/m6811/instr.c: every opcode has a function, and reset and every instruction preserve the
-- invariant.
use sim68xx.M6811.Ireg.{m6811}
use sim68xx.Common.{
  ℕ, ◌+◌, ◌/◌, ◌%◌, Bool, Option, none, some, List, [], All, if◌then◌else◌, arith, u32,
}
use sim68xx.Common.Lists.{get_or, get_or-All}
use sim68xx.Machine.{Machine, M, pure}
use sim68xx.Memory.{mem_getb}
use sim68xx.Invariant.{IsValid, Keeps}
use sim68xx.Invariant.Registers.{if-IsValid, reg_incpc-IsValid}
use sim68xx.Invariant.Memory.{mem_getb-IsValid}
use sim68xx.Invariant.Opfunc.{opfunc_rules}
use sim68xx.M6811.Sci.{sci_in}
use sim68xx.M6811.Spi.{spi_in}
use sim68xx.M6811.Laws.{
  m6811-Lawful, sci_in-IsValid, spi_in-IsValid, timer_inc-IsValid, timer_reset-IsValid,
}
use sim68xx.M6811.Rules.{
  KeepsFunc, KeepsOr, KeepsEntry, KeepsLater, trap_6811-IsValid, int_6811-IsValid,
}
use sim68xx.M6811.Functions.{opcodetab-IsValid, table_of-IsValid}
use sim68xx.M6811.Opfunc.Interrupt.{trap_6811}
use sim68xx.M6811.Optab.{opcodetab, table_of}
use sim68xx.M6811.Optab.Entry.{Opcode, Page, opcode}
use sim68xx.M6811.Instr.{
  reset, entry_of, next_entry, opcode_getentry, take_interrupt, poll_interrupts, call_func,
  fetch_execute, add_cycles, instr_exec,
}

entry_of-All :
    (P : Opcode → Type 0) (table : List (List Opcode)) (op : ℕ)
    → All (All P) table
    → P (opcode op 1 0 trap_6811 0 "-")
    → P (entry_of table op)
unfolding entry_of
entry_of-All P table op h hd =
    get_or-All P (get_or table (op / 16) []) (op % 16) (opcode op 1 0 trap_6811 0 "-")
      (get_or-All (All P) table (op / 16) [] h tt) hd

next_entry-KeepsLater :
    (pc : ℕ) (p : Opcode) (next : Option Page) (m : Machine)
    → KeepsOr next p.op_func
    → KeepsLater (next_entry pc p next m).0
unfolding next_entry
next_entry-KeepsLater pc p none m h = h
next_entry-KeepsLater pc p (some nexttab) m h =
    entry_of-All KeepsLater (table_of nexttab) (mem_getb (u32 (pc + 1)) m).0
      (table_of-IsValid nexttab) trap_6811-IsValid

-- Whatever the bytes at the program counter are, the entry that they select has a function, which
-- preserves the invariant.
pub opcode_getentry-KeepsLater : (pc : ℕ) (m : Machine) → KeepsLater (opcode_getentry pc m).0
unfolding opcode_getentry
opcode_getentry-KeepsLater pc m =
    next_entry-KeepsLater pc (entry_of opcodetab (mem_getb pc m).0) _ (mem_getb pc m).1
      (entry_of-All KeepsEntry opcodetab (mem_getb pc m).0 opcodetab-IsValid trap_6811-IsValid)

next_entry-IsValid : (pc : ℕ) (p : Opcode) (next : Option Page) → Keeps (next_entry pc p next)
unfolding next_entry
next_entry-IsValid pc p none m v = v
next_entry-IsValid pc p (some nexttab) m v = mem_getb-IsValid (u32 (pc + 1)) m v

opcode_getentry-IsValid : (pc : ℕ) → Keeps (opcode_getentry pc)
unfolding opcode_getentry
opcode_getentry-IsValid pc m v =
    next_entry-IsValid pc (entry_of opcodetab (mem_getb pc m).0) _ _ (mem_getb-IsValid pc m v)

call_func-IsValid : (f : Option (M (Unit {0}))) → KeepsFunc f → Keeps (call_func f)
unfolding call_func
call_func-IsValid none h = absurd h
call_func-IsValid (some c) h = h

take_interrupt-IsValid : (vector : Option ℕ) → Keeps (take_interrupt vector)
unfolding take_interrupt
take_interrupt-IsValid none m v = v
take_interrupt-IsValid (some addr) m v = int_6811-IsValid addr m v

poll_interrupts-IsValid : Keeps poll_interrupts
unfolding poll_interrupts
poll_interrupts-IsValid m v = take_interrupt-IsValid _ m v

fetch_execute-IsValid : Keeps fetch_execute
unfolding fetch_execute
fetch_execute-IsValid m v =
    let o = (opcode_getentry m.regs.pc m).0 in
    let m1 = (opcode_getentry m.regs.pc m).1 in
    call_func-IsValid o.op_func (opcode_getentry-KeepsLater m.regs.pc m) _
      (reg_incpc-IsValid o.op_n_opcodes m1 (opcode_getentry-IsValid m.regs.pc m v))

add_cycles-IsValid : (n : ℕ) → Keeps (add_cycles n)
add_cycles-IsValid n m v = ground arith

set_start-IsValid : (n : ℕ) (m : Machine) → IsValid m → IsValid (record m { ireg_start = n })
set_start-IsValid n m v = ground arith

execute-IsValid :
    (b : Bool) → Keeps {A = Opcode} (if b then pure (entry_of opcodetab 0x3f) else fetch_execute)
execute-IsValid b = if-IsValid b _ _ (λ m v. v) fetch_execute-IsValid

-- A reset of the 6811, one call of `instr_exec`, whatever the opcode on the four tables, the operands
-- and the interrupts pending, and input to the serial and the peripheral interface keep a valid machine
-- valid.
pub m6811_steps-IsValid :
    (s : List ℕ) (m : Machine)
    → IsValid m
    → IsValid (reset m).1
      × IsValid (instr_exec m).1
      × IsValid (sci_in s m).1
      × IsValid (spi_in s m).1
unfolding reset instr_exec
m6811_steps-IsValid s m v = (
  search (opfunc_rules, set_start-IsValid, timer_reset-IsValid) depth 14,
  search (poll_interrupts-IsValid, execute-IsValid, add_cycles-IsValid, timer_inc-IsValid) depth 10,
  sci_in-IsValid s m v,
  spi_in-IsValid s m v,
)
