-- ===== src/H6303/Safety.antt =====
-- src/arch/h6303/instr.c: reset and every instruction preserve the invariant.
use sim68xx.Common.{ℕ, arith, Bool, false, Option, none, some, if◌then◌else◌}
use sim68xx.Machine.{Machine, pure}
use sim68xx.Invariant.{IsValid, Keeps}
use sim68xx.Invariant.Registers.{if-IsValid, when-IsValid, report-IsValid, reg_incpc-IsValid}
use sim68xx.Invariant.Memory.{mem_getb-IsValid}
use sim68xx.Invariant.Opfunc.{int_addr-IsValid, opfunc_rules}
use sim68xx.H6303.Ireg.{h6303}
use sim68xx.H6303.Laws.{h6303-Lawful, timer_inc-IsValid}
use sim68xx.H6303.Functions.{lookup_opcode-IsValid}
use sim68xx.H6303.Optab.{lookup_opcode}
use sim68xx.H6303.Optab.Entry.{Opcode}
use sim68xx.H6303.Instr.{
  reset, take_interrupt, poll_interrupts, fetch_execute, add_cycles, instr_exec,
}

take_interrupt-IsValid : (vector : Option ℕ) → Keeps (take_interrupt vector)
unfolding take_interrupt
take_interrupt-IsValid none m v = v
take_interrupt-IsValid (some addr) m v = int_addr-IsValid addr m v

poll_interrupts-IsValid : Keeps poll_interrupts
unfolding poll_interrupts
poll_interrupts-IsValid m v = take_interrupt-IsValid _ m v

fetch_execute-IsValid : Keeps fetch_execute
unfolding fetch_execute
fetch_execute-IsValid m v =
    search
      (mem_getb-IsValid, reg_incpc-IsValid, lookup_opcode-IsValid, when-IsValid, report-IsValid)
      depth 10

add_cycles-IsValid : (n : ℕ) → Keeps (add_cycles n)
add_cycles-IsValid n m v = ground arith

-- The instruction that is executed after the poll, or SWI's entry for its cycles.
execute-IsValid :
    (b : Bool)
    → Keeps {A = Opcode × Bool} (if b then pure (lookup_opcode 0x3f, false) else fetch_execute)
execute-IsValid b = if-IsValid b _ _ (λ m v. v) fetch_execute-IsValid

-- One call of `instr_exec`, whatever the opcode, the operands and the interrupts pending, keeps a
-- valid machine valid.
pub instr_exec-IsValid : (m : Machine) → IsValid m → IsValid (instr_exec m).1
unfolding instr_exec
instr_exec-IsValid m v =
    search
      (
        poll_interrupts-IsValid, execute-IsValid, when-IsValid, report-IsValid, add_cycles-IsValid,
        timer_inc-IsValid,
      )
      depth 10

-- A reset keeps a valid machine valid.
pub reset-IsValid : (m : Machine) → IsValid m → IsValid (reset m).1
unfolding reset
reset-IsValid m v = search opfunc_rules depth 10
