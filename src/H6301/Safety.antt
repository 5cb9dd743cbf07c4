-- ===== src/H6301/Safety.antt =====
-- src/arch/h6301/instr.c: reset and every instruction preserve the invariant.
use sim68xx.Common.{ℕ, Bool, Option, none, some, if◌then◌else◌, arith, sym}
use mathlib.Core.Path.{subst}
use sim68xx.Machine.{Machine, pure}
use sim68xx.Invariant.{IsValid, Keeps}
use sim68xx.Invariant.Registers.{if-IsValid, reg_incpc-IsValid}
use sim68xx.Invariant.Memory.{mem_getb-IsValid}
use sim68xx.Invariant.Opfunc.{int_addr-IsValid, opfunc_rules}
use sim68xx.H6303.Functions
use sim68xx.H6301.Agree.{lookup_opcode-agree}
use sim68xx.H6301.Ireg.{h6301}
use sim68xx.H6301.Laws.{h6301-Lawful, timer_inc-IsValid}
use sim68xx.H6301.Optab.{lookup_opcode}
use sim68xx.H6301.Optab.Entry.{Opcode}
use sim68xx.H6301.Instr.{
  reset, take_interrupt, poll_interrupts, fetch_execute, add_cycles, instr_exec,
}

-- The functions of the table are those of the HD6303's.
lookup_opcode-IsValid : (op : ℕ) → Keeps (lookup_opcode op).op_func
lookup_opcode-IsValid op =
    let (_, same, _) = lookup_opcode-agree op in
    subst Keeps (sym same) (Functions.lookup_opcode-IsValid op)

take_interrupt-IsValid : (vector : Option ℕ) → Keeps (take_interrupt vector)
unfolding take_interrupt
take_interrupt-IsValid none m v = v
take_interrupt-IsValid (some addr) m v = int_addr-IsValid addr m v

poll_interrupts-IsValid : Keeps poll_interrupts
unfolding poll_interrupts
poll_interrupts-IsValid m v = take_interrupt-IsValid _ m v

fetch_execute-IsValid : Keeps fetch_execute
unfolding fetch_execute
fetch_execute-IsValid m v =
    search (mem_getb-IsValid, reg_incpc-IsValid, lookup_opcode-IsValid) depth 10

add_cycles-IsValid : (n : ℕ) → Keeps (add_cycles n)
add_cycles-IsValid n m v = ground arith

execute-IsValid :
    (b : Bool) → Keeps {A = Opcode} (if b then pure (lookup_opcode 0x3f) else fetch_execute)
execute-IsValid b = if-IsValid b _ _ (λ m v. v) fetch_execute-IsValid

-- A reset and one call of `instr_exec` of the HD6301, whatever the opcode, the operands and the
-- interrupts pending, keep a valid machine valid.
pub h6301_steps-IsValid : (m : Machine) → IsValid m → IsValid (reset m).1 × IsValid (instr_exec m).1
unfolding reset instr_exec
h6301_steps-IsValid m v = (
  search opfunc_rules depth 10,
  search (poll_interrupts-IsValid, execute-IsValid, add_cycles-IsValid, timer_inc-IsValid) depth 10,
)
