-- ===== src/H6301/Instr.antt =====
-- src/arch/h6301/instr.c: reset, and the execution of one instruction.
use sim68xx.Common.{
  ℕ, ◌+◌, bit_and, Bool, true, false, ◌&&◌, if◌then◌else◌, u64, Option, none, some,
}
use sim68xx.Machine.{Machine, M, pure, ◌>>=◌, ◌>>◌, gets, modify}
use sim68xx.Machine.Reg.{nonzero, reg_getiflag, reg_getpc, reg_incpc, reg_setpc, reg_setiflag}
use sim68xx.Memory.{mem_getb, mem_getw}
use sim68xx.Opfunc.Modify.{int_addr}
use sim68xx.H6301.Registers.{tcsr, eoci, ocf, sci_vector, ocf_vector, res_vector}
use sim68xx.H6301.Timer.{timer_inc}
use sim68xx.H6301.Sci.{serial_int}
use sim68xx.H6301.Ireg.{h6301}
use sim68xx.H6301.Optab.{lookup_opcode}
use sim68xx.H6301.Optab.Entry.{Opcode}

unfoldable pub reset : M (Unit {0})
reset = do reg_setpc (← mem_getw res_vector); reg_setiflag true

-- The vector of the first interrupt that is requested and enabled: output compare, then serial.
unfoldable pub pending_vector : Machine → Option ℕ
pending_vector m =
    if nonzero (bit_and (m.iram tcsr) ocf) && nonzero (bit_and (m.iram tcsr) eoci)
    then some ocf_vector
    else if serial_int m
    then some sci_vector
    else none

unfoldable pub take_interrupt : Option ℕ → M Bool
take_interrupt none = pure false
take_interrupt (some addr) = do int_addr addr; pure true

unfoldable pub poll_interrupts : M Bool
unfolding take_interrupt
poll_interrupts = do
  masked ← reg_getiflag
  vector ← gets pending_vector
  take_interrupt (if nonzero masked then none else vector)

-- Fetch, decode and execute; the result is `opptr`.
unfoldable pub fetch_execute : M Opcode
fetch_execute = do
  op ← mem_getb (← reg_getpc)
  reg_incpc 1
  let opptr = lookup_opcode op
  opptr.op_func
  pure opptr

abbrev pub add_cycles : ℕ → M (Unit {0})
add_cycles n = modify (λ m. record m { cpu = record m.cpu { ncycles = u64 (m.cpu.ncycles + n) } })

-- An interrupt is charged the cycles of SWI. The result is always 0.
unfoldable pub instr_exec : M ℕ
instr_exec = do
  interrupted ← poll_interrupts
  opptr ← if interrupted then pure (lookup_opcode 0x3f) else fetch_execute
  add_cycles opptr.op_n_cycles
  timer_inc opptr.op_n_cycles
  pure 0
