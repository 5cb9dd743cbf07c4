-- ===== src/H6303/Instr.antt =====
-- src/arch/h6303/instr.c: reset, and the execution of one instruction.
use sim68xx.Common.{
  ℕ, ◌+◌, bit_and, Bool, true, false, not, ◌&&◌, ◌||◌, ◌==◌, if◌then◌else◌, u64, Option, none, some,
}
use sim68xx.Machine.{
  Machine, M, pure, ◌>>=◌, ◌>>◌, gets, modify, when, report, interrupt, rti_mismatch,
}
use sim68xx.Machine.Reg.{nonzero, reg_getiflag, reg_getpc, reg_incpc, reg_setpc, reg_setiflag}
use sim68xx.Memory.{mem_getb, mem_getw}
use sim68xx.H6303.Registers.{
  tcsr, tcsr2, etoi, eoci1, eici, tof, ocf1, icf, eoci2, ocf2, sci_vector, tof_vector, ocf_vector,
  icf_vector, res_vector,
}
use sim68xx.Opfunc.Modify.{int_addr}
use sim68xx.H6303.Timer.{timer_inc}
use sim68xx.H6303.Sci.{serial_int}
use sim68xx.H6303.Ireg.{h6303}
use sim68xx.H6303.Optab.{lookup_opcode}
use sim68xx.H6303.Optab.Entry.{Opcode}

unfoldable pub reset : M (Unit {0})
reset = do reg_setpc (← mem_getw res_vector); reg_setiflag true

-- The ladder of `instr_exec` over the interrupt flags: the vector of the first that is requested and
-- enabled.
unfoldable pub pending_vector : Machine → Option ℕ
pending_vector m =
    let tcsr_reg = m.iram tcsr in
    let tcsr2_reg = m.iram tcsr2 in
    let on = λ (reg : ℕ) (flag : ℕ). nonzero (bit_and reg flag) in
    if on tcsr_reg icf && on tcsr_reg eici
    then some icf_vector
    else if on tcsr_reg ocf1 && on tcsr_reg eoci1 || on tcsr2_reg ocf2 && on tcsr2_reg eoci2
    then some ocf_vector
    else if on tcsr_reg tof && on tcsr_reg etoi
    then some tof_vector
    else if serial_int m
    then some sci_vector
    else none

unfoldable pub take_interrupt : Option ℕ → M Bool
take_interrupt none = pure false
take_interrupt (some addr) = do int_addr addr; pure true

-- `if (!reg_getiflag ())` the ladder, with the call of `int_addr`.
unfoldable pub poll_interrupts : M Bool
unfolding take_interrupt
poll_interrupts = do
  masked ← reg_getiflag
  vector ← gets pending_vector
  take_interrupt (if nonzero masked then none else vector)

-- Fetch, decode and execute; the result is `opptr` with whether SWI was executed.
unfoldable pub fetch_execute : M (Opcode × Bool)
fetch_execute = do
  op ← mem_getb (← reg_getpc)
  reg_incpc 1
  let opptr = lookup_opcode op
  opptr.op_func
  pc_op ← reg_getpc
  rti_pc ← gets (λ m. m.rti_pc)
  when (opptr.op_value == 0x3b && not (pc_op == rti_pc)) (report (rti_mismatch pc_op rti_pc))
  pure (opptr, opptr.op_value == 0x3f)

abbrev pub add_cycles : ℕ → M (Unit {0})
add_cycles n = modify (λ m. record m { cpu = record m.cpu { ncycles = u64 (m.cpu.ncycles + n) } })

-- An interrupt is charged the cycles of SWI.
unfoldable pub instr_exec : M Bool
instr_exec = do
  hardware ← poll_interrupts
  (opptr, software) ← if hardware then pure (lookup_opcode 0x3f, false) else fetch_execute
  let interrupted = hardware || software
  pc ← reg_getpc
  when interrupted (report (interrupt pc))
  add_cycles opptr.op_n_cycles
  timer_inc opptr.op_n_cycles
  pure interrupted
