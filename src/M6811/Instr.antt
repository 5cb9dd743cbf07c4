-- ===== src/M6811/Instr.antt =====
-- src/arch/m6811/instr.c: reset, and the execution of one instruction. No part of the repository
-- installs an `instr_hook`, which is null.
use sim68xx.M6811.Ireg.{m6811}
use sim68xx.Common.{
  ℕ, ◌+◌, ◌/◌, ◌%◌, bit_and, Bool, true, false, if◌then◌else◌, u32, u64, List, [], Option, none,
  some,
}
use sim68xx.Common.Lists.{get_or}
use sim68xx.Machine.{◌>>=◌, ◌>>◌, Machine, M, pure, gets, modify}
use sim68xx.Machine.Reg.{
  nonzero, reg_getiflag, reg_getpc, reg_incpc, reg_setiflag, reg_setpc, reg_setsflag, reg_setxflag,
}
use sim68xx.Memory.{mem_getb, mem_getw}
use sim68xx.M6811.Registers.{
  oc1i, oc2i, oc3i, oc4i, oc5i, reset_vector, sci_vector, spi_vector, tflg1, tmsk1, toc1_vector,
  toc2_vector, toc3_vector, toc4_vector, toc5_vector,
}
use sim68xx.M6811.Timer.{timer_inc, timer_reset}
use sim68xx.M6811.Sci.{sci_int}
use sim68xx.M6811.Opfunc.Interrupt.{int_6811, trap_6811}
use sim68xx.M6811.Optab.{opcodetab, table_of}
use sim68xx.M6811.Optab.Entry.{Opcode, Page, opcode}

unfoldable pub reset : M (Unit {0})
reset = do
  modify (λ m. record m { ireg_start = 0x1000 })
  reg_setpc (← mem_getw reset_vector)
  reg_setiflag true
  reg_setxflag true
  reg_setsflag true
  timer_reset

-- `&table[op]`. An index past the table does not occur: `op` is a byte.
unfoldable pub entry_of : List (List Opcode) → ℕ → Opcode
entry_of table op = get_or (get_or table (op / 16) []) (op % 16) (opcode op 1 0 trap_6811 0 "-")

unfoldable pub next_entry : ℕ → Opcode → Option Page → M Opcode
next_entry pc p none = pure p
next_entry pc p (some nexttab) = do pure (entry_of (table_of nexttab) (← mem_getb (u32 (pc + 1))))

unfoldable pub opcode_getentry : ℕ → M Opcode
opcode_getentry pc = do
  op ← mem_getb pc
  let p = entry_of opcodetab op
  next_entry pc p p.op_nexttab

-- The vector of the first interrupt that is requested and enabled. A flag of the timer that is not one
-- of the five output compares keeps the serial interfaces from being asked.
unfoldable pub pending_vector : Machine → Option ℕ
pending_vector m =
    let tflags = bit_and (m.iram tflg1) (m.iram tmsk1) in
    let on = λ (flag : ℕ). nonzero (bit_and tflags flag) in
    if nonzero tflags
    then (if on oc1i
        then some toc1_vector
        else if on oc2i
        then some toc2_vector
        else if on oc3i
        then some toc3_vector
        else if on oc4i
        then some toc4_vector
        else if on oc5i
        then some toc5_vector
        else none)
    else if sci_int m
    then some sci_vector
    else if m.spi.spi_interrupt
    then some spi_vector
    else none

unfoldable pub take_interrupt : Option ℕ → M Bool
take_interrupt none = pure false
take_interrupt (some addr) = do int_6811 addr; pure true

unfoldable pub poll_interrupts : M Bool
poll_interrupts = do
  masked ← reg_getiflag
  vector ← gets pending_vector
  take_interrupt (if nonzero masked then none else vector)

-- `(*opptr->op_func) ()`. A call of NULL is undefined in C.
unfoldable pub call_func : Option (M (Unit {0})) → M (Unit {0})
call_func none = modify (λ m. record m { undefined = true })
call_func (some op_func) = op_func

unfoldable pub fetch_execute : M Opcode
fetch_execute = do
  opptr ← opcode_getentry (← reg_getpc)
  reg_incpc opptr.op_n_opcodes
  call_func opptr.op_func
  pure opptr

abbrev pub add_cycles : ℕ → M (Unit {0})
add_cycles n = modify (λ m. record m { cpu = record m.cpu { ncycles = u64 (m.cpu.ncycles + n) } })

-- An interrupt is charged the cycles of SWI. The result is always 0.
unfoldable pub instr_exec : M ℕ
instr_exec = do
  interrupted ← poll_interrupts
  opptr ← if interrupted then pure (entry_of opcodetab 0x3f) else fetch_execute
  add_cycles opptr.op_n_cycles
  timer_inc opptr.op_n_cycles
  pure 0
