-- ===== src/Callstack.antt =====
-- src/base/callstac.c, the stack of subroutine addresses, and the stack pointer functions of
-- src/arch/m68xx/reg.c, which pop it. The trace printing (`callstack.trace`) is not modelled.
pub mod Contents
pub mod Unwind
use sim68xx.Common.{
  ℕ, zero, suc, ◌+◌, ◌-◌, ltb, leb, ◌&&◌, true, false, if◌then◌else◌, u16, u32, sub32,
}
use sim68xx.Machine.{
  Callstack, Machine, M, pure, ◌>>=◌, ◌>>◌, gets, modify, report, update, below_stack_min,
  above_stack_max, too_many_nestings,
}

abbrev pub max_callstack : ℕ
max_callstack = 256

abbrev pub push_frame : ℕ → ℕ → Callstack → Callstack
push_frame addr stack k = record {
  sp = k.sp + 1;
  entry_point = update k.entry_point k.sp addr;
  stack_on_entry = update k.stack_on_entry k.sp stack;
}

unfoldable pub callstack_push : ℕ → M (Unit {0})
unfolding report
callstack_push addr m =
    if ltb m.callstack.sp max_callstack
    then (tt, record m { callstack = push_frame addr m.regs.sp m.callstack })
    else report too_many_nestings m

unfoldable pub callstack_pop : M ℕ
callstack_pop m =
    if ltb 0 m.callstack.sp
    then (
      m.callstack.entry_point (m.callstack.sp - 1),
      record m { callstack = record m.callstack { sp = m.callstack.sp - 1 } },
    )
    else (0, m)

abbrev pub peek_addr : Callstack → ℕ
peek_addr k = if ltb 0 k.sp then k.entry_point (k.sp - 1) else 0

abbrev pub peek_stack : Callstack → ℕ
peek_stack k = if ltb 0 k.sp then k.stack_on_entry (k.sp - 1) else 0

abbrev pub callstack_peek_addr : M ℕ
callstack_peek_addr = gets (λ m. peek_addr m.callstack)

-- The loop of `reg_setsp`: `while (value > callstack_peek_stack() && callstack_nelem() > 0)
-- callstack_pop();`. Each round pops a frame, so `callstack.sp` rounds are enough fuel.
unfoldable pub unwind : ℕ → ℕ → Machine → Machine
unfolding callstack_pop
unwind zero value m = m
unwind (suc fuel) value m = elim (ltb (peek_stack m.callstack) value && ltb 0 m.callstack.sp) [
  | true ↦ unwind fuel value (callstack_pop m).1
  | false ↦ m
]

-- `if (value > regs.sp)` the loop.
unfoldable pub pop_returned : ℕ → Machine → Machine
pop_returned value m = if ltb m.regs.sp value then unwind m.callstack.sp value m else m

-- The warnings about the user's stack limits.
unfoldable pub warn_stack : ℕ → Machine → Machine
unfolding report
warn_stack value m =
    if leb value m.cpu.stack_min
    then (report (below_stack_min m.regs.sp) m).1
    else if ltb m.cpu.stack_max value
    then (report (above_stack_max m.regs.sp) m).1
    else m

unfoldable pub reg_setsp : ℕ → M ℕ
reg_setsp value m =
    let warned = warn_stack value (pop_returned value m) in
    (u16 value, record warned { regs = record warned.regs { sp = u16 value } })

unfoldable pub reg_postdecsp : ℕ → M ℕ
reg_postdecsp value m = let sp = m.regs.sp in (sp, (reg_setsp (sub32 sp value) m).1)

unfoldable pub reg_preincsp : ℕ → M ℕ
reg_preincsp value m = reg_setsp (u32 (m.regs.sp + value)) m

unfoldable pub reg_incsp : ℕ → M ℕ
reg_incsp value m = reg_setsp (u32 (m.regs.sp + value)) m
