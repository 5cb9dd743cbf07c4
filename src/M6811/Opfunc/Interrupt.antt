-- ===== src/M6811/Opfunc/Interrupt.antt =====
-- opfunc.c, the 6811 section: interrupts, their return, the trap, and the instructions that wait.
use sim68xx.Common.{ℕ, true, sub32}
use sim68xx.Machine.{◌>>=◌, ◌>>◌, M, gets, report, trapped}
use sim68xx.Machine.Reg.{
  reg_getacca, reg_getaccb, reg_getix, reg_getiy, reg_getpc, reg_setacca, reg_setaccb, reg_setccr,
  reg_setiflag, reg_setix, reg_setiy, reg_setpc,
}
use sim68xx.Callstack.{callstack_peek_addr, callstack_push}
use sim68xx.Memory.{Chip, mem_getw}
use sim68xx.Opfunc.Address.{popbyte, popword, pushbyte, pushword}

-- `reg_getccr` in the M6811 build.
abbrev pub reg_getccr : M ℕ
reg_getccr = gets (λ m. m.regs.ccr)

-- `tpa_inh` with it.
unfoldable pub tpa_inh : M (Unit {0})
tpa_inh = do reg_setacca (← reg_getccr)

module _ ⦃chip : Chip⦄ where
  unfoldable pub int_6811 : ℕ → M (Unit {0})
  int_6811 addr = do
    pushword (← reg_getpc)
    pushword (← reg_getiy)
    pushword (← reg_getix)
    pushbyte (← reg_getacca)
    pushbyte (← reg_getaccb)
    pushbyte (← reg_getccr)
    reg_setpc (← mem_getw addr)
    callstack_push (← reg_getpc)
    reg_setiflag true

  unfoldable pub rti_6811 : M (Unit {0})
  rti_6811 = do
    reg_setccr (← popbyte)
    reg_setaccb (← popbyte)
    reg_setacca (← popbyte)
    reg_setix (← popword)
    reg_setiy (← popword)
    reg_setpc (← popword)

  unfoldable pub swi_6811 : M (Unit {0})
  swi_6811 = int_6811 0xfff6

  -- The warning names the program counter and the current subroutine.
  unfoldable pub trap_6811 : M (Unit {0})
  trap_6811 = do
    routine ← callstack_peek_addr
    report (trapped (← reg_getpc) routine)
    int_6811 0xfff8

-- They wait by stepping back onto their last byte.
unfoldable pub stop_inh : M (Unit {0})
stop_inh = do reg_setpc (sub32 (← reg_getpc) 1)

unfoldable pub test_inh : M (Unit {0})
test_inh = do reg_setpc (sub32 (← reg_getpc) 1)
