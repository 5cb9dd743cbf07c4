-- ===== src/Opfunc/Branch.antt =====
-- opfunc.c: branches, jumps, subroutines, interrupts and the trap.
use sim68xx.Common.{◌+◌, bit_or, bit_xor, ◌==◌, u32, sub32, s_char}
use sim68xx.Machine.{M, pure, ◌>>=◌, ◌>>◌, modify, report, trapped}
use sim68xx.Machine.Reg.{
  nonzero, reg_getcflag, reg_getvflag, reg_getzflag, reg_getnflag, reg_getpc, reg_setacca,
  reg_setaccb, reg_setix, reg_setpc, reg_setccr,
}
use sim68xx.Callstack.{callstack_peek_addr}
use sim68xx.Memory.{Chip}
use sim68xx.Opfunc.Address.{
  getaddr_dir, getaddr_ext, getaddr_ix, getbyte_imm, branch_expr, popbyte, popword,
}
use sim68xx.Opfunc.Modify.{jsr_addr, int_addr}

module _ ⦃chip : Chip⦄ where
  unfoldable pub bcc_rel : M (Unit {0})
  bcc_rel = do branch_expr ((← reg_getcflag) == 0)

  unfoldable pub bcs_rel : M (Unit {0})
  bcs_rel = do branch_expr (nonzero (← reg_getcflag))

  unfoldable pub beq_rel : M (Unit {0})
  beq_rel = do branch_expr (nonzero (← reg_getzflag))

  unfoldable pub bge_rel : M (Unit {0})
  bge_rel = do branch_expr ((bit_xor (← reg_getnflag) (← reg_getvflag)) == 0)

  unfoldable pub bgt_rel : M (Unit {0})
  bgt_rel = do
    branch_expr ((bit_or (← reg_getzflag) (bit_xor (← reg_getnflag) (← reg_getvflag))) == 0)

  unfoldable pub bhi_rel : M (Unit {0})
  bhi_rel = do branch_expr ((bit_or (← reg_getcflag) (← reg_getzflag)) == 0)

  unfoldable pub ble_rel : M (Unit {0})
  ble_rel = do
    branch_expr ((bit_or (← reg_getzflag) (bit_xor (← reg_getnflag) (← reg_getvflag))) == 1)

  unfoldable pub bls_rel : M (Unit {0})
  bls_rel = do branch_expr ((bit_or (← reg_getcflag) (← reg_getzflag)) == 1)

  unfoldable pub blt_rel : M (Unit {0})
  blt_rel = do branch_expr ((bit_xor (← reg_getnflag) (← reg_getvflag)) == 1)

  unfoldable pub bmi_rel : M (Unit {0})
  bmi_rel = do branch_expr (nonzero (← reg_getnflag))

  unfoldable pub bne_rel : M (Unit {0})
  bne_rel = do branch_expr ((← reg_getzflag) == 0)

  unfoldable pub bpl_rel : M (Unit {0})
  bpl_rel = do branch_expr ((← reg_getnflag) == 0)

  unfoldable pub bra_rel : M (Unit {0})
  bra_rel = branch_expr (nonzero 1)

  unfoldable pub bvc_rel : M (Unit {0})
  bvc_rel = do branch_expr ((← reg_getvflag) == 0)

  unfoldable pub bvs_rel : M (Unit {0})
  bvs_rel = do branch_expr (nonzero (← reg_getvflag))

  unfoldable pub jmp_ext : M (Unit {0})
  jmp_ext = do reg_setpc (← getaddr_ext)

  unfoldable pub jmp_ind_x : M (Unit {0})
  jmp_ind_x = do reg_setpc (← getaddr_ix)

  unfoldable pub jsr_ext : M (Unit {0})
  jsr_ext = do jsr_addr (← getaddr_ext)

  unfoldable pub jsr_ind_x : M (Unit {0})
  jsr_ind_x = do jsr_addr (← getaddr_ix)

  unfoldable pub nop_inh : M (Unit {0})
  nop_inh = pure tt

  unfoldable pub swi_inh : M (Unit {0})
  swi_inh = int_addr chip.swivector

  unfoldable pub brn_rel : M (Unit {0})
  brn_rel = branch_expr (nonzero 0)

  unfoldable pub jsr_dir : M (Unit {0})
  jsr_dir = do jsr_addr (← getaddr_dir)

  unfoldable pub bsr_rel : M (Unit {0})
  bsr_rel = do offs ← getbyte_imm; jsr_addr (u32 (s_char offs + (← reg_getpc)))

  unfoldable pub leave : M (Unit {0})
  leave = modify (λ m. record m { call_level = sub32 m.call_level 1 })

  unfoldable pub rti_inh : M (Unit {0})
  rti_inh = do
    reg_setccr (← popbyte)
    reg_setaccb (← popbyte)
    reg_setacca (← popbyte)
    reg_setix (← popword)
    reg_setpc (← popword)
    leave

  unfoldable pub rts_inh : M (Unit {0})
  rts_inh = do reg_setpc (← popword); leave

  -- The warning names the program counter and the current subroutine.
  unfoldable pub trap : M (Unit {0})
  trap = do routine ← callstack_peek_addr; report (trapped (← reg_getpc) routine); int_addr 0xffee

  unfoldable pub wai_inh : M (Unit {0})
  wai_inh = pure tt
