-- ===== src/M6811/Opfunc/Indexed.antt =====
-- opfunc.c, the 6811 section: the byte instructions in the address mode of Y.
use sim68xx.Common.{bit_and}
use sim68xx.Machine.{◌>>=◌, M, drop_value}
use sim68xx.Alu.{
  alu_addbyte, alu_andbyte, alu_bittestbyte, alu_orbyte, alu_subbyte, alu_testbyte, alu_xorbyte,
}
use sim68xx.M6811.Opfunc.Address.{getaddr_iy, getbyte_iy}
use sim68xx.Machine.Reg.{
  reg_getacca, reg_getaccb, reg_getcflag, reg_setacca, reg_setaccb, reg_setpc,
}
use sim68xx.Memory.{Chip, mem_putb}
use sim68xx.Opfunc.Modify.{
  asr_addr, clr_addr, com_addr, dec_addr, inc_addr, jsr_addr, lsl_addr, lsr_addr, neg_addr,
  rol_addr, ror_addr,
}

module _ ⦃chip : Chip⦄ where
  unfoldable pub lsl_ind_y : M (Unit {0})
  lsl_ind_y = do lsl_addr (← getaddr_iy)

  unfoldable pub adca_ind_y : M (Unit {0})
  adca_ind_y = do reg_setacca (← alu_addbyte (← reg_getacca) (← getbyte_iy) (← reg_getcflag))

  unfoldable pub adcb_ind_y : M (Unit {0})
  adcb_ind_y = do reg_setaccb (← alu_addbyte (← reg_getaccb) (← getbyte_iy) (← reg_getcflag))

  unfoldable pub adda_ind_y : M (Unit {0})
  adda_ind_y = do reg_setacca (← alu_addbyte (← reg_getacca) (← getbyte_iy) 0)

  unfoldable pub addb_ind_y : M (Unit {0})
  addb_ind_y = do reg_setaccb (← alu_addbyte (← reg_getaccb) (← getbyte_iy) 0)

  unfoldable pub anda_ind_y : M (Unit {0})
  anda_ind_y = do reg_setacca (← alu_andbyte (← reg_getacca) (← getbyte_iy))

  unfoldable pub andb_ind_y : M (Unit {0})
  andb_ind_y = do reg_setaccb (← alu_andbyte (← reg_getaccb) (← getbyte_iy))

  unfoldable pub asl_ind_y : M (Unit {0})
  asl_ind_y = lsl_ind_y

  unfoldable pub asr_ind_y : M (Unit {0})
  asr_ind_y = do asr_addr (← getaddr_iy)

  unfoldable pub bita_ind_y : M (Unit {0})
  bita_ind_y = drop_value (do alu_bittestbyte (bit_and (← reg_getacca) (← getbyte_iy)))

  unfoldable pub bitb_ind_y : M (Unit {0})
  bitb_ind_y = drop_value (do alu_bittestbyte (bit_and (← reg_getaccb) (← getbyte_iy)))

  unfoldable pub clr_ind_y : M (Unit {0})
  clr_ind_y = do clr_addr (← getaddr_iy)

  unfoldable pub cmpa_ind_y : M (Unit {0})
  cmpa_ind_y = drop_value (do alu_subbyte (← reg_getacca) (← getbyte_iy) 0)

  unfoldable pub cmpb_ind_y : M (Unit {0})
  cmpb_ind_y = drop_value (do alu_subbyte (← reg_getaccb) (← getbyte_iy) 0)

  unfoldable pub com_ind_y : M (Unit {0})
  com_ind_y = do com_addr (← getaddr_iy)

  unfoldable pub dec_ind_y : M (Unit {0})
  dec_ind_y = do dec_addr (← getaddr_iy)

  unfoldable pub eora_ind_y : M (Unit {0})
  eora_ind_y = do reg_setacca (← alu_xorbyte (← reg_getacca) (← getbyte_iy))

  unfoldable pub eorb_ind_y : M (Unit {0})
  eorb_ind_y = do reg_setaccb (← alu_xorbyte (← reg_getaccb) (← getbyte_iy))

  unfoldable pub inc_ind_y : M (Unit {0})
  inc_ind_y = do inc_addr (← getaddr_iy)

  unfoldable pub jmp_ind_y : M (Unit {0})
  jmp_ind_y = do reg_setpc (← getaddr_iy)

  unfoldable pub jsr_ind_y : M (Unit {0})
  jsr_ind_y = do jsr_addr (← getaddr_iy)

  unfoldable pub ldaa_ind_y : M (Unit {0})
  ldaa_ind_y = do reg_setacca (← alu_bittestbyte (← getbyte_iy))

  unfoldable pub ldab_ind_y : M (Unit {0})
  ldab_ind_y = do reg_setaccb (← alu_bittestbyte (← getbyte_iy))

  unfoldable pub lsr_ind_y : M (Unit {0})
  lsr_ind_y = do lsr_addr (← getaddr_iy)

  unfoldable pub neg_ind_y : M (Unit {0})
  neg_ind_y = do neg_addr (← getaddr_iy)

  unfoldable pub oraa_ind_y : M (Unit {0})
  oraa_ind_y = do reg_setacca (← alu_orbyte (← reg_getacca) (← getbyte_iy))

  unfoldable pub orab_ind_y : M (Unit {0})
  orab_ind_y = do reg_setaccb (← alu_orbyte (← reg_getaccb) (← getbyte_iy))

  unfoldable pub rol_ind_y : M (Unit {0})
  rol_ind_y = do rol_addr (← getaddr_iy)

  unfoldable pub ror_ind_y : M (Unit {0})
  ror_ind_y = do ror_addr (← getaddr_iy)

  unfoldable pub sbca_ind_y : M (Unit {0})
  sbca_ind_y = do reg_setacca (← alu_subbyte (← reg_getacca) (← getbyte_iy) 0)

  unfoldable pub sbcb_ind_y : M (Unit {0})
  sbcb_ind_y = do reg_setaccb (← alu_subbyte (← reg_getaccb) (← getbyte_iy) 0)

  unfoldable pub staa_ind_y : M (Unit {0})
  staa_ind_y = do mem_putb (← getaddr_iy) (← alu_bittestbyte (← reg_getacca))

  unfoldable pub stab_ind_y : M (Unit {0})
  stab_ind_y = do mem_putb (← getaddr_iy) (← alu_bittestbyte (← reg_getaccb))

  unfoldable pub suba_ind_y : M (Unit {0})
  suba_ind_y = do reg_setacca (← alu_subbyte (← reg_getacca) (← getbyte_iy) 0)

  unfoldable pub subb_ind_y : M (Unit {0})
  subb_ind_y = do reg_setaccb (← alu_subbyte (← reg_getaccb) (← getbyte_iy) 0)

  unfoldable pub tst_ind_y : M (Unit {0})
  tst_ind_y = drop_value (do alu_testbyte (← getbyte_iy))
