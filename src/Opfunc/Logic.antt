-- ===== src/Opfunc/Logic.antt =====
-- opfunc.c: bitwise operations, bit tests, complements and clears.
use sim68xx.Common.{bit_and}
use sim68xx.Machine.{M, ◌>>=◌, drop_value}
use sim68xx.Machine.Reg.{reg_getacca, reg_getaccb, reg_setacca, reg_setaccb}
use sim68xx.Alu.{
  alu_andbyte, alu_bittestbyte, alu_clrbyte, alu_combyte, alu_orbyte, alu_xorbyte, alu_testbyte,
}
use sim68xx.Memory.{Chip}
use sim68xx.Opfunc.Address.{
  getaddr_ext, getaddr_ix, getbyte_imm, getbyte_dir, getbyte_ext, getbyte_ix,
}
use sim68xx.Opfunc.Modify.{clr_addr, com_addr}

module _ ⦃chip : Chip⦄ where
  unfoldable pub anda_imm : M (Unit {0})
  anda_imm = do reg_setacca (← alu_andbyte (← reg_getacca) (← getbyte_imm))

  unfoldable pub anda_dir : M (Unit {0})
  anda_dir = do reg_setacca (← alu_andbyte (← reg_getacca) (← getbyte_dir))

  unfoldable pub anda_ext : M (Unit {0})
  anda_ext = do reg_setacca (← alu_andbyte (← reg_getacca) (← getbyte_ext))

  unfoldable pub anda_ind_x : M (Unit {0})
  anda_ind_x = do reg_setacca (← alu_andbyte (← reg_getacca) (← getbyte_ix))

  unfoldable pub andb_imm : M (Unit {0})
  andb_imm = do reg_setaccb (← alu_andbyte (← reg_getaccb) (← getbyte_imm))

  unfoldable pub andb_dir : M (Unit {0})
  andb_dir = do reg_setaccb (← alu_andbyte (← reg_getaccb) (← getbyte_dir))

  unfoldable pub andb_ext : M (Unit {0})
  andb_ext = do reg_setaccb (← alu_andbyte (← reg_getaccb) (← getbyte_ext))

  unfoldable pub andb_ind_x : M (Unit {0})
  andb_ind_x = do reg_setaccb (← alu_andbyte (← reg_getaccb) (← getbyte_ix))

  unfoldable pub bita_imm : M (Unit {0})
  bita_imm = drop_value (do alu_bittestbyte (bit_and (← reg_getacca) (← getbyte_imm)))

  unfoldable pub bita_dir : M (Unit {0})
  bita_dir = drop_value (do alu_bittestbyte (bit_and (← reg_getacca) (← getbyte_dir)))

  unfoldable pub bita_ext : M (Unit {0})
  bita_ext = drop_value (do alu_bittestbyte (bit_and (← reg_getacca) (← getbyte_ext)))

  unfoldable pub bita_ind_x : M (Unit {0})
  bita_ind_x = drop_value (do alu_bittestbyte (bit_and (← reg_getacca) (← getbyte_ix)))

  unfoldable pub bitb_imm : M (Unit {0})
  bitb_imm = drop_value (do alu_bittestbyte (bit_and (← reg_getaccb) (← getbyte_imm)))

  unfoldable pub bitb_dir : M (Unit {0})
  bitb_dir = drop_value (do alu_bittestbyte (bit_and (← reg_getaccb) (← getbyte_dir)))

  unfoldable pub bitb_ext : M (Unit {0})
  bitb_ext = drop_value (do alu_bittestbyte (bit_and (← reg_getaccb) (← getbyte_ext)))

  unfoldable pub bitb_ind_x : M (Unit {0})
  bitb_ind_x = drop_value (do alu_bittestbyte (bit_and (← reg_getaccb) (← getbyte_ix)))

  unfoldable pub clr_ext : M (Unit {0})
  clr_ext = do clr_addr (← getaddr_ext)

  unfoldable pub clr_ind_x : M (Unit {0})
  clr_ind_x = do clr_addr (← getaddr_ix)

  unfoldable pub clra_inh : M (Unit {0})
  clra_inh = do reg_setacca (← alu_clrbyte (← reg_getacca))

  unfoldable pub clrb_inh : M (Unit {0})
  clrb_inh = do reg_setaccb (← alu_clrbyte (← reg_getaccb))

  unfoldable pub com_ext : M (Unit {0})
  com_ext = do com_addr (← getaddr_ext)

  unfoldable pub com_ind_x : M (Unit {0})
  com_ind_x = do com_addr (← getaddr_ix)

  unfoldable pub coma_inh : M (Unit {0})
  coma_inh = do reg_setacca (← alu_combyte (← reg_getacca))

  unfoldable pub comb_inh : M (Unit {0})
  comb_inh = do reg_setaccb (← alu_combyte (← reg_getaccb))

  unfoldable pub eora_imm : M (Unit {0})
  eora_imm = do reg_setacca (← alu_xorbyte (← reg_getacca) (← getbyte_imm))

  unfoldable pub eora_dir : M (Unit {0})
  eora_dir = do reg_setacca (← alu_xorbyte (← reg_getacca) (← getbyte_dir))

  unfoldable pub eora_ext : M (Unit {0})
  eora_ext = do reg_setacca (← alu_xorbyte (← reg_getacca) (← getbyte_ext))

  unfoldable pub eora_ind_x : M (Unit {0})
  eora_ind_x = do reg_setacca (← alu_xorbyte (← reg_getacca) (← getbyte_ix))

  unfoldable pub eorb_imm : M (Unit {0})
  eorb_imm = do reg_setaccb (← alu_xorbyte (← reg_getaccb) (← getbyte_imm))

  unfoldable pub eorb_dir : M (Unit {0})
  eorb_dir = do reg_setaccb (← alu_xorbyte (← reg_getaccb) (← getbyte_dir))

  unfoldable pub eorb_ext : M (Unit {0})
  eorb_ext = do reg_setaccb (← alu_xorbyte (← reg_getaccb) (← getbyte_ext))

  unfoldable pub eorb_ind_x : M (Unit {0})
  eorb_ind_x = do reg_setaccb (← alu_xorbyte (← reg_getaccb) (← getbyte_ix))

  unfoldable pub oraa_imm : M (Unit {0})
  oraa_imm = do reg_setacca (← alu_orbyte (← reg_getacca) (← getbyte_imm))

  unfoldable pub oraa_dir : M (Unit {0})
  oraa_dir = do reg_setacca (← alu_orbyte (← reg_getacca) (← getbyte_dir))

  unfoldable pub oraa_ext : M (Unit {0})
  oraa_ext = do reg_setacca (← alu_orbyte (← reg_getacca) (← getbyte_ext))

  unfoldable pub oraa_ind_x : M (Unit {0})
  oraa_ind_x = do reg_setacca (← alu_orbyte (← reg_getacca) (← getbyte_ix))

  unfoldable pub orab_imm : M (Unit {0})
  orab_imm = do reg_setaccb (← alu_orbyte (← reg_getaccb) (← getbyte_imm))

  unfoldable pub orab_dir : M (Unit {0})
  orab_dir = do reg_setaccb (← alu_orbyte (← reg_getaccb) (← getbyte_dir))

  unfoldable pub orab_ext : M (Unit {0})
  orab_ext = do reg_setaccb (← alu_orbyte (← reg_getaccb) (← getbyte_ext))

  unfoldable pub orab_ind_x : M (Unit {0})
  orab_ind_x = do reg_setaccb (← alu_orbyte (← reg_getaccb) (← getbyte_ix))

  unfoldable pub tst_ext : M (Unit {0})
  tst_ext = drop_value (do alu_testbyte (← getbyte_ext))

  unfoldable pub tst_ind_x : M (Unit {0})
  tst_ind_x = drop_value (do alu_testbyte (← getbyte_ix))

  unfoldable pub tsta_inh : M (Unit {0})
  tsta_inh = drop_value (do alu_testbyte (← reg_getacca))

  unfoldable pub tstb_inh : M (Unit {0})
  tstb_inh = drop_value (do alu_testbyte (← reg_getaccb))
