-- ===== src/M6811/Opfunc/Words.antt =====
-- opfunc.c, the 6811 section: the word instructions with Y, and the comparisons of D.
use sim68xx.Common.{◌+◌, u32, sub32}
use sim68xx.Machine.{◌>>=◌, ◌>>◌, M, drop_value}
use sim68xx.Alu.{alu_addword, alu_bittestword, alu_decword, alu_incword, alu_subword}
use sim68xx.Callstack.{reg_setsp}
use sim68xx.M6811.Opfunc.Address.{getaddr_iy, getword_iy}
use sim68xx.Machine.Reg.{
  reg_getaccb, reg_getaccd, reg_getix, reg_getiy, reg_getsp, reg_setaccd, reg_setix, reg_setiy,
}
use sim68xx.Memory.{Chip, mem_putw}
use sim68xx.Opfunc.Address.{
  getaddr_dir, getaddr_ext, getaddr_ix, getword_dir, getword_ext, getword_imm, getword_ix, popword,
  pushword,
}

module _ ⦃chip : Chip⦄ where
  unfoldable pub aby_inh : M (Unit {0})
  aby_inh = do reg_setiy (u32 ((← reg_getiy) + (← reg_getaccb)))

  unfoldable pub addd_ind_y : M (Unit {0})
  addd_ind_y = do reg_setaccd (← alu_addword (← reg_getaccd) (← getword_iy) 0)

  unfoldable pub cpd_imm : M (Unit {0})
  cpd_imm = drop_value (do alu_subword (← reg_getaccd) (← getword_imm) 0)

  unfoldable pub cpd_dir : M (Unit {0})
  cpd_dir = drop_value (do alu_subword (← reg_getaccd) (← getword_dir) 0)

  unfoldable pub cpd_ext : M (Unit {0})
  cpd_ext = drop_value (do alu_subword (← reg_getaccd) (← getword_ext) 0)

  unfoldable pub cpd_ind_x : M (Unit {0})
  cpd_ind_x = drop_value (do alu_subword (← reg_getaccd) (← getword_ix) 0)

  unfoldable pub cpd_ind_y : M (Unit {0})
  cpd_ind_y = drop_value (do alu_subword (← reg_getaccd) (← getword_iy) 0)

  unfoldable pub cpx_ind_y : M (Unit {0})
  cpx_ind_y = drop_value (do alu_subword (← reg_getix) (← getword_iy) 0)

  unfoldable pub cpy_imm : M (Unit {0})
  cpy_imm = drop_value (do alu_subword (← reg_getiy) (← getword_imm) 0)

  unfoldable pub cpy_dir : M (Unit {0})
  cpy_dir = drop_value (do alu_subword (← reg_getiy) (← getword_dir) 0)

  unfoldable pub cpy_ext : M (Unit {0})
  cpy_ext = drop_value (do alu_subword (← reg_getiy) (← getword_ext) 0)

  unfoldable pub cpy_ind_x : M (Unit {0})
  cpy_ind_x = drop_value (do alu_subword (← reg_getiy) (← getword_ix) 0)

  unfoldable pub cpy_ind_y : M (Unit {0})
  cpy_ind_y = drop_value (do alu_subword (← reg_getiy) (← getword_iy) 0)

  unfoldable pub dey_inh : M (Unit {0})
  dey_inh = do reg_setiy (← alu_decword (← reg_getiy))

  unfoldable pub iny_inh : M (Unit {0})
  iny_inh = do reg_setiy (← alu_incword (← reg_getiy))

  unfoldable pub ldd_ind_y : M (Unit {0})
  ldd_ind_y = do reg_setaccd (← alu_bittestword (← getword_iy))

  unfoldable pub ldx_ind_y : M (Unit {0})
  ldx_ind_y = do reg_setix (← alu_bittestword (← getword_iy))

  unfoldable pub lds_ind_y : M (Unit {0})
  lds_ind_y = drop_value (do reg_setsp (← alu_bittestword (← getword_iy)))

  unfoldable pub ldy_imm : M (Unit {0})
  ldy_imm = do reg_setiy (← alu_bittestword (← getword_imm))

  unfoldable pub ldy_dir : M (Unit {0})
  ldy_dir = do reg_setiy (← alu_bittestword (← getword_dir))

  unfoldable pub ldy_ext : M (Unit {0})
  ldy_ext = do reg_setiy (← alu_bittestword (← getword_ext))

  unfoldable pub ldy_ind_x : M (Unit {0})
  ldy_ind_x = do reg_setiy (← alu_bittestword (← getword_ix))

  unfoldable pub ldy_ind_y : M (Unit {0})
  ldy_ind_y = do reg_setiy (← alu_bittestword (← getword_iy))

  unfoldable pub pshy_inh : M (Unit {0})
  pshy_inh = do pushword (← reg_getiy)

  unfoldable pub puly_inh : M (Unit {0})
  puly_inh = do reg_setiy (← popword)

  unfoldable pub std_ind_y : M (Unit {0})
  std_ind_y = do mem_putw (← getaddr_iy) (← alu_bittestword (← reg_getaccd))

  unfoldable pub sts_ind_y : M (Unit {0})
  sts_ind_y = do mem_putw (← getaddr_iy) (← alu_bittestword (← reg_getsp))

  unfoldable pub stx_ind_y : M (Unit {0})
  stx_ind_y = do mem_putw (← getaddr_iy) (← alu_bittestword (← reg_getix))

  unfoldable pub sty_dir : M (Unit {0})
  sty_dir = do mem_putw (← getaddr_dir) (← alu_bittestword (← reg_getiy))

  unfoldable pub sty_ext : M (Unit {0})
  sty_ext = do mem_putw (← getaddr_ext) (← alu_bittestword (← reg_getiy))

  unfoldable pub sty_ind_x : M (Unit {0})
  sty_ind_x = do mem_putw (← getaddr_ix) (← alu_bittestword (← reg_getiy))

  unfoldable pub sty_ind_y : M (Unit {0})
  sty_ind_y = do mem_putw (← getaddr_iy) (← alu_bittestword (← reg_getiy))

  unfoldable pub subd_ind_y : M (Unit {0})
  subd_ind_y = do reg_setaccd (← alu_subword (← reg_getaccd) (← getword_iy) 0)

  unfoldable pub tsy_inh : M (Unit {0})
  tsy_inh = do reg_setiy (u32 ((← reg_getsp) + 1))

  unfoldable pub tys_inh : M (Unit {0})
  tys_inh = drop_value (do reg_setsp (sub32 (← reg_getiy) 1))

  unfoldable pub xgdy_inh : M (Unit {0})
  xgdy_inh = do old_y ← reg_getiy; reg_setiy (← reg_getaccd); reg_setaccd old_y
