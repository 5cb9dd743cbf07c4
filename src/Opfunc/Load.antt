-- ===== src/Opfunc/Load.antt =====
-- opfunc.c: loads and stores.
use sim68xx.Machine.{M, ◌>>=◌, drop_value}
use sim68xx.Machine.Reg.{reg_getaccd, reg_setacca, reg_setaccb, reg_setaccd, reg_setix}
use sim68xx.Callstack.{reg_setsp}
use sim68xx.Alu.{alu_bittestbyte, alu_bittestword}
use sim68xx.Memory.{Chip, mem_putw}
use sim68xx.Opfunc.Address.{
  getaddr_dir, getaddr_ext, getaddr_ix, getbyte_imm, getbyte_dir, getbyte_ext, getbyte_ix,
  getword_imm, getword_dir, getword_ext, getword_ix,
}
use sim68xx.Opfunc.Modify.{staa_addr, stab_addr, sts_addr, stx_addr}

module _ ⦃chip : Chip⦄ where
  unfoldable pub ldaa_imm : M (Unit {0})
  ldaa_imm = do reg_setacca (← alu_bittestbyte (← getbyte_imm))

  unfoldable pub ldaa_dir : M (Unit {0})
  ldaa_dir = do reg_setacca (← alu_bittestbyte (← getbyte_dir))

  unfoldable pub ldaa_ext : M (Unit {0})
  ldaa_ext = do reg_setacca (← alu_bittestbyte (← getbyte_ext))

  unfoldable pub ldaa_ind_x : M (Unit {0})
  ldaa_ind_x = do reg_setacca (← alu_bittestbyte (← getbyte_ix))

  unfoldable pub ldab_imm : M (Unit {0})
  ldab_imm = do reg_setaccb (← alu_bittestbyte (← getbyte_imm))

  unfoldable pub ldab_dir : M (Unit {0})
  ldab_dir = do reg_setaccb (← alu_bittestbyte (← getbyte_dir))

  unfoldable pub ldab_ext : M (Unit {0})
  ldab_ext = do reg_setaccb (← alu_bittestbyte (← getbyte_ext))

  unfoldable pub ldab_ind_x : M (Unit {0})
  ldab_ind_x = do reg_setaccb (← alu_bittestbyte (← getbyte_ix))

  unfoldable pub lds_imm : M (Unit {0})
  lds_imm = drop_value (do reg_setsp (← alu_bittestword (← getword_imm)))

  unfoldable pub lds_dir : M (Unit {0})
  lds_dir = drop_value (do reg_setsp (← alu_bittestword (← getword_dir)))

  unfoldable pub lds_ext : M (Unit {0})
  lds_ext = drop_value (do reg_setsp (← alu_bittestword (← getword_ext)))

  unfoldable pub lds_ind_x : M (Unit {0})
  lds_ind_x = drop_value (do reg_setsp (← alu_bittestword (← getword_ix)))

  unfoldable pub ldx_imm : M (Unit {0})
  ldx_imm = do reg_setix (← alu_bittestword (← getword_imm))

  unfoldable pub ldx_dir : M (Unit {0})
  ldx_dir = do reg_setix (← alu_bittestword (← getword_dir))

  unfoldable pub ldx_ext : M (Unit {0})
  ldx_ext = do reg_setix (← alu_bittestword (← getword_ext))

  unfoldable pub ldx_ind_x : M (Unit {0})
  ldx_ind_x = do reg_setix (← alu_bittestword (← getword_ix))

  unfoldable pub staa_dir : M (Unit {0})
  staa_dir = do staa_addr (← getaddr_dir)

  unfoldable pub staa_ext : M (Unit {0})
  staa_ext = do staa_addr (← getaddr_ext)

  unfoldable pub staa_ind_x : M (Unit {0})
  staa_ind_x = do staa_addr (← getaddr_ix)

  unfoldable pub stab_dir : M (Unit {0})
  stab_dir = do stab_addr (← getaddr_dir)

  unfoldable pub stab_ext : M (Unit {0})
  stab_ext = do stab_addr (← getaddr_ext)

  unfoldable pub stab_ind_x : M (Unit {0})
  stab_ind_x = do stab_addr (← getaddr_ix)

  unfoldable pub sts_dir : M (Unit {0})
  sts_dir = do sts_addr (← getaddr_dir)

  unfoldable pub sts_ext : M (Unit {0})
  sts_ext = do sts_addr (← getaddr_ext)

  unfoldable pub sts_ind_x : M (Unit {0})
  sts_ind_x = do sts_addr (← getaddr_ix)

  unfoldable pub stx_dir : M (Unit {0})
  stx_dir = do stx_addr (← getaddr_dir)

  unfoldable pub stx_ext : M (Unit {0})
  stx_ext = do stx_addr (← getaddr_ext)

  unfoldable pub stx_ind_x : M (Unit {0})
  stx_ind_x = do stx_addr (← getaddr_ix)

  unfoldable pub ldd_imm : M (Unit {0})
  ldd_imm = do reg_setaccd (← alu_bittestword (← getword_imm))

  unfoldable pub ldd_dir : M (Unit {0})
  ldd_dir = do reg_setaccd (← alu_bittestword (← getword_dir))

  unfoldable pub ldd_ext : M (Unit {0})
  ldd_ext = do reg_setaccd (← alu_bittestword (← getword_ext))

  unfoldable pub ldd_ind_x : M (Unit {0})
  ldd_ind_x = do reg_setaccd (← alu_bittestword (← getword_ix))

  unfoldable pub std_dir : M (Unit {0})
  std_dir = do mem_putw (← getaddr_dir) (← alu_bittestword (← reg_getaccd))

  unfoldable pub std_ext : M (Unit {0})
  std_ext = do mem_putw (← getaddr_ext) (← alu_bittestword (← reg_getaccd))

  unfoldable pub std_ind_x : M (Unit {0})
  std_ind_x = do mem_putw (← getaddr_ix) (← alu_bittestword (← reg_getaccd))
