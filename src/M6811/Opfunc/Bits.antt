-- ===== src/M6811/Opfunc/Bits.antt =====
-- opfunc.c, the 6811 section: the instructions that set, clear and test bits of memory.
use sim68xx.Common.{bit_and, ◌==◌}
use sim68xx.Machine.{◌>>=◌, M}
use sim68xx.M6811.Opfunc.Address.{bclr_addr, bset_addr, getaddr_iy, getbyte_iy}
use sim68xx.Machine.Reg.{nonzero}
use sim68xx.Memory.{Chip}
use sim68xx.Opfunc.Address.{
  branch_expr, getaddr_dir, getaddr_ix, getbyte_dir, getbyte_imm, getbyte_ix,
}

module _ ⦃chip : Chip⦄ where
  unfoldable pub bclr_dir : M (Unit {0})
  bclr_dir = do bclr_addr (← getaddr_dir)

  unfoldable pub bclr_ind_x : M (Unit {0})
  bclr_ind_x = do bclr_addr (← getaddr_ix)

  unfoldable pub bclr_ind_y : M (Unit {0})
  bclr_ind_y = do bclr_addr (← getaddr_iy)

  unfoldable pub brclr_dir : M (Unit {0})
  brclr_dir = do branch_expr ((bit_and (← getbyte_dir) (← getbyte_imm)) == 0)

  unfoldable pub brclr_ind_x : M (Unit {0})
  brclr_ind_x = do branch_expr ((bit_and (← getbyte_ix) (← getbyte_imm)) == 0)

  unfoldable pub brclr_ind_y : M (Unit {0})
  brclr_ind_y = do branch_expr ((bit_and (← getbyte_iy) (← getbyte_imm)) == 0)

  unfoldable pub brset_dir : M (Unit {0})
  brset_dir = do branch_expr (nonzero (bit_and (← getbyte_dir) (← getbyte_imm)))

  unfoldable pub brset_ind_x : M (Unit {0})
  brset_ind_x = do branch_expr (nonzero (bit_and (← getbyte_ix) (← getbyte_imm)))

  unfoldable pub brset_ind_y : M (Unit {0})
  brset_ind_y = do branch_expr (nonzero (bit_and (← getbyte_iy) (← getbyte_imm)))

  unfoldable pub bset_dir : M (Unit {0})
  bset_dir = do bset_addr (← getaddr_dir)

  unfoldable pub bset_ind_x : M (Unit {0})
  bset_ind_x = do bset_addr (← getaddr_ix)

  unfoldable pub bset_ind_y : M (Unit {0})
  bset_ind_y = do bset_addr (← getaddr_iy)
