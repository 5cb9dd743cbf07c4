-- ===== src/Opfunc/Immediate.antt =====
-- opfunc.c: the 6301 instructions that combine an immediate byte with memory.
use sim68xx.Common.{◌+◌}
use sim68xx.Machine.{M, ◌>>=◌, ◌>>◌, drop_value}
use sim68xx.Machine.Reg.{reg_getix, reg_getpc, reg_incpc}
use sim68xx.Alu.{alu_andbyte, alu_orbyte, alu_xorbyte}
use sim68xx.Memory.{Chip, mem_getb, mem_putb}

module _ ⦃chip : Chip⦄ where
  unfoldable pub aim_dir : M (Unit {0})
  aim_dir = do
    immed ← mem_getb (← reg_getpc)
    addr ← mem_getb ((← reg_getpc) + 1)
    mem_putb addr (← alu_andbyte immed (← mem_getb addr))
    reg_incpc 2

  unfoldable pub aim_ind_x : M (Unit {0})
  aim_ind_x = do
    immed ← mem_getb (← reg_getpc)
    offs ← mem_getb ((← reg_getpc) + 1)
    let addr = (← reg_getix) + offs
    mem_putb addr (← alu_andbyte immed (← mem_getb addr))
    reg_incpc 2

  unfoldable pub eim_dir : M (Unit {0})
  eim_dir = do
    immed ← mem_getb (← reg_getpc)
    addr ← mem_getb ((← reg_getpc) + 1)
    mem_putb addr (← alu_xorbyte immed (← mem_getb addr))
    reg_incpc 2

  unfoldable pub eim_ind_x : M (Unit {0})
  eim_ind_x = do
    immed ← mem_getb (← reg_getpc)
    offs ← mem_getb ((← reg_getpc) + 1)
    let addr = (← reg_getix) + offs
    mem_putb addr (← alu_xorbyte immed (← mem_getb addr))
    reg_incpc 2

  unfoldable pub oim_dir : M (Unit {0})
  oim_dir = do
    immed ← mem_getb (← reg_getpc)
    addr ← mem_getb ((← reg_getpc) + 1)
    mem_putb addr (← alu_orbyte immed (← mem_getb addr))
    reg_incpc 2

  unfoldable pub oim_ind_x : M (Unit {0})
  oim_ind_x = do
    immed ← mem_getb (← reg_getpc)
    offs ← mem_getb ((← reg_getpc) + 1)
    let addr = (← reg_getix) + offs
    mem_putb addr (← alu_orbyte immed (← mem_getb addr))
    reg_incpc 2

  unfoldable pub tim_dir : M (Unit {0})
  tim_dir = do
    immed ← mem_getb (← reg_getpc)
    addr ← mem_getb ((← reg_getpc) + 1)
    drop_value (do alu_andbyte immed (← mem_getb addr))
    reg_incpc 2

  unfoldable pub tim_ind_x : M (Unit {0})
  tim_ind_x = do
    immed ← mem_getb (← reg_getpc)
    offs ← mem_getb ((← reg_getpc) + 1)
    let addr = (← reg_getix) + offs
    drop_value (do alu_andbyte immed (← mem_getb addr))
    reg_incpc 2
