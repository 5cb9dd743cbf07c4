-- ===== src/M6811/Opfunc/Address.antt =====
-- opfunc.c, the 6811 section: the address mode of Y, and the functions that set and clear bits.
use sim68xx.Common.{ℕ, ◌+◌, ◌-◌, bit_and}
use sim68xx.Machine.{◌>>=◌, M, pure}
use sim68xx.Alu.{alu_andbyte, alu_orbyte}
use sim68xx.Machine.Reg.{reg_getiy, reg_postincpc}
use sim68xx.Memory.{Chip, mem_getb, mem_getw, mem_putb}
use sim68xx.Opfunc.Address.{getbyte_imm}

module _ ⦃chip : Chip⦄ where
  unfoldable pub getaddr_iy : M ℕ
  getaddr_iy = do pure (bit_and ((← mem_getb (← reg_postincpc 1)) + (← reg_getiy)) 0xffff)

  unfoldable pub getbyte_iy : M ℕ
  getbyte_iy = do mem_getb (← getaddr_iy)

  unfoldable pub getword_iy : M ℕ
  getword_iy = do mem_getw (← getaddr_iy)

  unfoldable pub bset_addr : ℕ → M (Unit {0})
  bset_addr addr = do mask ← getbyte_imm; mem_putb addr (← alu_orbyte (← mem_getb addr) mask)

  -- `~mask` becomes a `u_char` in the call.
  unfoldable pub bclr_addr : ℕ → M (Unit {0})
  bclr_addr addr = do
    mask ← getbyte_imm
    mem_putb addr (← alu_andbyte (← mem_getb addr) (0xff - mask))
