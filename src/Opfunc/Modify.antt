-- ===== src/Opfunc/Modify.antt =====
-- opfunc.c: the functions that work on an address, with the calls of subroutines and interrupts.
use sim68xx.Common.{ℕ, ◌+◌, bit_and, true, u32}
use sim68xx.Machine.{M, ◌>>=◌, ◌>>◌, modify, drop_value}
use sim68xx.Machine.Reg.{
  reg_setiflag, reg_getcflag, reg_getacca, reg_getaccb, reg_getix, reg_getsp, reg_getpc, reg_getccr,
  reg_setpc,
}
use sim68xx.Callstack.{callstack_push}
use sim68xx.Alu.{
  alu_bittestbyte, alu_bittestword, alu_clrbyte, alu_combyte, alu_decbyte, alu_incbyte, alu_negbyte,
  alu_shlbyte, alu_shrbyte, alu_testbyte,
}
use sim68xx.Memory.{Chip, mem_getb, mem_getw, mem_putb, mem_putw}
use sim68xx.Opfunc.Address.{pushbyte, pushword}

module _ ⦃chip : Chip⦄ where
  unfoldable pub asr_addr : ℕ → M (Unit {0})
  asr_addr addr = do
    operand ← mem_getb addr
    mem_putb addr (← alu_shrbyte operand (bit_and operand 0x80))

  unfoldable pub jsr_addr : ℕ → M (Unit {0})
  jsr_addr addr = do
    pushword (← reg_getpc)
    reg_setpc addr
    callstack_push addr
    modify (λ m. record m { call_level = u32 (m.call_level + 1) })

  unfoldable pub clr_addr : ℕ → M (Unit {0})
  clr_addr addr = do mem_putb addr (← alu_clrbyte (← mem_getb addr))

  unfoldable pub com_addr : ℕ → M (Unit {0})
  com_addr addr = do mem_putb addr (← alu_combyte (← mem_getb addr))

  unfoldable pub dec_addr : ℕ → M (Unit {0})
  dec_addr addr = do mem_putb addr (← alu_decbyte (← mem_getb addr))

  unfoldable pub inc_addr : ℕ → M (Unit {0})
  inc_addr addr = do mem_putb addr (← alu_incbyte (← mem_getb addr))

  unfoldable pub lsl_addr : ℕ → M (Unit {0})
  lsl_addr addr = do mem_putb addr (← alu_shlbyte (← mem_getb addr) 0)

  unfoldable pub lsr_addr : ℕ → M (Unit {0})
  lsr_addr addr = do mem_putb addr (← alu_shrbyte (← mem_getb addr) 0)

  unfoldable pub neg_addr : ℕ → M (Unit {0})
  neg_addr addr = do mem_putb addr (← alu_negbyte (← mem_getb addr))

  unfoldable pub rol_addr : ℕ → M (Unit {0})
  rol_addr addr = do mem_putb addr (← alu_shlbyte (← mem_getb addr) (← reg_getcflag))

  unfoldable pub ror_addr : ℕ → M (Unit {0})
  ror_addr addr = do mem_putb addr (← alu_shrbyte (← mem_getb addr) (← reg_getcflag))

  unfoldable pub staa_addr : ℕ → M (Unit {0})
  staa_addr addr = do mem_putb addr (← alu_bittestbyte (← reg_getacca))

  unfoldable pub stab_addr : ℕ → M (Unit {0})
  stab_addr addr = do mem_putb addr (← alu_bittestbyte (← reg_getaccb))

  unfoldable pub sts_addr : ℕ → M (Unit {0})
  sts_addr addr = do mem_putw addr (← alu_bittestword (← reg_getsp))

  unfoldable pub stx_addr : ℕ → M (Unit {0})
  stx_addr addr = do mem_putw addr (← alu_bittestword (← reg_getix))

  unfoldable pub tst_addr : ℕ → M (Unit {0})
  tst_addr addr = drop_value (do alu_testbyte (← mem_getb addr))

  unfoldable pub int_addr : ℕ → M (Unit {0})
  int_addr addr = do
    modify (λ m. record m { rti_pc = m.regs.pc })
    pushword (← reg_getpc)
    pushword (← reg_getix)
    pushbyte (← reg_getacca)
    pushbyte (← reg_getaccb)
    pushbyte (← reg_getccr)
    reg_setpc (← mem_getw addr)
    callstack_push (← reg_getpc)
    reg_setiflag true
