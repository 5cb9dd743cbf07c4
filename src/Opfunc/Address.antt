-- ===== src/Opfunc/Address.antt =====
-- The address modes and the stack of src/arch/m68xx/opfunc.c. Where C leaves the order of evaluation
-- open, operands are taken from left to right.
use sim68xx.Common.{ℕ, ◌+◌, ◌*◌, ◌/◌, ◌^◌, bit_and, bit_or, Bool, if◌then◌else◌, u8, s_char}
use sim68xx.Machine.{M, pure, ◌>>=◌, ◌>>◌}
use sim68xx.Machine.Reg.{reg_getix, reg_incpc, reg_postincpc}
use sim68xx.Callstack.{reg_postdecsp, reg_preincsp}
use sim68xx.Memory.{Chip, mem_getb, mem_getw, mem_putb}

module _ ⦃chip : Chip⦄ where
  unfoldable pub getaddr_dir : M ℕ
  getaddr_dir = do mem_getb (← reg_postincpc 1)

  unfoldable pub getaddr_ext : M ℕ
  getaddr_ext = do mem_getw (← reg_postincpc 2)

  unfoldable pub getaddr_ix : M ℕ
  getaddr_ix = do pure (bit_and ((← mem_getb (← reg_postincpc 1)) + (← reg_getix)) 0xffff)

  unfoldable pub getbyte_imm : M ℕ
  getbyte_imm = do mem_getb (← reg_postincpc 1)

  unfoldable pub getbyte_dir : M ℕ
  getbyte_dir = do mem_getb (← getaddr_dir)

  unfoldable pub getbyte_ext : M ℕ
  getbyte_ext = do mem_getb (← getaddr_ext)

  unfoldable pub getbyte_ix : M ℕ
  getbyte_ix = do mem_getb (← getaddr_ix)

  unfoldable pub getword_imm : M ℕ
  getword_imm = do mem_getw (← reg_postincpc 2)

  unfoldable pub getword_dir : M ℕ
  getword_dir = do mem_getw (← getaddr_dir)

  unfoldable pub getword_ext : M ℕ
  getword_ext = do mem_getw (← getaddr_ext)

  unfoldable pub getword_ix : M ℕ
  getword_ix = do mem_getw (← getaddr_ix)

  -- The offset is a signed byte; the program counter keeps its low 16 bits.
  unfoldable pub branch_expr : Bool → M (Unit {0})
  branch_expr expr = do offs ← getbyte_imm; reg_incpc (if expr then s_char offs else 0)

  unfoldable pub pushbyte : ℕ → M (Unit {0})
  pushbyte value = do mem_putb (← reg_postdecsp 1) (u8 value)

  unfoldable pub pushword : ℕ → M (Unit {0})
  pushword value = do pushbyte value; pushbyte (value / 2 ^ 8)

  unfoldable pub popbyte : M ℕ
  popbyte = do mem_getb (← reg_preincsp 1)

  unfoldable pub popword : M ℕ
  popword = do hibyte ← popbyte; lobyte ← popbyte; pure (bit_or (hibyte * 2 ^ 8) lobyte)
