-- ===== src/Invariant/Opfunc.antt =====
-- Address modes, the stack, and the functions on an address preserve the invariant.
use sim68xx.Common.{ℕ, Bool}
use sim68xx.Memory.{Chip}
use sim68xx.Opfunc.Address.{
  getaddr_dir, getaddr_ext, getaddr_ix, getbyte_imm, getbyte_dir, getbyte_ext, getbyte_ix,
  getword_imm, getword_dir, getword_ext, getword_ix, branch_expr, pushbyte, pushword, popbyte,
  popword,
}
use sim68xx.Opfunc.Modify.{
  asr_addr, jsr_addr, clr_addr, com_addr, dec_addr, inc_addr, lsl_addr, lsr_addr, neg_addr,
  rol_addr, ror_addr, staa_addr, stab_addr, sts_addr, stx_addr, tst_addr, int_addr,
}
use sim68xx.Invariant.{Keeps}
use sim68xx.Invariant.Registers.{register_rules}
use sim68xx.Invariant.Stack.{stack_rules}
use sim68xx.Invariant.Alu.{alu_rules}
use sim68xx.Invariant.Memory.{Lawful, memory_rules}

pub ruleset base_rules = (register_rules, stack_rules, alu_rules, memory_rules)

module _ ⦃chip : Chip⦄ ⦃laws : Lawful chip⦄ where
  pub getaddr_dir-IsValid : Keeps (getaddr_dir)
  unfolding getaddr_dir
  getaddr_dir-IsValid m v = search base_rules depth 12

  pub getaddr_ext-IsValid : Keeps (getaddr_ext)
  unfolding getaddr_ext
  getaddr_ext-IsValid m v = search base_rules depth 12

  pub getaddr_ix-IsValid : Keeps (getaddr_ix)
  unfolding getaddr_ix
  getaddr_ix-IsValid m v = search base_rules depth 12

  pub getbyte_imm-IsValid : Keeps (getbyte_imm)
  unfolding getbyte_imm
  getbyte_imm-IsValid m v = search base_rules depth 12

  pub getbyte_dir-IsValid : Keeps (getbyte_dir)
  unfolding getbyte_dir
  getbyte_dir-IsValid m v = search (base_rules, getaddr_dir-IsValid) depth 12

  pub getbyte_ext-IsValid : Keeps (getbyte_ext)
  unfolding getbyte_ext
  getbyte_ext-IsValid m v = search (base_rules, getaddr_ext-IsValid) depth 12

  pub getbyte_ix-IsValid : Keeps (getbyte_ix)
  unfolding getbyte_ix
  getbyte_ix-IsValid m v = search (base_rules, getaddr_ix-IsValid) depth 12

  pub getword_imm-IsValid : Keeps (getword_imm)
  unfolding getword_imm
  getword_imm-IsValid m v = search base_rules depth 12

  pub getword_dir-IsValid : Keeps (getword_dir)
  unfolding getword_dir
  getword_dir-IsValid m v = search (base_rules, getaddr_dir-IsValid) depth 12

  pub getword_ext-IsValid : Keeps (getword_ext)
  unfolding getword_ext
  getword_ext-IsValid m v = search (base_rules, getaddr_ext-IsValid) depth 12

  pub getword_ix-IsValid : Keeps (getword_ix)
  unfolding getword_ix
  getword_ix-IsValid m v = search (base_rules, getaddr_ix-IsValid) depth 12

  pub branch_expr-IsValid : (expr : Bool) → Keeps (branch_expr expr)
  unfolding branch_expr
  branch_expr-IsValid expr m v = search (base_rules, getbyte_imm-IsValid) depth 12

  pub pushbyte-IsValid : (value : ℕ) → Keeps (pushbyte value)
  unfolding pushbyte
  pushbyte-IsValid value m v = search base_rules depth 12

  pub pushword-IsValid : (value : ℕ) → Keeps (pushword value)
  unfolding pushword
  pushword-IsValid value m v = search (base_rules, pushbyte-IsValid) depth 12

  pub popbyte-IsValid : Keeps (popbyte)
  unfolding popbyte
  popbyte-IsValid m v = search base_rules depth 12

  pub popword-IsValid : Keeps (popword)
  unfolding popword
  popword-IsValid m v = search (base_rules, popbyte-IsValid) depth 12

  pub asr_addr-IsValid : (addr : ℕ) → Keeps (asr_addr addr)
  unfolding asr_addr
  asr_addr-IsValid addr m v = search base_rules depth 12

  pub jsr_addr-IsValid : (addr : ℕ) → Keeps (jsr_addr addr)
  unfolding jsr_addr
  jsr_addr-IsValid addr m v = search (base_rules, pushword-IsValid) depth 12

  pub clr_addr-IsValid : (addr : ℕ) → Keeps (clr_addr addr)
  unfolding clr_addr
  clr_addr-IsValid addr m v = search base_rules depth 12

  pub com_addr-IsValid : (addr : ℕ) → Keeps (com_addr addr)
  unfolding com_addr
  com_addr-IsValid addr m v = search base_rules depth 12

  pub dec_addr-IsValid : (addr : ℕ) → Keeps (dec_addr addr)
  unfolding dec_addr
  dec_addr-IsValid addr m v = search base_rules depth 12

  pub inc_addr-IsValid : (addr : ℕ) → Keeps (inc_addr addr)
  unfolding inc_addr
  inc_addr-IsValid addr m v = search base_rules depth 12

  pub lsl_addr-IsValid : (addr : ℕ) → Keeps (lsl_addr addr)
  unfolding lsl_addr
  lsl_addr-IsValid addr m v = search base_rules depth 12

  pub lsr_addr-IsValid : (addr : ℕ) → Keeps (lsr_addr addr)
  unfolding lsr_addr
  lsr_addr-IsValid addr m v = search base_rules depth 12

  pub neg_addr-IsValid : (addr : ℕ) → Keeps (neg_addr addr)
  unfolding neg_addr
  neg_addr-IsValid addr m v = search base_rules depth 12

  pub rol_addr-IsValid : (addr : ℕ) → Keeps (rol_addr addr)
  unfolding rol_addr
  rol_addr-IsValid addr m v = search base_rules depth 12

  pub ror_addr-IsValid : (addr : ℕ) → Keeps (ror_addr addr)
  unfolding ror_addr
  ror_addr-IsValid addr m v = search base_rules depth 12

  pub staa_addr-IsValid : (addr : ℕ) → Keeps (staa_addr addr)
  unfolding staa_addr
  staa_addr-IsValid addr m v = search base_rules depth 12

  pub stab_addr-IsValid : (addr : ℕ) → Keeps (stab_addr addr)
  unfolding stab_addr
  stab_addr-IsValid addr m v = search base_rules depth 12

  pub sts_addr-IsValid : (addr : ℕ) → Keeps (sts_addr addr)
  unfolding sts_addr
  sts_addr-IsValid addr m v = search base_rules depth 12

  pub stx_addr-IsValid : (addr : ℕ) → Keeps (stx_addr addr)
  unfolding stx_addr
  stx_addr-IsValid addr m v = search base_rules depth 12

  pub tst_addr-IsValid : (addr : ℕ) → Keeps (tst_addr addr)
  unfolding tst_addr
  tst_addr-IsValid addr m v = search base_rules depth 12

  pub int_addr-IsValid : (addr : ℕ) → Keeps (int_addr addr)
  unfolding int_addr
  int_addr-IsValid addr m v = search (base_rules, pushword-IsValid, pushbyte-IsValid) depth 12

pub ruleset opfunc_rules = (
  base_rules, getaddr_dir-IsValid, getaddr_ext-IsValid, getaddr_ix-IsValid, getbyte_imm-IsValid,
  getbyte_dir-IsValid, getbyte_ext-IsValid, getbyte_ix-IsValid, getword_imm-IsValid,
  getword_dir-IsValid, getword_ext-IsValid, getword_ix-IsValid, branch_expr-IsValid,
  pushbyte-IsValid, pushword-IsValid, popbyte-IsValid, popword-IsValid, asr_addr-IsValid,
  jsr_addr-IsValid, clr_addr-IsValid, com_addr-IsValid, dec_addr-IsValid, inc_addr-IsValid,
  lsl_addr-IsValid, lsr_addr-IsValid, neg_addr-IsValid, rol_addr-IsValid, ror_addr-IsValid,
  staa_addr-IsValid, stab_addr-IsValid, sts_addr-IsValid, stx_addr-IsValid, tst_addr-IsValid,
  int_addr-IsValid,
)
