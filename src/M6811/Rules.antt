-- ===== src/M6811/Rules.antt =====
-- The functions of the 6811 that the opcode tables name preserve the invariant on every chip whose
-- handlers do.
use sim68xx.Common.{ℕ, zero, suc, ◌+◌, Option, none, some, All, true, arith}
use sim68xx.Machine.{Machine, M}
use sim68xx.Memory.{Chip}
use sim68xx.Invariant.{IsValid, Keeps}
use sim68xx.Invariant.Memory.{Lawful}
use sim68xx.Invariant.Opfunc.{opfunc_rules}
use sim68xx.Invariant.Registers.{if-IsValid}
use sim68xx.M6811.Opfunc.Address.{getaddr_iy, getbyte_iy, getword_iy, bset_addr, bclr_addr}
use sim68xx.M6811.Opfunc.Interrupt.{int_6811, swi_6811, trap_6811}
use sim68xx.M6811.Opfunc.Divide.{idiv_by_zero, idiv_result, idiv_inh, fdiv_result, fdiv_inh}
use sim68xx.M6811.Optab.Entry.{Opcode, Page, traps}

-- There is a function, and it preserves the invariant.
abbrev pub KeepsFunc : Option (M (Unit {0})) → Type 0
KeepsFunc none = ⊥
KeepsFunc (some c) = Keeps c

abbrev pub KeepsOr : Option Page → Option (M (Unit {0})) → Type 0
KeepsOr none f = KeepsFunc f
KeepsOr (some p) f = Unit

-- Of an entry of the first table, which may name a later one instead.
abbrev pub KeepsEntry : Opcode → Type 0
KeepsEntry o = KeepsOr o.op_nexttab o.op_func

abbrev pub KeepsLater : Opcode → Type 0
KeepsLater o = KeepsFunc o.op_func

module _ ⦃chip : Chip⦄ ⦃laws : Lawful chip⦄ where
  pub getaddr_iy-IsValid : Keeps getaddr_iy
  unfolding getaddr_iy
  getaddr_iy-IsValid m v = search opfunc_rules depth 12

  pub getbyte_iy-IsValid : Keeps getbyte_iy
  unfolding getbyte_iy
  getbyte_iy-IsValid m v = search (opfunc_rules, getaddr_iy-IsValid) depth 12

  pub getword_iy-IsValid : Keeps getword_iy
  unfolding getword_iy
  getword_iy-IsValid m v = search (opfunc_rules, getaddr_iy-IsValid) depth 12

  pub bset_addr-IsValid : (addr : ℕ) → Keeps (bset_addr addr)
  unfolding bset_addr
  bset_addr-IsValid addr m v = search opfunc_rules depth 12

  pub bclr_addr-IsValid : (addr : ℕ) → Keeps (bclr_addr addr)
  unfolding bclr_addr
  bclr_addr-IsValid addr m v = search opfunc_rules depth 12

  pub int_6811-IsValid : (addr : ℕ) → Keeps (int_6811 addr)
  unfolding int_6811
  int_6811-IsValid addr m v = search opfunc_rules depth 24

  pub swi_6811-IsValid : Keeps swi_6811
  unfolding swi_6811
  swi_6811-IsValid m v = int_6811-IsValid 0xfff6 m v

  pub trap_6811-IsValid : Keeps trap_6811
  unfolding trap_6811
  trap_6811-IsValid m v = search (opfunc_rules, int_6811-IsValid) depth 12

  idiv_by_zero-IsValid : Keeps idiv_by_zero
  unfolding idiv_by_zero
  idiv_by_zero-IsValid m v = search opfunc_rules depth 12

  idiv_result-IsValid : (d x : ℕ) → Keeps (idiv_result d x)
  unfolding idiv_result
  idiv_result-IsValid d x m v = search opfunc_rules depth 12

  pub idiv_inh-IsValid : Keeps idiv_inh
  unfolding idiv_inh
  idiv_inh-IsValid m v =
      search (opfunc_rules, if-IsValid, idiv_by_zero-IsValid, idiv_result-IsValid) depth 12

  undefined-IsValid : (m : Machine) → IsValid m → IsValid (record m { undefined = true })
  undefined-IsValid m v = ground arith

  fdiv_result-IsValid : (d x : ℕ) → Keeps (fdiv_result d x)
  unfolding fdiv_result
  fdiv_result-IsValid d x m v = search (opfunc_rules, undefined-IsValid) depth 12

  pub fdiv_inh-IsValid : Keeps fdiv_inh
  unfolding fdiv_inh
  fdiv_inh-IsValid m v = search (opfunc_rules, if-IsValid, fdiv_result-IsValid) depth 12

  pub traps-IsValid : (n value : ℕ) → All KeepsLater (traps n value)
  unfolding traps
  traps-IsValid zero value = tt
  traps-IsValid (suc n) value = (trap_6811-IsValid, traps-IsValid n (value + 1))

pub ruleset y_rules = (
  opfunc_rules, getaddr_iy-IsValid, getbyte_iy-IsValid, getword_iy-IsValid, bset_addr-IsValid,
  bclr_addr-IsValid, int_6811-IsValid, swi_6811-IsValid, trap_6811-IsValid, idiv_inh-IsValid,
  fdiv_inh-IsValid,
)
