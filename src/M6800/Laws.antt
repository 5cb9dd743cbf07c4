-- ===== src/M6800/Laws.antt =====
-- The handlers of the registers of the 6800's ACIA preserve the invariant.
use sim68xx.Common.{ℕ, ◌<◌, arith, Bool-cases, inl, inr, u8}
use sim68xx.Machine.{Machine}
use sim68xx.Machine.Reg.{nonzero}
use sim68xx.M6800.Registers.{rdr}
use sim68xx.M6800.Sci.{sr_getb, cr_putb, eat, rdr_getb, tdr_putb, set_txinterrupts}
use sim68xx.M6800.Ireg.{getb_func, putb_func, m6800}
use sim68xx.Invariant.{IsValid, Keeps}
use sim68xx.Invariant.Registers.{when-IsValid, report-IsValid}
use sim68xx.Invariant.Memory.{
  Lawful, Holds, missing, present, KeepsGetb, KeepsPutb, if-Holds, ireg_putb-IsValid, update-lt,
}

set_txinterrupts-IsValid : (n : ℕ) → Keeps (set_txinterrupts n)
set_txinterrupts-IsValid n m v = ground arith

ruleset handler_rules = (set_txinterrupts-IsValid, ireg_putb-IsValid, report-IsValid, when-IsValid)

sr_getb-IsValid : (offs : ℕ) → Keeps (sr_getb offs)
unfolding sr_getb
sr_getb-IsValid offs m v = v

cr_putb-IsValid : (offs value : ℕ) → Keeps (cr_putb offs value)
unfolding cr_putb
cr_putb-IsValid offs value m v = search handler_rules depth 8

tdr_putb-IsValid : (offs value : ℕ) → Keeps (tdr_putb offs value)
unfolding tdr_putb
tdr_putb-IsValid offs value m v = search handler_rules depth 8

-- Eating a received byte leaves the rest within the buffer.
eat-IsValid : (m : Machine) → 0 < m.sci.rxinterrupts → IsValid m → IsValid (eat m)
eat-IsValid m h v =
    let bytes =
      update-lt m.iram rdr (u8 (m.sci.recvbuf m.sci.rxindex)) (omega arith) v.iram_bytes in
    ground arith

rdr_getb-IsValid : (offs : ℕ) → Keeps (rdr_getb offs)
unfolding rdr_getb
rdr_getb-IsValid offs m v = elim (Bool-cases m.cpu.running) [
  | inl e ↦ simp e (elim (Bool-cases (nonzero m.sci.rxinterrupts)) [
    | inl f ↦ simp f (eat-IsValid m (ground arith) v)
    | inr f ↦ simp f (ground arith)
  ])
  | inr e ↦ simp e v
]

getb_func_keeps : (offs : ℕ) → Holds (KeepsGetb offs) (getb_func offs)
unfolding getb_func
getb_func_keeps offs =
    if-Holds _ (present sr_getb (sr_getb-IsValid offs))
      (if-Holds _ (present rdr_getb (rdr_getb-IsValid offs)) missing)

putb_func_keeps : (offs : ℕ) → Holds (KeepsPutb offs) (putb_func offs)
unfolding putb_func
putb_func_keeps offs =
    if-Holds _ (present cr_putb (cr_putb-IsValid offs))
      (if-Holds _ (present tdr_putb (tdr_putb-IsValid offs)) missing)

-- The 6800 with its ACIA is such a chip as the memory relies on.
instance pub m6800-Lawful : Lawful m6800
m6800-Lawful = record { getb_keeps = getb_func_keeps; putb_keeps = putb_func_keeps }
