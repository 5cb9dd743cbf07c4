-- ===== src/H6303/Laws.antt =====
-- The handlers of the internal registers of the HD6303 preserve the invariant.
use sim68xx.Common.{ℕ, ◌+◌, ◌<◌, arith, Bool, Bool-cases, inl, inr, ltb, u8, List, [], ◌∷◌}
use sim68xx.Machine.{Machine}
use sim68xx.Machine.Reg.{nonzero}
use sim68xx.H6303.Registers.{rdr}
use sim68xx.H6303.Timer.{
  tcsr1_getb, tcsr2_getb, tcsr1_putb, tcsr2_putb, ocr1_putb, t2cnt_putb, t2cnt_getb, compare_one,
  compare_two, timer_two, timer_inc, set_tcsr_is_read, set_tcsr2_is_read,
}
use sim68xx.H6303.Sci.{
  bufsize, receive, eat, sci_in, trcsr_getb, trcsr_putb, rdr_getb, tdr_putb, set_txinterrupts,
}
use sim68xx.H6303.Ireg.{port_putb, getb_func, putb_func, h6303}
use sim68xx.Invariant.{IsValid, Keeps}
use sim68xx.Invariant.Registers.{when-IsValid, report-IsValid}
use sim68xx.Invariant.Memory.{
  Lawful, Holds, missing, present, KeepsGetb, KeepsPutb, if-Holds, ireg_putb-IsValid,
  ireg_putw-IsValid, update-lt,
}

set_tcsr_is_read-IsValid : (b : Bool) → Keeps (set_tcsr_is_read b)
set_tcsr_is_read-IsValid b m v = ground arith

set_tcsr2_is_read-IsValid : (b : Bool) → Keeps (set_tcsr2_is_read b)
set_tcsr2_is_read-IsValid b m v = ground arith

set_txinterrupts-IsValid : (n : ℕ) → Keeps (set_txinterrupts n)
set_txinterrupts-IsValid n m v = ground arith

ruleset handler_rules = (
  set_tcsr_is_read-IsValid, set_tcsr2_is_read-IsValid, set_txinterrupts-IsValid, ireg_putb-IsValid,
  ireg_putw-IsValid, report-IsValid, when-IsValid,
)

tcsr1_getb-IsValid : (offs : ℕ) → Keeps (tcsr1_getb offs)
unfolding tcsr1_getb
tcsr1_getb-IsValid offs m v = search handler_rules depth 8

tcsr2_getb-IsValid : (offs : ℕ) → Keeps (tcsr2_getb offs)
unfolding tcsr2_getb
tcsr2_getb-IsValid offs m v = search handler_rules depth 8

tcsr1_putb-IsValid : (offs value : ℕ) → Keeps (tcsr1_putb offs value)
unfolding tcsr1_putb
tcsr1_putb-IsValid offs value m v = search handler_rules depth 8

ocr1_putb-IsValid : (offs value : ℕ) → Keeps (ocr1_putb offs value)
unfolding ocr1_putb
ocr1_putb-IsValid offs value m v = search handler_rules depth 8

tcsr2_putb-IsValid : (offs value : ℕ) → Keeps (tcsr2_putb offs value)
unfolding tcsr2_putb
tcsr2_putb-IsValid offs value m v = search handler_rules depth 10

t2cnt_putb-IsValid : (offs value : ℕ) → Keeps (t2cnt_putb offs value)
unfolding t2cnt_putb
t2cnt_putb-IsValid offs value m v = search handler_rules depth 10

compare_one-IsValid : (old new : ℕ) → Keeps (compare_one old new)
unfolding compare_one
compare_one-IsValid old new m v = search handler_rules depth 10

compare_two-IsValid : (old new : ℕ) → Keeps (compare_two old new)
unfolding compare_two
compare_two-IsValid old new m v = search handler_rules depth 10

timer_two-IsValid : (old new : ℕ) → Keeps (timer_two old new)
unfolding timer_two
timer_two-IsValid old new m v = search handler_rules depth 10

port_putb-IsValid : (offs value : ℕ) → Keeps (port_putb offs value)
unfolding port_putb
port_putb-IsValid offs value m v = search handler_rules depth 10

t2cnt_getb-IsValid : (offs : ℕ) → Keeps (t2cnt_getb offs)
unfolding t2cnt_getb
t2cnt_getb-IsValid offs m v = v

pub timer_inc-IsValid : (ncycles : ℕ) → Keeps (timer_inc ncycles)
unfolding timer_inc
timer_inc-IsValid ncycles m v =
    search (ireg_putw-IsValid, compare_one-IsValid, compare_two-IsValid, timer_two-IsValid) depth 8

trcsr_getb-IsValid : (offs : ℕ) → Keeps (trcsr_getb offs)
unfolding trcsr_getb
trcsr_getb-IsValid offs m v = elim (Bool-cases (nonzero m.sci.rxinterrupts)) [
  | inl e ↦ rw e v
  | inr e ↦ rw e v
]

trcsr_putb-IsValid : (offs value : ℕ) → Keeps (trcsr_putb offs value)
unfolding trcsr_putb
trcsr_putb-IsValid offs value m v = search (handler_rules, trcsr_getb-IsValid) depth 8

tdr_putb-IsValid : (offs value : ℕ) → Keeps (tdr_putb offs value)
unfolding tdr_putb
tdr_putb-IsValid offs value m v = search (handler_rules, trcsr_getb-IsValid) depth 8

-- Eating a received byte leaves the rest within the buffer.
eat-IsValid : (m : Machine) → 0 < m.sci.rxinterrupts → IsValid m → IsValid (eat m)
eat-IsValid m h v =
    let bytes =
      update-lt m.iram rdr (u8 (m.sci.recvbuf m.sci.rxindex)) (omega arith) v.iram_bytes in
    ground arith

rdr_getb-IsValid : (offs : ℕ) → Keeps (rdr_getb offs)
unfolding rdr_getb
rdr_getb-IsValid offs m v = elim (Bool-cases m.cpu.running) [
  | inl e ↦ simp e (elim (Bool-cases (nonzero m.sci.rxinterrupts)) [
    | inl f ↦ simp f (eat-IsValid m (ground arith) v)
    | inr f ↦ simp f (ground arith)
  ])
  | inr e ↦ simp e v
]

-- The input of the serial interface, which comes from outside, preserves the invariant too.
pub sci_in-IsValid : (s : List ℕ) (m : Machine) → IsValid m → IsValid (sci_in s m).1
unfolding sci_in
sci_in-IsValid [] m v = v
sci_in-IsValid (value ∷ s) m v =
    elim (Bool-cases (ltb (m.sci.rxindex + m.sci.rxinterrupts) bufsize)) [
      | inl e ↦ rw e (sci_in-IsValid s (receive value m) (ground arith))
      | inr e ↦ rw e v
    ]

getb_func_keeps : (offs : ℕ) → Holds (KeepsGetb offs) (getb_func offs)
unfolding getb_func
getb_func_keeps offs = if-Holds _ (present tcsr1_getb (tcsr1_getb-IsValid offs)) (
    if-Holds _ (present tcsr2_getb (tcsr2_getb-IsValid offs)) (
      if-Holds _ (present trcsr_getb (trcsr_getb-IsValid offs)) (
        if-Holds _ (present rdr_getb (rdr_getb-IsValid offs))
          (if-Holds _ (present t2cnt_getb (t2cnt_getb-IsValid offs)) missing))))

putb_func_keeps : (offs : ℕ) → Holds (KeepsPutb offs) (putb_func offs)
unfolding putb_func
putb_func_keeps offs = if-Holds _ (present port_putb (port_putb-IsValid offs)) (
    if-Holds _ (present tcsr1_putb (tcsr1_putb-IsValid offs)) (
      if-Holds _ (present ocr1_putb (ocr1_putb-IsValid offs)) (
        if-Holds _ (present tcsr2_putb (tcsr2_putb-IsValid offs)) (
          if-Holds _ (present trcsr_putb (trcsr_putb-IsValid offs)) (
            if-Holds _ (present tdr_putb (tdr_putb-IsValid offs))
              (if-Holds _ (present t2cnt_putb (t2cnt_putb-IsValid offs)) missing))))))

-- The HD6303 is such a chip as the memory relies on.
instance pub h6303-Lawful : Lawful h6303
h6303-Lawful = record { getb_keeps = getb_func_keeps; putb_keeps = putb_func_keeps }
