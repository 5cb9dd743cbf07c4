-- ===== src/M6811/Laws.antt =====
-- The handlers of the internal registers of the 6811, its timer and its input preserve the invariant.
use sim68xx.Common.{
  ℕ, zero, suc, ◌+◌, ◌<◌, arith, Bool, false, Bool-cases, inl, inr, ltb, ◌==◌, u8, List, [], ◌∷◌,
}
use sim68xx.Machine.{◌>>◌, Machine, toc_unsupported}
use sim68xx.Machine.Reg.{nonzero}
use sim68xx.Invariant.{IsValid, Keeps}
use sim68xx.Invariant.Registers.{if-IsValid, when-IsValid, report-IsValid}
use sim68xx.Invariant.Memory.{
  Lawful, Holds, missing, present, KeepsGetb, KeepsPutb, if-Holds, ireg_putb-IsValid,
  ireg_putw-IsValid, update-lt,
}
use sim68xx.Memory.{ireg_putb}
use sim68xx.H6303.Sci.{bufsize}
use sim68xx.M6811.Registers.{scdr, spdr}
use sim68xx.M6811.Timer.{
  toc_offs, set_ticks, tflg_putb, latch_toc, toc_putb_from, toc_putb, raise_toc, inc_toc, inc_tocs,
  timer_inc, timer_reset,
}
use sim68xx.M6811.Sci.{
  receive, eat, sci_in, scsr_getb, scdr_getb, sccr2_putb, scdr_putb, set_txinterrupts,
}
use sim68xx.M6811.Spi.{
  store, spi_in, spsr_getb, clear_spif, spdr_getb, clock_in, rewind, transfer, spdr_putb,
}
use sim68xx.M6811.Ireg.{getb_func, putb_func, m6811}

set_ticks-IsValid : (i n : ℕ) → Keeps (set_ticks i n)
set_ticks-IsValid i n m v = ground arith

set_txinterrupts-IsValid : (n : ℕ) → Keeps (set_txinterrupts n)
set_txinterrupts-IsValid n m v = ground arith

set_is_read-IsValid :
    (b : Bool) (m : Machine)
    → IsValid m
    → IsValid (record m { spi = record m.spi { spsr_is_read = b } })
set_is_read-IsValid b m v = ground arith

set_interrupt-IsValid :
    (b : Bool) (m : Machine)
    → IsValid m
    → IsValid (record m { spi = record m.spi { spi_interrupt = b } })
set_interrupt-IsValid b m v = ground arith

ruleset handler_rules = (
  set_ticks-IsValid, set_txinterrupts-IsValid, set_is_read-IsValid, set_interrupt-IsValid,
  ireg_putb-IsValid, ireg_putw-IsValid, report-IsValid, when-IsValid,
)

tflg_putb-IsValid : (offs value : ℕ) → Keeps (tflg_putb offs value)
unfolding tflg_putb
tflg_putb-IsValid offs value m v = search handler_rules depth 8

latch_toc-IsValid : (i : ℕ) → Keeps (latch_toc i)
unfolding latch_toc
latch_toc-IsValid i m v = search handler_rules depth 8

latched-IsValid : (i offs value : ℕ) → Keeps (do latch_toc i; ireg_putb offs value)
latched-IsValid i offs value m v =
    ireg_putb-IsValid offs value (latch_toc i m).1 (latch_toc-IsValid i m v)

toc_putb_from-IsValid : (n i offs value : ℕ) → Keeps (toc_putb_from n i offs value)
unfolding toc_putb_from
toc_putb_from-IsValid zero i offs value = report-IsValid (toc_unsupported offs)
toc_putb_from-IsValid (suc n) i offs value =
    if-IsValid (offs == toc_offs i) _ _ (ireg_putb-IsValid offs value) (
      if-IsValid (offs == toc_offs i + 1) _ _ (latched-IsValid i offs value)
        (toc_putb_from-IsValid n (i + 1) offs value))

toc_putb-IsValid : (offs value : ℕ) → Keeps (toc_putb offs value)
unfolding toc_putb
toc_putb-IsValid offs value = toc_putb_from-IsValid 5 0 offs value

pub timer_reset-IsValid : Keeps timer_reset
unfolding timer_reset
timer_reset-IsValid m v = search handler_rules depth 24

raise_toc-IsValid : (i ticks : ℕ) → Keeps (raise_toc i ticks)
unfolding raise_toc
raise_toc-IsValid i ticks m v = search handler_rules depth 8

inc_toc-IsValid : (ticks i : ℕ) → Keeps (inc_toc ticks i)
unfolding inc_toc
inc_toc-IsValid ticks i m v = search (handler_rules, raise_toc-IsValid) depth 8

inc_tocs-IsValid : (n i ticks : ℕ) → Keeps (inc_tocs n i ticks)
unfolding inc_tocs
inc_tocs-IsValid zero i ticks m v = v
inc_tocs-IsValid (suc n) i ticks m v =
    inc_tocs-IsValid n (i + 1) ticks (inc_toc ticks i m).1 (inc_toc-IsValid ticks i m v)

pub timer_inc-IsValid : (ncycles : ℕ) → Keeps (timer_inc ncycles)
unfolding timer_inc
timer_inc-IsValid ncycles m v = search (ireg_putw-IsValid, inc_tocs-IsValid) depth 8

scsr_getb-IsValid : (offs : ℕ) → Keeps (scsr_getb offs)
unfolding scsr_getb
scsr_getb-IsValid offs m v = v

-- Eating a received byte leaves the rest within the buffer.
eat-IsValid : (m : Machine) → 0 < m.sci.rxinterrupts → IsValid m → IsValid (eat m)
eat-IsValid m h v =
    let bytes =
      update-lt m.iram scdr (u8 (m.sci.recvbuf m.sci.rxindex)) (omega arith) v.iram_bytes in
    ground arith

scdr_getb-IsValid : (offs : ℕ) → Keeps (scdr_getb offs)
unfolding scdr_getb
scdr_getb-IsValid offs m v = elim (Bool-cases m.cpu.running) [
  | inl e ↦ simp e (elim (Bool-cases (nonzero m.sci.rxinterrupts)) [
    | inl f ↦ simp f (eat-IsValid m (ground arith) v)
    | inr f ↦ simp f (ground arith)
  ])
  | inr e ↦ simp e v
]

sccr2_putb-IsValid : (offs value : ℕ) → Keeps (sccr2_putb offs value)
unfolding sccr2_putb
sccr2_putb-IsValid offs value m v = search handler_rules depth 8

scdr_putb-IsValid : (offs value : ℕ) → Keeps (scdr_putb offs value)
unfolding scdr_putb
scdr_putb-IsValid offs value m v = search handler_rules depth 8

-- The input of both interfaces, which comes from outside, preserves the invariant too.
pub sci_in-IsValid : (s : List ℕ) (m : Machine) → IsValid m → IsValid (sci_in s m).1
unfolding sci_in
sci_in-IsValid [] m v = v
sci_in-IsValid (value ∷ s) m v =
    elim (Bool-cases (ltb (m.sci.rxindex + m.sci.rxinterrupts) bufsize)) [
      | inl e ↦ rw e (sci_in-IsValid s (receive value m) (ground arith))
      | inr e ↦ rw e v
    ]

pub spi_in-IsValid : (s : List ℕ) (m : Machine) → IsValid m → IsValid (spi_in s m).1
unfolding spi_in
spi_in-IsValid [] m v = v
spi_in-IsValid (value ∷ s) m v = elim (Bool-cases (ltb m.spi.spi_rx_nbytes bufsize)) [
  | inl e ↦ rw e (spi_in-IsValid s (store value m) (ground arith))
  | inr e ↦ rw e v
]

spsr_getb-IsValid : (offs : ℕ) → Keeps (spsr_getb offs)
unfolding spsr_getb
spsr_getb-IsValid offs m v = search handler_rules depth 8

clear_spif-IsValid : Keeps clear_spif
unfolding clear_spif
clear_spif-IsValid m v = search handler_rules depth 8

spdr_getb-IsValid : (offs : ℕ) → Keeps (spdr_getb offs)
unfolding spdr_getb
spdr_getb-IsValid offs m v = clear_spif-IsValid m v

clock_in-IsValid : (m : Machine) → IsValid m → IsValid (clock_in m)
clock_in-IsValid m v =
    let bytes =
      update-lt m.iram spdr (u8 (m.spi.spi_rx_buf m.spi.spi_rx_index)) (omega arith) v.iram_bytes in
    elim (Bool-cases (m.spi.spi_rx_index == m.spi.spi_rx_nbytes)) [
      | inl e ↦ rw e v
      | inr e ↦ rw e (ground arith)
    ]

rewind-IsValid : (m : Machine) → IsValid m → IsValid (rewind m)
rewind-IsValid m v = elim (Bool-cases (m.spi.spi_rx_index == m.spi.spi_rx_nbytes)) [
  | inl e ↦ rw e (ground arith)
  | inr e ↦ rw e v
]

transfer-IsValid : (value : ℕ) → Keeps (transfer value)
unfolding transfer
transfer-IsValid value m v = search (handler_rules, clock_in-IsValid, rewind-IsValid) depth 10

spdr_putb-IsValid : (offs value : ℕ) → Keeps (spdr_putb offs value)
unfolding spdr_putb
spdr_putb-IsValid offs value m v =
    let m1 = (clear_spif m).1 in
    let sent =
      when-IsValid _ (transfer value) (transfer-IsValid value) m1 (clear_spif-IsValid m v) in
    set_is_read-IsValid false _ sent

getb_func_keeps : (offs : ℕ) → Holds (KeepsGetb offs) (getb_func offs)
unfolding getb_func
getb_func_keeps offs = if-Holds _ (present spsr_getb (spsr_getb-IsValid offs)) (
    if-Holds _ (present spdr_getb (spdr_getb-IsValid offs)) (
      if-Holds _ (present scsr_getb (scsr_getb-IsValid offs))
        (if-Holds _ (present scdr_getb (scdr_getb-IsValid offs)) missing)))

putb_func_keeps : (offs : ℕ) → Holds (KeepsPutb offs) (putb_func offs)
unfolding putb_func
putb_func_keeps offs = if-Holds _ (present toc_putb (toc_putb-IsValid offs)) (
    if-Holds _ (present tflg_putb (tflg_putb-IsValid offs)) (
      if-Holds _ (present spdr_putb (spdr_putb-IsValid offs)) (
        if-Holds _ (present sccr2_putb (sccr2_putb-IsValid offs))
          (if-Holds _ (present scdr_putb (scdr_putb-IsValid offs)) missing))))

-- The 6811 is such a chip as the memory relies on.
instance pub m6811-Lawful : Lawful m6811
m6811-Lawful = record { getb_keeps = getb_func_keeps; putb_keeps = putb_func_keeps }
