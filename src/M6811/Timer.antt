-- ===== src/M6811/Timer.antt =====
-- src/arch/m6811/timer.c: the output compares and the running counter.
use sim68xx.Common.{
  ℕ, zero, suc, ◌+◌, ◌-◌, ◌^◌, bit_and, bit_or, Bool, ◌||◌, ◌==◌, leb, if◌then◌else◌, u32, u64,
  sub32, sub64,
}
use sim68xx.Machine.{◌>>=◌, ◌>>◌, M, pure, gets, modify, when, report, update, toc_unsupported}
use sim68xx.Memory.{ireg_getb, ireg_getw, ireg_putb, ireg_putw}
use sim68xx.M6811.Registers.{
  cforc, oc1d, oc1f, oc1m, oc2f, oc3f, oc4f, oc5f, pactl, tcnt, tctl1, tctl2, tflg1, tflg2, tmsk1,
  tmsk2, toc1, toc2, toc3, toc4, toc5,
}

abbrev pub toc_length : ℕ
toc_length = 5

-- `toc[i].offs`; `toc[i].ticks` is `Machine.toc_ticks i`.
abbrev pub toc_offs : ℕ → ℕ
toc_offs i =
    if i == 0
    then toc1
    else if i == 1
    then toc2
    else if i == 2
    then toc3
    else if i == 3
    then toc4
    else toc5

-- `toc[i].flag`
abbrev pub toc_flag : ℕ → ℕ
toc_flag i =
    if i == 0
    then oc1f
    else if i == 1
    then oc2f
    else if i == 2
    then oc3f
    else if i == 3
    then oc4f
    else oc5f

-- A `long` below 0.
abbrev pub is_negative : ℕ → Bool
is_negative n = leb (2 ^ 63) n

abbrev pub set_ticks : ℕ → ℕ → M (Unit {0})
set_ticks i n = modify (λ m. record m { toc_ticks = update m.toc_ticks i n })

unfoldable pub tflg_putb : ℕ → ℕ → M (Unit {0})
tflg_putb offs value = do ireg_putb offs (bit_and (← ireg_getb offs) (0xff - value))

-- The difference of two `u_int` is one too, and so not below 0 as a `long`.
unfoldable pub latch_toc : ℕ → M (Unit {0})
latch_toc i = do
  toci ← ireg_getw (toc_offs i)
  count ← ireg_getw tcnt
  let ticks = sub32 toci count
  set_ticks i (if is_negative ticks then u64 (ticks + 65536) else ticks)

-- The loop of `toc_putb` from `i` on, with `n` rounds left.
unfoldable pub toc_putb_from : ℕ → ℕ → ℕ → ℕ → M (Unit {0})
toc_putb_from zero i offs value = report (toc_unsupported offs)
toc_putb_from (suc n) i offs value =
    let rest = toc_putb_from n (i + 1) offs value in
    if offs == toc_offs i
    then ireg_putb offs value
    else if offs == toc_offs i + 1
    then (do latch_toc i; ireg_putb offs value)
    else rest

unfoldable pub toc_putb : ℕ → ℕ → M (Unit {0})
toc_putb offs value = toc_putb_from toc_length 0 offs value

unfoldable pub timer_reset : M (Unit {0})
timer_reset = do
  ireg_putw tcnt 0x0000
  ireg_putb cforc 0x00
  ireg_putb oc1m 0x00
  ireg_putb oc1d 0x00
  ireg_putb tctl1 0x00
  ireg_putb tctl2 0x00
  ireg_putb tmsk1 0x00
  ireg_putb tflg1 0x00
  ireg_putb tmsk2 0x00
  ireg_putb tflg2 0x00
  ireg_putb pactl 0x00
  ireg_putw toc1 0xffff
  ireg_putw toc2 0xffff
  ireg_putw toc3 0xffff
  ireg_putw toc4 0xffff
  ireg_putw toc5 0xffff

-- What a round does when no ticks are left.
unfoldable pub raise_toc : ℕ → ℕ → M (Unit {0})
raise_toc i ticks = do
  set_ticks i (u64 (ticks + 65536))
  ireg_putb tflg1 (bit_or (← ireg_getb tflg1) (toc_flag i))

unfoldable pub inc_toc : ℕ → ℕ → M (Unit {0})
inc_toc timer_ticks i = do
  ticks ← gets (λ m. sub64 (m.toc_ticks i) timer_ticks)
  set_ticks i ticks
  when (ticks == 0 || is_negative ticks) (raise_toc i ticks)

-- The loop of `timer_inc` from `i` on, with `n` rounds left.
unfoldable pub inc_tocs : ℕ → ℕ → ℕ → M (Unit {0})
inc_tocs zero i timer_ticks = pure tt
inc_tocs (suc n) i timer_ticks = do inc_toc timer_ticks i; inc_tocs n (i + 1) timer_ticks

-- The prescaler is 1.
unfoldable pub timer_inc : ℕ → M (Unit {0})
timer_inc ncycles = do
  tcnt_old ← ireg_getw tcnt
  let tcnt_new = u32 (tcnt_old + ncycles)
  inc_tocs toc_length 0 ncycles
  ireg_putw tcnt tcnt_new
