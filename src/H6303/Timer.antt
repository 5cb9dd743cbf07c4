-- ===== src/H6303/Timer.antt =====
-- src/arch/h6303/timer.c: the handlers of the timer registers, and the timer itself.
use sim68xx.Common.{
  ℕ, ◌+◌, ◌-◌, ◌/◌, ◌^◌, bit_and, bit_or, Bool, true, false, ◌&&◌, ◌==◌, ltb, leb, if◌then◌else◌,
  u32,
}
use sim68xx.Machine.{M, pure, ◌>>=◌, ◌>>◌, gets, modify, when}
use sim68xx.Machine.Reg.{nonzero}
use sim68xx.Memory.{ireg_getb, ireg_getw, ireg_putb, ireg_putw}
use sim68xx.H6303.Registers.{
  tcsr, tcsr1, frc, ocr1, tcsr2, ocr2, tcsr3, tconr, t2cnt, tof, ocf1, icf, ocf2, cks0, cks1, te2,
  cmf,
}

abbrev pub set_tcsr_is_read : Bool → M (Unit {0})
set_tcsr_is_read b = modify (λ m. record m { timer = record m.timer { tcsr_is_read = b } })

abbrev pub set_tcsr2_is_read : Bool → M (Unit {0})
set_tcsr2_is_read b = modify (λ m. record m { timer = record m.timer { tcsr2_is_read = b } })

unfoldable pub tcsr1_getb : ℕ → M ℕ
tcsr1_getb offs = do
  value ← ireg_getb tcsr1
  when (nonzero (bit_and value ocf1)) (set_tcsr_is_read true)
  pure value

-- OCF1 and ICF are read from TCSR1.
unfoldable pub tcsr2_getb : ℕ → M ℕ
tcsr2_getb offs = do
  own ← ireg_getb tcsr2
  shared ← ireg_getb tcsr1
  let value = bit_or (bit_and own (0xff - (ocf1 + icf))) (bit_and shared (ocf1 + icf))
  when (nonzero (bit_and value ocf2)) (set_tcsr2_is_read true)
  when (nonzero (bit_and value ocf1)) (set_tcsr_is_read true)
  pure value

unfoldable pub tcsr1_putb : ℕ → ℕ → M (Unit {0})
unfolding ireg_putb
tcsr1_putb offs value = do
  let read_only = icf + ocf1 + tof
  old ← ireg_getb tcsr1
  ireg_putb tcsr1 (bit_or (bit_and old read_only) (bit_and value (0xff - read_only)))

-- As in the source, the register written is TCSR, which is TCSR1.
unfoldable pub tcsr2_putb : ℕ → ℕ → M (Unit {0})
unfolding ireg_putb
tcsr2_putb offs value = do
  let read_only = icf + ocf2 + ocf1
  old ← ireg_getb tcsr
  ireg_putb tcsr (bit_or (bit_and old read_only) (bit_and value (0xff - read_only)))

unfoldable pub ocr1_putb : ℕ → ℕ → M (Unit {0})
unfolding ireg_putb
ocr1_putb offs value = do
  ireg_putb offs value
  is_read ← gets (λ m. m.timer.tcsr_is_read)
  when is_read
      (do ireg_putb tcsr1 (bit_and (← ireg_getb tcsr1) (0xff - ocf1)); set_tcsr_is_read false)

unfoldable pub ocr2_putb : ℕ → ℕ → M (Unit {0})
unfolding ireg_putb
ocr2_putb offs value = do
  ireg_putb offs value
  is_read ← gets (λ m. m.timer.tcsr2_is_read)
  when is_read
      (do ireg_putb tcsr2 (bit_and (← ireg_getb tcsr2) (0xff - ocf2)); set_tcsr2_is_read false)

-- The clock select bits are taken from TCONR, as in the source.
unfoldable pub t2cnt_get_prescale_bits : M ℕ
t2cnt_get_prescale_bits = do
  select ← gets (λ m. bit_and (m.iram tconr) (cks1 + cks0))
  pure (if select == 1 then 3 else if select == 2 then 7 else 0)

unfoldable pub t2cnt_putb : ℕ → ℕ → M (Unit {0})
unfolding ireg_putb
t2cnt_putb offs value = ireg_putb t2cnt value

unfoldable pub t2cnt_getb : ℕ → M ℕ
t2cnt_getb offs = ireg_getb t2cnt

-- `(new >= compare) && (old < compare)`.
abbrev pub matches : ℕ → ℕ → ℕ → Bool
matches old new target = leb target new && ltb old target

-- The two output compares of `timer_inc`.
unfoldable pub compare_one : ℕ → ℕ → M (Unit {0})
unfolding ireg_putb
compare_one old new = do
  target ← ireg_getw ocr1
  when (matches old new target)
      (do ireg_putb tcsr1 (bit_or (← ireg_getb tcsr1) ocf1); set_tcsr_is_read false)

unfoldable pub compare_two : ℕ → ℕ → M (Unit {0})
unfolding ireg_putb
compare_two old new = do
  target ← ireg_getw ocr2
  when (matches old new target)
      (do ireg_putb tcsr2 (bit_or (← ireg_getb tcsr2) ocf2); set_tcsr2_is_read false)

-- Timer 2 of `timer_inc`.
unfoldable pub timer_two : ℕ → ℕ → M (Unit {0})
unfolding ireg_putb t2cnt_get_prescale_bits
timer_two old new = do
  control ← ireg_getw tcsr3
  when (nonzero (bit_and control te2)) (do
    bits ← t2cnt_get_prescale_bits
    let diff = new / 2 ^ bits - old / 2 ^ bits
    t2_old ← ireg_getb t2cnt
    target ← ireg_getb tconr
    let t2_new = t2_old + diff
    when (matches t2_old t2_new target)
        (do ireg_putb tcsr3 (bit_or (← ireg_getb tcsr3) cmf); set_tcsr2_is_read false)
    ireg_putb t2cnt
        (bit_and (if matches t2_old t2_new target then t2_new - target else t2_new) 0xff))

unfoldable pub timer_inc : ℕ → M (Unit {0})
timer_inc ncycles = do
  old ← ireg_getw frc
  let new = u32 (old + ncycles)
  compare_one old new
  compare_two old new
  timer_two old new
  ireg_putw frc new
