-- ===== src/H6301/Timer.antt =====
-- src/arch/h6301/timer.c: the handlers of the timer registers, and the timer itself.
use sim68xx.Common.{ℕ, ◌+◌, ◌-◌, bit_and, bit_or, Bool, true, false, leb, u32}
use sim68xx.Machine.{M, pure, ◌>>=◌, ◌>>◌, gets, modify, when}
use sim68xx.Machine.Reg.{nonzero}
use sim68xx.Memory.{ireg_getb, ireg_getw, ireg_putb, ireg_putw}
use sim68xx.H6301.Registers.{tcsr, frc, ocr, tof, ocf, icf}

abbrev pub set_tcsr_is_read : Bool → M (Unit {0})
set_tcsr_is_read b = modify (λ m. record m { timer = record m.timer { tcsr_is_read = b } })

unfoldable pub tcsr_getb : ℕ → M ℕ
tcsr_getb offs = do
  value ← ireg_getb tcsr
  when (nonzero (bit_and value ocf)) (set_tcsr_is_read true)
  pure value

unfoldable pub tcsr_putb : ℕ → ℕ → M (Unit {0})
unfolding ireg_putb
tcsr_putb offs value = do
  let read_only = icf + ocf + tof
  old ← ireg_getb tcsr
  ireg_putb tcsr (bit_or (bit_and old read_only) (bit_and value (0xff - read_only)))

unfoldable pub ocr_putb : ℕ → ℕ → M (Unit {0})
unfolding ireg_putb
ocr_putb offs value = do
  ireg_putb offs value
  is_read ← gets (λ m. m.timer.tcsr_is_read)
  when is_read (do ireg_putb tcsr (bit_and (← ireg_getb tcsr) (0xff - ocf)); set_tcsr_is_read false)

-- The output compare of `timer_inc`: the old value of the counter plays no part.
unfoldable pub compare : ℕ → M (Unit {0})
unfolding ireg_putb
compare new = do
  target ← ireg_getw ocr
  when (leb target new) (do ireg_putb tcsr (bit_or (← ireg_getb tcsr) ocf); set_tcsr_is_read false)

unfoldable pub timer_inc : ℕ → M (Unit {0})
unfolding ireg_putw compare
timer_inc ncycles = do
  old ← ireg_getw frc
  let new = u32 (old + ncycles)
  compare new
  ireg_putw frc new
