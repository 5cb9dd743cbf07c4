-- ===== src/M6811/Ireg.antt =====
-- src/arch/m6811/ireg.c: the tables of the internal registers, as the chip that the memory uses.
use sim68xx.Common.{ℕ, ◌||◌, ◌==◌, if◌then◌else◌, Option, none, some}
use sim68xx.Machine.{M}
use sim68xx.Memory.{Chip}
use sim68xx.M6811.Registers.{niregs, swi_vector}
use sim68xx.M6811.Timer.{tflg_putb, toc_putb}
use sim68xx.M6811.Sci.{sccr2_putb, scdr_getb, scdr_putb, scsr_getb}
use sim68xx.M6811.Spi.{spdr_getb, spdr_putb, spsr_getb}

unfoldable pub getb_func : ℕ → Option (ℕ → M ℕ)
getb_func offs =
    if offs == 0x29
    then some spsr_getb
    else if offs == 0x2a
    then some spdr_getb
    else if offs == 0x2e
    then some scsr_getb
    else if offs == 0x2f
    then some scdr_getb
    else none

unfoldable pub putb_func : ℕ → Option (ℕ → ℕ → M (Unit {0}))
putb_func offs =
    if offs == 0x16 || offs == 0x17
    then some toc_putb
    else if offs == 0x23 || offs == 0x25
    then some tflg_putb
    else if offs == 0x2a
    then some spdr_putb
    else if offs == 0x2d
    then some sccr2_putb
    else if offs == 0x2f
    then some scdr_putb
    else none

instance abbrev pub m6811 : Chip
m6811 = record {
  niregs = niregs;
  ireg_getb_func = getb_func;
  ireg_putb_func = putb_func;
  swivector = swi_vector;
}
