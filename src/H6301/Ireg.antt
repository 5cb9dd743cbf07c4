-- ===== src/H6301/Ireg.antt =====
-- src/arch/h6301/ireg.c: the tables of the internal registers, as the chip that the memory uses.
use sim68xx.Common.{ℕ, ◌-◌, bit_xor, ◌||◌, ◌==◌, if◌then◌else◌, Option, none, some}
use sim68xx.Machine.{M, ◌>>=◌}
use sim68xx.Memory.{Chip, ireg_getb, ireg_putb}
use sim68xx.H6301.Registers.{niregs, swi_vector}
use sim68xx.H6301.Timer.{tcsr_getb, tcsr_putb, ocr_putb}
use sim68xx.H6301.Sci.{trcsr_getb, trcsr_putb, rdr_getb, tdr_putb}

unfoldable pub port_putb : ℕ → ℕ → M (Unit {0})
unfolding ireg_putb
port_putb offs value = do ireg_putb offs (bit_xor value (← ireg_getb (offs - 2)))

unfoldable pub getb_func : ℕ → Option (ℕ → M ℕ)
getb_func offs =
    if offs == 0x08
    then some tcsr_getb
    else if offs == 0x11
    then some trcsr_getb
    else if offs == 0x12
    then some rdr_getb
    else none

unfoldable pub putb_func : ℕ → Option (ℕ → ℕ → M (Unit {0}))
putb_func offs =
    if offs == 0x02 || offs == 0x03 || offs == 0x06 || offs == 0x07
    then some port_putb
    else if offs == 0x08
    then some tcsr_putb
    else if offs == 0x0b || offs == 0x0c
    then some ocr_putb
    else if offs == 0x11
    then some trcsr_putb
    else if offs == 0x13
    then some tdr_putb
    else none

instance abbrev pub h6301 : Chip
h6301 = record {
  niregs = niregs;
  ireg_getb_func = getb_func;
  ireg_putb_func = putb_func;
  swivector = swi_vector;
}
