-- ===== src/H6303/Ireg.antt =====
-- src/arch/h6303/ireg.c: the tables of the internal registers, as the chip that the memory uses.
use sim68xx.Common.{ℕ, ◌-◌, bit_xor, ◌||◌, ◌==◌, if◌then◌else◌, Option, none, some}
use sim68xx.Machine.{M, ◌>>=◌}
use sim68xx.Memory.{Chip, ireg_getb, ireg_putb}
use sim68xx.H6303.Registers.{niregs, swi_vector}
use sim68xx.H6303.Timer.{
  tcsr1_getb, tcsr2_getb, tcsr1_putb, tcsr2_putb, ocr1_putb, t2cnt_putb, t2cnt_getb,
}
use sim68xx.H6303.Sci.{trcsr_getb, trcsr_putb, rdr_getb, tdr_putb}

unfoldable pub port_putb : ℕ → ℕ → M (Unit {0})
unfolding ireg_putb
port_putb offs value = do ireg_putb offs (bit_xor value (← ireg_getb (offs - 2)))

unfoldable pub getb_func : ℕ → Option (ℕ → M ℕ)
getb_func offs =
    if offs == 0x08
    then some tcsr1_getb
    else if offs == 0x0f
    then some tcsr2_getb
    else if offs == 0x11
    then some trcsr_getb
    else if offs == 0x12
    then some rdr_getb
    else if offs == 0x1d
    then some t2cnt_getb
    else none

unfoldable pub putb_func : ℕ → Option (ℕ → ℕ → M (Unit {0}))
putb_func offs =
    if offs == 0x02 || offs == 0x03 || offs == 0x06 || offs == 0x07
    then some port_putb
    else if offs == 0x08
    then some tcsr1_putb
    else if offs == 0x0b || offs == 0x0c
    then some ocr1_putb
    else if offs == 0x0f
    then some tcsr2_putb
    else if offs == 0x11
    then some trcsr_putb
    else if offs == 0x13
    then some tdr_putb
    else if offs == 0x1d
    then some t2cnt_putb
    else none

instance abbrev pub h6303 : Chip
h6303 = record {
  niregs = niregs;
  ireg_getb_func = getb_func;
  ireg_putb_func = putb_func;
  swivector = swi_vector;
}
