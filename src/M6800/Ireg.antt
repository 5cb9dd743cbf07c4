-- ===== src/M6800/Ireg.antt =====
-- src/arch/m6800/ireg.c: the tables of the ACIA's registers, as the chip that the memory uses.
use sim68xx.Common.{ℕ, ◌==◌, if◌then◌else◌, Option, none, some}
use sim68xx.Machine.{M}
use sim68xx.Memory.{Chip}
use sim68xx.M6800.Registers.{niregs, swi_vector}
use sim68xx.M6800.Sci.{sr_getb, cr_putb, rdr_getb, tdr_putb}

unfoldable pub getb_func : ℕ → Option (ℕ → M ℕ)
getb_func offs = if offs == 0 then some sr_getb else if offs == 1 then some rdr_getb else none

unfoldable pub putb_func : ℕ → Option (ℕ → ℕ → M (Unit {0}))
putb_func offs = if offs == 0 then some cr_putb else if offs == 1 then some tdr_putb else none

instance abbrev pub m6800 : Chip
m6800 = record {
  niregs = niregs;
  ireg_getb_func = getb_func;
  ireg_putb_func = putb_func;
  swivector = swi_vector;
}
