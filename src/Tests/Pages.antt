-- ===== src/Tests/Pages.antt =====
-- The theorems on the 6811 applied to concrete machines.
use sim68xx.M6811.Ireg.{m6811}
use sim68xx.Common.{
  ◌+◌, ◌*◌, ◌<◌, true, false, ◌==◌, if◌then◌else◌, ◌≡◌, ◌⊎◌, some, refl, arith, [], ◌∷◌,
}
use sim68xx.Machine.{Machine, M}
use sim68xx.Machine.Reg.{Flag, set_flag}
use sim68xx.Memory.{mem_getb}
use sim68xx.Invariant.{IsValid}
use sim68xx.Alu.Spec.{flag}
use sim68xx.H6303.Run.{initial}
use sim68xx.H6303.Clock.{word}
use sim68xx.M6811.Registers.{toc1}
use sim68xx.M6811.Timer.{toc_putb}
use sim68xx.M6811.Spi.{spi_in}
use sim68xx.M6811.Instr.{instr_exec, opcode_getentry, reset}
use sim68xx.M6811.Opfunc.Divide.{idiv_inh, fdiv_inh}
use sim68xx.M6811.Sci.{sci_in}
use sim68xx.M6811.Safety.{m6811_steps-IsValid}
use sim68xx.M6811.Divide.{accd, idiv_inh_lem, fdiv_inh_lem}
use sim68xx.M6811.Clock.{toc_putb_latches}
use sim68xx.Common.Bits.{bit}
use sim68xx.M6811.Opfunc.Bits.{bclr_dir, bset_dir}
use sim68xx.M6811.Bits.{bits_change}
use sim68xx.M6811.Fifo.{clocked, spi_in_refines}
use sim68xx.M6811.Decode.{Selected, opcode_getentry_lem}

-- `18 08`, `iny`, is next. D holds 0x102 and X 7; the second output compare is four ticks ahead, the
-- others twenty, and one byte waits to be clocked in.
abbrev paged : Machine
paged = record initial {
  regs = record { a = 1; b = 2; ix = 7; iy = 9; sp = 0x1ff; pc = 0xc000; ccr = 0x01 };
  cpu = record initial.cpu { running = true; stack_max = 0xffff };
  mem = record initial.mem {
    ram = λ i. if i == 0xc000 then 0x18 else if i == 0xc001 then 0x08 else 0xd0;
  };
  ireg_start = 0x1000;
  toc_ticks = λ i. if i == 1 then 4 else 20;
  spi = record initial.spi { spi_rx_buf = λ i. 0x41; spi_rx_nbytes = 1 };
}

paged-IsValid : IsValid paged
paged-IsValid = ground arith

m6811_steps-IsValid_example :
    IsValid (reset paged).1
    × IsValid (instr_exec paged).1
    × IsValid (sci_in (0x41 ∷ []) paged).1
    × IsValid (spi_in (0x41 ∷ []) paged).1
m6811_steps-IsValid_example = m6811_steps-IsValid (0x41 ∷ []) paged paged-IsValid

bits_change_example :
    (bit ((bclr_dir paged).1.mem.ram 0x18) 3 ≡ 0)
    × (bit ((bset_dir paged).1.mem.ram 0x18) 3 ≡ 1)
    × ((bclr_dir paged).1.regs.pc ≡ 0xc002)
    × ((bset_dir paged).1.regs.pc ≡ 0xc002)
bits_change_example = bits_change 0x18 3 paged (omega arith) (refl, refl) (refl, refl) (refl, refl)

opcode_getentry_lem_example :
    let o = (opcode_getentry 0xc000 paged).0 in
    ((c : M (Unit {0})) × (o.op_func ≡ some c)) × Selected 0x18 0x08 o
unfolding mem_getb
opcode_getentry_lem_example = opcode_getentry_lem 0xc000 paged

toc_putb_latches_example :
    let m' = (toc_putb (toc1 + 1) 0x34 (toc_putb toc1 0x12 paged).1).1 in
    (word toc1 m' ≡ 0x1234) × (m'.toc_ticks 0 ≡ 0x1200)
toc_putb_latches_example = toc_putb_latches 0x12 0x34 paged paged-IsValid.iram_bytes

spi_in_refines_example :
    let (n, m') = spi_in (0x42 ∷ 0x43 ∷ []) paged in
    (n ≡ 2) × (clocked m' ≡ 0x41 ∷ 0x42 ∷ 0x43 ∷ []) × (m' ≡ record paged { spi = m'.spi })
spi_in_refines_example = spi_in_refines (0x42 ∷ 0x43 ∷ []) paged (omega arith)

idiv_inh_lem_example :
    let m' = (idiv_inh paged).1 in
    (flag Flag.v m' ≡ false)
    × (((paged.regs.ix ≡ 0) × (m'.regs.ix ≡ 65535) × (accd m' ≡ 0) × (flag Flag.c m' ≡ true))
        ⊎ ((m'.regs.ix * 7 + accd m' ≡ 0x102)
            × (accd m' < 7)
            × (flag Flag.z m' ≡ (accd m' == 0))
            × (flag Flag.c m' ≡ false)))
idiv_inh_lem_example = idiv_inh_lem paged paged-IsValid

-- D and X hold the same number.
abbrev level : Machine
level = record paged { regs = record paged.regs { a = 0; b = 7 } }

level-IsValid : IsValid level
level-IsValid = ground arith

fdiv_inh_lem_example :
    let m' = (fdiv_inh level).1 in
    ((7 < 7) × (m' ≡ (set_flag Flag.v true level).1))
    ⊎ ((accd level ≡ 7) × (m'.regs.ix ≡ 0) × (accd m' ≡ 0) × (m'.undefined ≡ false))
    ⊎ ((7 < 7)
        × (m'.regs.ix * 7 + accd m' ≡ 7 * 65536)
        × (accd m' < 7)
        × (flag Flag.z m' ≡ (accd m' == 0))
        × (m'.undefined ≡ false))
fdiv_inh_lem_example = fdiv_inh_lem level level-IsValid
