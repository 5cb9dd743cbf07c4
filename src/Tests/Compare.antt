-- ===== src/Tests/Compare.antt =====
-- The theorems on the HD6301 and the 6800 applied to concrete machines.
use sim68xx.Common.{◌+◌, true, false, ◌==◌, if◌then◌else◌, ◌≡◌, ◌⊎◌, [], ◌∷◌, arith}
use sim68xx.Machine.{Machine}
use sim68xx.Invariant.{IsValid}
use sim68xx.H6303.Run.{initial}
use sim68xx.H6303.Clock.{word}
use sim68xx.H6301.Registers.{frc, ocr, tcsr}
use sim68xx.H6301.Timer.{timer_inc, tcsr_getb, ocr_putb}
use sim68xx.H6301.Clock.{raised, timer_inc_compares, ocr_putb-tcsr_getb}
use sim68xx.H6301.Instr.{instr_exec, reset}
use sim68xx.H6301.Safety.{h6301_steps-IsValid}
use sim68xx.H6301
use sim68xx.M6800
use sim68xx.M6800.Ireg.{m6800}
use sim68xx.M6800.Sci.{sci_in}
use sim68xx.M6800.Agree.{lookup_opcode-subset}
use sim68xx.M6800.Safety.{m6800_steps-IsValid}
use sim68xx.Opfunc.Branch.{trap}

-- A `nop` is next, with the flags clear; the counter is at 0x0102, five cycles short of the compare.
abbrev due : Machine
due = record initial {
  regs = record initial.regs { pc = 0xc000; sp = 0x1ff; ccr = 0 };
  cpu = record initial.cpu { running = true; stack_max = 0xffff };
  mem = record initial.mem { ram = λ i. 1 };
  iram = λ i.
      if i == 0x09
      then 1
      else if i == 0x0a
      then 2
      else if i == 0x0b
      then 1
      else if i == 0x0c
      then 7
      else 0;
}

due-IsValid : IsValid due
due-IsValid = ground arith

-- The same with the flag raised, and the status not read.
abbrev raised_due : Machine
raised_due = record due { iram = λ i. if i == 0x08 then 0x48 else due.iram i }

raised_due-IsValid : IsValid raised_due
raised_due-IsValid = ground arith

h6301_steps-IsValid_example : IsValid (reset due).1 × IsValid (instr_exec due).1
h6301_steps-IsValid_example = h6301_steps-IsValid due due-IsValid

timer_inc_compares_example :
    let m' = (timer_inc 6 due).1 in
    (word frc m' ≡ 0x108) × (raised m' ≡ true) × (m'.timer.tcsr_is_read ≡ false)
timer_inc_compares_example = timer_inc_compares 6 due (omega arith) due-IsValid.iram_bytes

ocr_putb-tcsr_getb_example :
    let m' = (ocr_putb (ocr + 1) 0x20 (tcsr_getb tcsr raised_due).1).1 in
    (raised m' ≡ false)
    × (m'.iram (ocr + 1) ≡ 0x20)
    × (raised (ocr_putb (ocr + 1) 0x20 raised_due).1 ≡ true)
ocr_putb-tcsr_getb_example =
    ocr_putb-tcsr_getb 1 0x20 raised_due (omega arith) raised_due-IsValid.iram_bytes

lookup_opcode-subset_example :
    let o = M6800.Optab.lookup_opcode 0xe7 in
    let p = H6301.Optab.lookup_opcode 0xe7 in
    (o.op_value ≡ p.op_value)
    × ((o.op_func ≡ trap)
        ⊎ ((o.op_func ≡ p.op_func)
            × (o.op_n_operands ≡ p.op_n_operands)
            × (o.op_n_cycles ≡ (if o.op_value == 0xe7 then 0 else p.op_n_cycles))))
lookup_opcode-subset_example = lookup_opcode-subset 0xe7

m6800_steps-IsValid_example :
    IsValid (M6800.Instr.reset due).1
    × IsValid (M6800.Instr.instr_exec due).1
    × IsValid (sci_in (0x41 ∷ []) due).1
m6800_steps-IsValid_example = m6800_steps-IsValid (0x41 ∷ []) due due-IsValid
