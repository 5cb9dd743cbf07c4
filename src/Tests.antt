-- ===== src/Tests.antt =====
-- The theorems applied to concrete machines.
pub mod Subroutine
pub mod Loading
pub mod Symbols
pub mod Bus
pub mod Compare
pub mod Pages
use sim68xx.H6303.Ireg.{h6303}
use sim68xx.Common.{
  ℕ, ◌+◌, ◌*◌, ◌-◌, ◌%◌, bit_and, true, false, ◌==◌, if◌then◌else◌, ◌≡◌, refl, arith, [], ◌∷◌,
}
use sim68xx.Machine.{Machine}
use sim68xx.Machine.Reg.{Flag, nonzero, truth, reg_setacca}
use sim68xx.Alu.{alu_addbyte, alu_subbyte}
use sim68xx.Alu.Spec.{flag, Signs8, KeepsAllButCcr}
use sim68xx.Alu.Add.{alu_addbyte_lem}
use sim68xx.Alu.Sub.{alu_subbyte_lem}
use sim68xx.Callstack.{reg_setsp}
use sim68xx.Callstack.Contents.{contents}
use sim68xx.Callstack.Unwind.{reg_setsp_lem}
use sim68xx.Memory.{mem_getw, mem_putb, mem_putw}
use sim68xx.Memory.Access.{mem_getw-mem_putw}
use sim68xx.H6301
use sim68xx.H6303
use sim68xx.H6301.Agree.{lookup_opcode-agree}
use sim68xx.Opfunc.Addition.{daa_inh}
use sim68xx.Opfunc.Branch.{
  bcc_rel, bcs_rel, beq_rel, bge_rel, bgt_rel, bhi_rel, ble_rel, bls_rel, blt_rel, bne_rel,
}
use sim68xx.Opfunc.Decide.{Goes, branches_compare}
use sim68xx.Opfunc.Decimal.{decimal, IsDecimal, daa_inh_lem}
use sim68xx.Invariant.{IsValid}
use sim68xx.H6303.Registers.{frc, tcsr1, tcsr2, ocf1, ocf2, rdr}
use sim68xx.H6303.Sci.{sci_in, rdr_getb}
use sim68xx.H6303.Timer.{timer_inc}
use sim68xx.H6303.Fifo.{pending, sci_in_refines, rdr_getb_refines}
use sim68xx.H6303.Clock.{word, timer_inc_lem}
use sim68xx.H6303.Sticky.{mem_putb-tcsr2}
use sim68xx.H6303.Instr.{instr_exec}
use sim68xx.H6303.Run.{initial, here, next, executed, received}
use sim68xx.H6303.Safety.{instr_exec-IsValid}
use sim68xx.H6303.Reach.{initial_reaches-IsValid}

-- `8d 05` at c000: a `bsr`.
abbrev program : ℕ → ℕ
program i = if i == 0xc000 then 0x8d else if i == 0xc001 then 0x05 else 0xff

-- Running, with the stack at 0x1ff, one subroutine on the call stack, two bytes received, the flags
-- clear, and the output compare of timer 1 five cycles ahead of the counter.
abbrev pub busy : Machine
busy = record initial {
  regs = record { a = 0x99; b = 0x61; ix = 0; iy = 0; sp = 0x1ff; pc = 0xc000; ccr = 0 };
  cpu = record initial.cpu { running = true; stack_max = 0xffff };
  mem = record initial.mem { ram = program };
  callstack = record { sp = 1; entry_point = λ i. 0xd000; stack_on_entry = λ i. 0x210 };
  iram = λ i. if i == 0x0c then 5 else 0;
  sci = record { recvbuf = λ i. 0x41 + i % 2; rxindex = 1; rxinterrupts = 2; txinterrupts = 0 };
}

pub busy-IsValid : IsValid busy
busy-IsValid = ground arith

instr_exec-IsValid_example : IsValid (instr_exec busy).1
instr_exec-IsValid_example = instr_exec-IsValid busy busy-IsValid

initial_reaches-IsValid_example : IsValid (instr_exec (sci_in (0x41 ∷ []) initial).1).1
initial_reaches-IsValid_example =
    initial_reaches-IsValid (instr_exec (sci_in (0x41 ∷ []) initial).1).1
      (next (next here (received (0x41 ∷ []))) executed)

alu_addbyte_lem_example :
    let (r, m') = alu_addbyte 0x7f 1 0 busy in
    (r ≡ 0x80)
    × (flag Flag.c m' ≡ false)
    × (flag Flag.h m' ≡ true)
    × (flag Flag.v m' ≡ true)
    × Signs8 0x80 m'
    × KeepsAllButCcr busy m'
alu_addbyte_lem_example = alu_addbyte_lem 0x7f 1 0 busy (omega arith) (omega arith) (omega arith)

alu_subbyte_lem_example :
    let (r, m') = alu_subbyte 0x80 1 0 busy in
    (r % 256 ≡ 0x7f)
    × (flag Flag.c m' ≡ false)
    × (flag Flag.h m' ≡ flag Flag.h busy)
    × (flag Flag.v m' ≡ true)
    × Signs8 (0x80 + 512 - 1 - 0) m'
    × KeepsAllButCcr busy m'
alu_subbyte_lem_example = alu_subbyte_lem 0x80 1 0 busy (omega arith) (omega arith) (omega arith)

branches_compare_example :
    let m' = (alu_subbyte 0x80 1 0 busy).1 in
    Goes false beq_rel m'
    × Goes true bne_rel m'
    × Goes false bcs_rel m'
    × Goes true bcc_rel m'
    × Goes true bhi_rel m'
    × Goes false bls_rel m'
    × Goes false bge_rel m'
    × Goes true blt_rel m'
    × Goes false bgt_rel m'
    × Goes true ble_rel m'
branches_compare_example = branches_compare 0x80 1 busy (omega arith) (omega arith) (refl, refl)

-- 99 + 61 comes out as 100, 60 too small.
daa_inh_lem_example :
    let (r, m1) = alu_addbyte 0x99 0x61 0 busy in
    let m' = (daa_inh (reg_setacca r m1).1).1 in
    (decimal m'.regs.a + 100 * truth (flag Flag.c m') + 60 ≡ 160) × IsDecimal m'.regs.a
daa_inh_lem_example =
    daa_inh_lem 0x99 0x61 0 busy (omega arith, omega arith) (omega arith, omega arith) (omega arith)

reg_setsp_lem_example :
    let (r, m') = reg_setsp 0x211 busy in
    (r ≡ 0x211)
    × (contents m'.callstack ≡ [])
    × (m' ≡ record busy {
      regs = record busy.regs { sp = 0x211 };
      callstack = m'.callstack;
      messages = m'.messages;
    })
reg_setsp_lem_example = reg_setsp_lem 0x211 busy

sci_in_refines_example :
    let (n, m') = sci_in (0x143 ∷ []) busy in
    (n ≡ 1) × (pending m' ≡ 0x42 ∷ 0x41 ∷ 0x43 ∷ []) × (m' ≡ record busy { sci = m'.sci })
sci_in_refines_example = sci_in_refines (0x143 ∷ []) busy

rdr_getb_refines_example : let (r, m') = rdr_getb rdr busy in (r ≡ 0x42) × (pending m' ≡ 0x41 ∷ [])
rdr_getb_refines_example = rdr_getb_refines rdr busy refl

timer_inc_lem_example :
    let m' = (timer_inc 6 busy).1 in
    (word frc m' ≡ 6)
    × (nonzero (bit_and (m'.iram tcsr1) ocf1) ≡ true)
    × (nonzero (bit_and (m'.iram tcsr2) ocf2) ≡ false)
timer_inc_lem_example = timer_inc_lem 6 busy (omega arith) busy-IsValid.iram_bytes

mem_putb-tcsr2_example : (mem_putb 0x0f 0xff busy).1.iram tcsr2 ≡ 0
mem_putb-tcsr2_example = mem_putb-tcsr2 0x0f 0xff busy

mem_getw-mem_putw_example : (mem_getw 0x1fe (mem_putw 0x1fe 0xc002 busy).1).0 ≡ 0xc002
mem_getw-mem_putw_example =
    mem_getw-mem_putw 0x1fe 0xc002 busy (omega arith) (refl, refl) (refl, refl)

lookup_opcode-agree_example :
    let o = H6301.Optab.lookup_opcode 0x61 in
    let p = H6303.Optab.lookup_opcode 0x61 in
    (o.op_value ≡ p.op_value) × (o.op_func ≡ p.op_func) × (o.op_n_cycles ≡ p.op_n_cycles)
lookup_opcode-agree_example = lookup_opcode-agree 0x61
