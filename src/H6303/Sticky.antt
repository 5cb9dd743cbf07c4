-- ===== src/H6303/Sticky.antt =====
-- TCSR2 under the stores of a program, through the table of ireg.c.
use sim68xx.Common.{
  ℕ, bit_and, Bool, true, false, ◌&&◌, ◌==◌, leb, u8, sub32, ◌≡◌, refl, arith, ap, ◌∙◌, Bool-cases,
  inl, inr, Option, none, some, ◌∷◌,
}
use mathlib.Core.Path.{subst}
use sim68xx.Machine.{Machine, M, update, when, report, put}
use sim68xx.Machine.Reg.{nonzero}
use sim68xx.Memory.{check_break, is_ireg, ireg_putb, ram_putb, call_putb, mem_putb}
use sim68xx.Invariant.Memory.{Holds, missing, present, if-Holds}
use sim68xx.H6303.Registers.{tcsr2, trcsr, tdr, tie}
use sim68xx.H6303.Timer.{tcsr1_putb, tcsr2_putb, ocr1_putb, t2cnt_putb}
use sim68xx.H6303.Sci.{trcsr_putb, tdr_putb, set_txinterrupts, trcsr_getb}
use sim68xx.H6303.Fifo.{trcsr_getb_lem}
use sim68xx.H6303.Ireg.{port_putb, putb_func, h6303}

-- A handler that leaves TCSR2 as it is.
abbrev Spares : ℕ → (ℕ → ℕ → M (Unit {0})) → Type 0
Spares offs handler = (value : ℕ) (m : Machine) → (handler offs value m).1.iram tcsr2 ≡ m.iram tcsr2

trcsr_getb-same : (offs : ℕ) (m : Machine) → (trcsr_getb offs m).1 ≡ m
trcsr_getb-same offs m = (trcsr_getb_lem offs m).2

when-Spares : (b : Bool) (m : Machine) → (when b (set_txinterrupts 1) m).1.iram tcsr2 ≡ m.iram tcsr2
when-Spares true m = refl
when-Spares false m = refl

module _ (offs : ℕ) (other : (offs == tcsr2) ≡ false) where
  putb-Spares : Spares offs ireg_putb
  unfolding ireg_putb
  putb-Spares value m = simp other refl

  port_putb-Spares : Spares offs port_putb
  unfolding port_putb ireg_putb
  port_putb-Spares value m = simp other refl

  ocr1_putb-Spares : Spares offs ocr1_putb
  unfolding ocr1_putb ireg_putb
  ocr1_putb-Spares value m = elim (Bool-cases m.timer.tcsr_is_read) [
    | inl e ↦ simp (e, other) refl
    | inr e ↦ simp (e, other) refl
  ]

  tcsr1_putb-Spares : Spares offs tcsr1_putb
  unfolding tcsr1_putb ireg_putb
  tcsr1_putb-Spares value m = refl

  tcsr2_putb-Spares : Spares offs tcsr2_putb
  unfolding tcsr2_putb ireg_putb
  tcsr2_putb-Spares value m = refl

  t2cnt_putb-Spares : Spares offs t2cnt_putb
  unfolding t2cnt_putb ireg_putb
  t2cnt_putb-Spares value m = refl

  trcsr_putb-Spares : Spares offs trcsr_putb
  unfolding trcsr_putb ireg_putb
  trcsr_putb-Spares value m =
      ap (λ (x : Machine). x.iram tcsr2)
        (trcsr_getb-same trcsr (record m { iram = update m.iram trcsr (u8 value) }))

  tdr_putb-Spares : Spares offs tdr_putb
  unfolding tdr_putb ireg_putb report
  tdr_putb-Spares value m = simp trcsr_getb-same (
      when-Spares
        (nonzero (
          bit_and
            (u8
              (trcsr_getb trcsr (record m {
                iram = update m.iram tdr (u8 value);
                messages = put value ∷ m.messages;
              })).0)
            tie))
        (record m { iram = update m.iram tdr (u8 value); messages = put value ∷ m.messages }))

  putb_func-Spares : Holds (Spares offs) (putb_func offs)
  unfolding putb_func
  putb_func-Spares = if-Holds _ (present port_putb port_putb-Spares) (
      if-Holds _ (present tcsr1_putb tcsr1_putb-Spares) (
        if-Holds _ (present ocr1_putb ocr1_putb-Spares) (
          if-Holds _ (present tcsr2_putb tcsr2_putb-Spares) (
            if-Holds _ (present trcsr_putb trcsr_putb-Spares) (
              if-Holds _ (present tdr_putb tdr_putb-Spares)
                (if-Holds _ (present t2cnt_putb t2cnt_putb-Spares) missing))))))

  call_putb-Spares :
      (f : Option (ℕ → ℕ → M (Unit {0}))) → Holds (Spares offs) f → Spares offs (call_putb f)
  unfolding call_putb
  call_putb-Spares none missing = putb-Spares
  call_putb-Spares (some _) (present handler h) = h

-- The entry for TCSR2 itself writes another register.
dispatch-Spares : (offs : ℕ) → Spares offs (call_putb (putb_func offs))
unfolding call_putb putb_func tcsr2_putb ireg_putb
dispatch-Spares offs value m = elim (Bool-cases (offs == tcsr2)) [
  | inl e ↦
      let here : tcsr2 ≡ offs = ground arith in
      subst (λ x. (call_putb (putb_func x) x value m).1.iram tcsr2 ≡ m.iram tcsr2) here refl
  | inr e ↦ call_putb-Spares offs e (putb_func offs) (putb_func-Spares offs e) value m
]

check_break-iram : (addr : ℕ) (m : Machine) → (check_break addr m).1.iram tcsr2 ≡ m.iram tcsr2
unfolding check_break
check_break-iram addr m = elim (Bool-cases (nonzero (m.mem.breaks addr))) [
  | inl e ↦ rw e refl
  | inr e ↦ rw e refl
]

ram_putb-iram : (addr value : ℕ) (m : Machine) → (ram_putb addr value m).1.iram tcsr2 ≡ m.iram tcsr2
unfolding ram_putb report
ram_putb-iram addr value m =
    elim (Bool-cases (leb m.mem.ram_start addr && leb addr m.mem.ram_end)) [
      | inl e ↦ rw e refl
      | inr e ↦ rw e refl
    ]

-- No store by `mem_putb` changes TCSR2, whatever the address and the value: it can neither clear
-- OCF2 nor enable its interrupt.
pub mem_putb-tcsr2 :
    (addr value : ℕ) (m : Machine) → (mem_putb addr value m).1.iram tcsr2 ≡ m.iram tcsr2
unfolding mem_putb
mem_putb-tcsr2 addr value m =
    let offs = sub32 addr m.ireg_start in
    let m1 = (check_break addr m).1 in
    elim (Bool-cases (is_ireg offs)) [
      | inl e ↦ rw e (dispatch-Spares offs (u8 value) m1 ∙ check_break-iram addr m)
      | inr e ↦ rw e (ram_putb-iram addr (u8 value) m1 ∙ check_break-iram addr m)
    ]
