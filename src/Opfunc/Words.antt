-- ===== src/Opfunc/Words.antt =====
-- The view of the stack of `Opfunc/Pushed` through the pushes and pops of words, the registers, the
-- call stack and the reads of a vector.
use sim68xx.Common.{
  ℕ, ◌+◌, ◌-◌, ◌*◌, ◌/◌, ◌^◌, ◌<◌, bit_or, ltb, if◌then◌else◌, u8, u16, u32, ◌≡◌, refl, arith, ap,
  ◌∙◌, ◌∷◌, Bool-cases, inl, inr,
}
use sim68xx.Common.Lists.{length}
use sim68xx.Machine.{Machine, Regs, update}
use sim68xx.Machine.Reg.{on_regs, reg_postincpc}
use sim68xx.Callstack.{callstack_push, max_callstack}
use sim68xx.Callstack.Contents.{Frames, contents, callstack_push_refines}
use sim68xx.Callstack.Unwind.{returned}
use sim68xx.Memory.{Chip, mem_getb, mem_getw}
use sim68xx.Memory.Access.{IsPlain, mem_getb_keeps, mem_getb_plain}
use sim68xx.Opfunc.Address.{getbyte_imm, pushword, popword}
use sim68xx.Opfunc.Pushed.{Now, pushbyte-Now, popbyte-Now}

module _ (ram : ℕ → ℕ) (regs : Regs) (frames : Frames) (m m' : Machine) where
  pub Now-on_regs :
      (f : Regs → Regs) → Now ram regs frames m m' → Now ram (f regs) frames m (on_regs f m').1
  Now-on_regs f (er, lo, hi, st, rg, fr) = (er, lo, hi, st, ap f rg, fr)

  pub Now-callstack_push :
      (addr : ℕ)
      → Now ram regs frames m m'
      → Now ram regs
          (if ltb (length frames) max_callstack then (addr, regs.sp) ∷ frames else frames)
          m
          (callstack_push addr m').1
  unfolding callstack_push
  Now-callstack_push addr (er, lo, hi, st, rg, fr) =
      let pushed : contents (callstack_push addr m').1.callstack
          ≡ (if ltb (length frames) max_callstack then (addr, regs.sp) ∷ frames else frames) =
        callstack_push_refines addr m'
        ∙ ap
            (λ (x : Regs).
              if ltb (length (contents m'.callstack)) max_callstack
              then (addr, x.sp) ∷ contents m'.callstack
              else contents m'.callstack)
            rg
        ∙ ap (λ (x : Frames). if ltb (length x) max_callstack then (addr, regs.sp) ∷ x else x) fr in
      elim (Bool-cases (ltb m'.callstack.sp max_callstack)) [
        | inl e ↦ (rw e er, rw e lo, rw e hi, rw e st, rw e rg, pushed)
        | inr e ↦ (rw e er, rw e lo, rw e hi, rw e st, rw e rg, pushed)
      ]

module _ ⦃chip : Chip⦄ (ram : ℕ → ℕ) (regs : Regs) (frames : Frames) (m m' : Machine) where
  pub Now-pushword :
      (value : ℕ)
      → 1 < regs.sp
      → regs.sp < 2 ^ 16
      → IsPlain regs.sp m
      → IsPlain (regs.sp - 1) m
      → Now ram regs frames m m'
      → Now
          (update (update ram regs.sp (u8 value)) (regs.sp - 1) (u8 (value / 2 ^ 8)))
          (record regs { sp = regs.sp - 1 - 1 })
          frames
          m
          (pushword value m').1
  unfolding pushword
  Now-pushword value pos small first second now =
      pushbyte-Now (value / 2 ^ 8) (update ram regs.sp (u8 value))
        (record regs { sp = regs.sp - 1 }) frames m _ (omega arith) (omega arith) second
        (pushbyte-Now value ram regs frames m m' (omega arith) small first now)

  pub Now-popword :
      regs.sp + 2 < 2 ^ 16
      → IsPlain (regs.sp + 1) m
      → IsPlain (regs.sp + 1 + 1) m
      → Now ram regs frames m m'
      → ((popword m').0 ≡ bit_or (u8 (ram (regs.sp + 1)) * 2 ^ 8) (u8 (ram (regs.sp + 1 + 1))))
        × Now ram
            (record regs { sp = regs.sp + 1 + 1 })
            (returned (regs.sp + 1 + 1) (returned (regs.sp + 1) frames))
            m
            (popword m').1
  unfolding popword
  Now-popword small first second now =
      let (v, now1) = popbyte-Now ram regs frames m m' (omega arith) first now in
      let (w, now2) =
        popbyte-Now ram (record regs { sp = regs.sp + 1 }) (returned (regs.sp + 1) frames) m _
          (omega arith) second now1 in
      (rw (v, w) refl, now2)

module _ ⦃chip : Chip⦄ (ram : ℕ → ℕ) (regs : Regs) (frames : Frames) (m : Machine) where
  pub Now-mem_getb :
      (addr : ℕ) (m' : Machine)
      → IsPlain addr m
      → Now ram regs frames m m'
      → Now ram regs frames m (mem_getb addr m').1
  Now-mem_getb addr m' plain (er, lo, hi, st, rg, fr) =
      let plain' : IsPlain addr m' = rw lo (rw hi (rw st plain)) in
      let (er2, lo2, hi2, st2, rg2, fr2) = mem_getb_keeps addr m' plain' in
      (er2 ∙ er, lo2 ∙ lo, hi2 ∙ hi, st2 ∙ st, rg2 ∙ rg, ap contents fr2 ∙ fr)

  -- Reading a word keeps the view too; what it reads does not matter here.
  pub Now-mem_getw :
      (addr : ℕ) (m' : Machine)
      → IsPlain addr m
      → IsPlain (u32 (addr + 1)) m
      → Now ram regs frames m m'
      → Now ram regs frames m (mem_getw addr m').1
  unfolding mem_getw
  Now-mem_getw addr m' first second now =
      Now-mem_getb (u32 (addr + 1)) (mem_getb addr m').1 second (Now-mem_getb addr m' first now)

module _ ⦃chip : Chip⦄ where
  -- An operand byte is read at the program counter, which steps over it.
  pub getbyte_imm-Now :
      (ram : ℕ → ℕ) (regs : Regs) (frames : Frames) (m m' : Machine)
      → IsPlain regs.pc m
      → Now ram regs frames m m'
      → ((getbyte_imm m').0 ≡ u8 (ram regs.pc))
        × Now ram (record regs { pc = u16 (regs.pc + 1) }) frames m (getbyte_imm m').1
  unfolding getbyte_imm reg_postincpc
  getbyte_imm-Now ram regs frames m m' plain (er, lo, hi, st, rg, fr) =
      let at_pc : m'.regs.pc ≡ regs.pc = ap (λ (r : Regs). r.pc) rg in
      let m1 = (reg_postincpc 1 m').1 in
      let plain' : IsPlain m'.regs.pc m1 = rw at_pc (rw lo (rw hi (rw st plain))) in
      (
        mem_getb_plain m'.regs.pc m1 plain'
            ∙ ap (λ (f : ℕ → ℕ). u8 (f m'.regs.pc)) er
            ∙ ap (λ (t : ℕ). u8 (ram t)) at_pc,
        Now-mem_getb ram (record regs { pc = u16 (regs.pc + 1) }) frames m m'.regs.pc m1
            (rw at_pc plain)
            (er, lo, hi, st, ap (λ (r : Regs). record r { pc = u16 (r.pc + 1) }) rg, fr),
      )
