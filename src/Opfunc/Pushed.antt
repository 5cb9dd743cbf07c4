-- ===== src/Opfunc/Pushed.antt =====
-- The stack of the processor as a program sees it: pushes and pops on plain memory.
use sim68xx.Common.{
  ℕ, ◌+◌, ◌-◌, ◌^◌, ◌≤◌, ◌<◌, true, false, ◌==◌, ltb, u8, u16, u32, sub32, ◌≡◌, refl, arith, ap,
  ◌∙◌, [], ◌∷◌,
}
use sim68xx.Machine.{Machine, Memory, Regs, update}
use sim68xx.Invariant.{IsNested}
use sim68xx.Callstack.{reg_setsp, reg_postdecsp, reg_preincsp}
use sim68xx.Callstack.Contents.{Frames, contents}
use sim68xx.Callstack.Unwind.{returned, reg_setsp_lem}
use sim68xx.Memory.{Chip}
use sim68xx.Memory.Access.{IsPlain, mem_putb_plain, mem_getb_plain, mem_getb_keeps}
use sim68xx.Opfunc.Address.{pushbyte, popbyte}

-- What a program sees of `m'`: its bytes, its registers and its frames, in the address space of `m`.
abbrev pub Now : (ℕ → ℕ) → Regs → Frames → Machine → Machine → Type 0
Now ram regs frames m m' =
    (m'.mem.ram ≡ ram)
    × (m'.mem.ram_start ≡ m.mem.ram_start)
    × (m'.mem.ram_end ≡ m.mem.ram_end)
    × (m'.ireg_start ≡ m.ireg_start)
    × (m'.regs ≡ regs)
    × (contents m'.callstack ≡ frames)

-- The frames above a stack pointer have not returned.
pub returned-IsNested_above :
    (value lo : ℕ) (frames : Frames)
    → value ≤ lo
    → IsNested lo frames
    → returned value frames ≡ frames
returned-IsNested_above value lo [] h n = refl
returned-IsNested_above value lo ((a, s) ∷ frames) h (p, q, r) =
    let stays : ltb s value ≡ false = ground arith in rw stays refl

module _ ⦃chip : Chip⦄ where
  -- A push onto a plain address stores the byte there and lowers the stack pointer.
  pushbyte_lem :
      (value : ℕ) (m : Machine)
      → 0 < m.regs.sp
      → m.regs.sp < 2 ^ 16
      → IsPlain m.regs.sp m
      → let m' = (pushbyte value m).1 in
        (m'.mem.ram ≡ update m.mem.ram m.regs.sp (u8 value))
        × (m'.mem.ram_start ≡ m.mem.ram_start)
        × (m'.mem.ram_end ≡ m.mem.ram_end)
        × (m'.ireg_start ≡ m.ireg_start)
        × (m'.regs ≡ record m.regs { sp = m.regs.sp - 1 })
        × (contents m'.callstack ≡ contents m.callstack)
  unfolding pushbyte reg_postdecsp
  pushbyte_lem value m pos small plain =
      let sp = sub32 m.regs.sp 1 in
      let less : sp ≡ m.regs.sp - 1 = ground arith in
      let word : u16 sp ≡ m.regs.sp - 1 = ground arith in
      let stays : ltb m.regs.sp sp ≡ false = ground arith in
      let m1 = (reg_setsp sp m).1 in
      let (r, frames, state) = reg_setsp_lem sp m in
      let byte : u8 (u8 value) ≡ u8 value = omega arith in
      let mem : m1.mem ≡ m.mem = ap (λ (x : Machine). x.mem) state in
      let start : m1.ireg_start ≡ m.ireg_start = ap (λ (x : Machine). x.ireg_start) state in
      let regs : m1.regs ≡ record m.regs { sp = m.regs.sp - 1 } =
        ap (λ (x : Machine). x.regs) state ∙ ap (λ (t : ℕ). record m.regs { sp = t }) word in
      let plain1 : IsPlain m.regs.sp m1 = rw mem (rw start plain) in
      let (ram, lo, hi, st, rg, fr) = mem_putb_plain m.regs.sp (u8 value) m1 plain1 in
      (
        ram
            ∙ ap (λ (x : Memory). update x.ram m.regs.sp (u8 (u8 value))) mem
            ∙ ap (update m.mem.ram m.regs.sp) byte,
        lo ∙ ap (λ (x : Memory). x.ram_start) mem,
        hi ∙ ap (λ (x : Memory). x.ram_end) mem,
        st ∙ start,
        rg ∙ regs,
        ap contents fr ∙ (rw stays at frames),
      )

  -- A pop raises the stack pointer, takes the returned frames off the call stack, and reads the byte.
  popbyte_lem :
      (m : Machine)
      → m.regs.sp + 1 < 2 ^ 16
      → IsPlain (m.regs.sp + 1) m
      → let (value, m') = popbyte m in
        (value ≡ u8 (m.mem.ram (m.regs.sp + 1)))
        × (m'.mem.ram ≡ m.mem.ram)
        × (m'.mem.ram_start ≡ m.mem.ram_start)
        × (m'.mem.ram_end ≡ m.mem.ram_end)
        × (m'.ireg_start ≡ m.ireg_start)
        × (m'.regs ≡ record m.regs { sp = m.regs.sp + 1 })
        × (contents m'.callstack ≡ returned (m.regs.sp + 1) (contents m.callstack))
  unfolding popbyte reg_preincsp
  popbyte_lem m small plain =
      let sp = u32 (m.regs.sp + 1) in
      let wide : u32 (m.regs.sp + 1) ≡ m.regs.sp + 1 = omega arith in
      let word : u16 sp ≡ m.regs.sp + 1 = omega arith in
      let rises : ltb m.regs.sp sp ≡ true = ground arith in
      let m1 = (reg_setsp sp m).1 in
      let (r, frames, state) = reg_setsp_lem sp m in
      let at_top : (reg_setsp sp m).0 ≡ m.regs.sp + 1 = r ∙ word in
      let mem : m1.mem ≡ m.mem = ap (λ (x : Machine). x.mem) state in
      let start : m1.ireg_start ≡ m.ireg_start = ap (λ (x : Machine). x.ireg_start) state in
      let regs : m1.regs ≡ record m.regs { sp = m.regs.sp + 1 } =
        ap (λ (x : Machine). x.regs) state ∙ ap (λ (t : ℕ). record m.regs { sp = t }) word in
      let plain1 : IsPlain (m.regs.sp + 1) m1 = rw mem (rw start plain) in
      let (ram, lo, hi, st, rg, fr) = mem_getb_keeps (m.regs.sp + 1) m1 plain1 in
      rw at_top (
        mem_getb_plain (m.regs.sp + 1) m1 plain1
            ∙ ap (λ (x : Memory). u8 (x.ram (m.regs.sp + 1))) mem,
        ram ∙ ap (λ (x : Memory). x.ram) mem,
        lo ∙ ap (λ (x : Memory). x.ram_start) mem,
        hi ∙ ap (λ (x : Memory). x.ram_end) mem,
        st ∙ start,
        rg ∙ regs,
        ap contents fr
            ∙ (rw rises at frames)
            ∙ ap (λ (t : ℕ). returned t (contents m.callstack)) wide,
      )

  pub pushbyte-Now :
      (value : ℕ) (ram : ℕ → ℕ) (regs : Regs) (frames : Frames) (m m' : Machine)
      → 0 < regs.sp
      → regs.sp < 2 ^ 16
      → IsPlain regs.sp m
      → Now ram regs frames m m'
      → Now
          (update ram regs.sp (u8 value))
          (record regs { sp = regs.sp - 1 })
          frames
          m
          (pushbyte value m').1
  pushbyte-Now value ram regs frames m m' pos small plain (er, lo, hi, st, rg, fr) =
      let at_sp : m'.regs.sp ≡ regs.sp = ap (λ (r : Regs). r.sp) rg in
      let plain' : IsPlain m'.regs.sp m' = rw at_sp (rw lo (rw hi (rw st plain))) in
      let (er2, lo2, hi2, st2, rg2, fr2) =
        pushbyte_lem value m' (omega arith) (omega arith) plain' in
      (
        er2
            ∙ ap (λ (f : ℕ → ℕ). update f m'.regs.sp (u8 value)) er
            ∙ ap (λ (t : ℕ). update ram t (u8 value)) at_sp,
        lo2 ∙ lo,
        hi2 ∙ hi,
        st2 ∙ st,
        rg2 ∙ ap (λ (r : Regs). record r { sp = r.sp - 1 }) rg,
        fr2 ∙ fr,
      )

  pub popbyte-Now :
      (ram : ℕ → ℕ) (regs : Regs) (frames : Frames) (m m' : Machine)
      → regs.sp + 1 < 2 ^ 16
      → IsPlain (regs.sp + 1) m
      → Now ram regs frames m m'
      → ((popbyte m').0 ≡ u8 (ram (regs.sp + 1)))
        × Now ram
            (record regs { sp = regs.sp + 1 })
            (returned (regs.sp + 1) frames)
            m
            (popbyte m').1
  popbyte-Now ram regs frames m m' small plain (er, lo, hi, st, rg, fr) =
      let at_sp : m'.regs.sp ≡ regs.sp = ap (λ (r : Regs). r.sp) rg in
      let plain' : IsPlain (m'.regs.sp + 1) m' = rw at_sp (rw lo (rw hi (rw st plain))) in
      let (v, er2, lo2, hi2, st2, rg2, fr2) = popbyte_lem m' (omega arith) plain' in
      (
        v ∙ ap (λ (f : ℕ → ℕ). u8 (f (m'.regs.sp + 1))) er ∙ ap (λ (t : ℕ). u8 (ram (t + 1))) at_sp,
        (
          er2 ∙ er,
          lo2 ∙ lo,
          hi2 ∙ hi,
          st2 ∙ st,
          rg2 ∙ ap (λ (r : Regs). record r { sp = r.sp + 1 }) rg,
          fr2
              ∙ ap (λ (f : Frames). returned (m'.regs.sp + 1) f) fr
              ∙ ap (λ (t : ℕ). returned (t + 1) frames) at_sp,
        ),
      )

  -- A byte pushed at a plain stack pointer between 1 and 65535 pops again, and the registers,
  -- among them the stack pointer, and the frames, if nested above it, are as before.
  popbyte-pushbyte :
      (value : ℕ) (m : Machine)
      → 0 < m.regs.sp
      → m.regs.sp < 2 ^ 16
      → IsPlain m.regs.sp m
      → IsNested m.regs.sp (contents m.callstack)
      → let (r, m') = popbyte (pushbyte value m).1 in
        (r ≡ u8 value) × (m'.regs ≡ m.regs) × (contents m'.callstack ≡ contents m.callstack)
  popbyte-pushbyte value m pos small plain nested =
      let sp = m.regs.sp in
      let top : sp - 1 + 1 ≡ sp = omega arith in
      let plain' : IsPlain (sp - 1 + 1) m = rw top plain in
      let pushed =
        pushbyte-Now value m.mem.ram m.regs (contents m.callstack) m m pos small plain
          (refl, refl, refl, refl, refl, refl) in
      let (v, (er, lo, hi, st, rg, fr)) =
        popbyte-Now (update m.mem.ram sp (u8 value)) (record m.regs { sp = sp - 1 })
          (contents m.callstack) m (pushbyte value m).1 (omega arith) plain' pushed in
      let own : sp == sp - 1 + 1 ≡ true = ground arith in
      (
        v ∙ rw own (omega arith),
        rg ∙ ap (λ (t : ℕ). record m.regs { sp = t }) top,
        fr ∙ returned-IsNested_above (sp - 1 + 1) sp (contents m.callstack) (omega arith) nested,
      )
