-- ===== src/M6811/Interrupt/Enter.antt =====
-- What `int_6811` leaves behind.
use sim68xx.Common.{
  ℕ, ◌+◌, ◌/◌, ◌^◌, ◌<◌, ltb, if◌then◌else◌, true, u8, u16, u32, ◌≡◌, refl, arith, ap, ◌∷◌,
}
use sim68xx.Common.Lists.{length}
use sim68xx.Machine.{Machine, update}
use sim68xx.Machine.Reg.{Flag, with_flag, set_flag, on_regs, reg_setpc}
use sim68xx.Callstack.{max_callstack, callstack_push}
use sim68xx.Callstack.Contents.{contents}
use sim68xx.Memory.{Chip, mem_getw}
use sim68xx.Memory.Access.{IsPlain}
use sim68xx.Opfunc.Address.{pushbyte, pushword}
use sim68xx.M6811.Opfunc.Interrupt.{int_6811}
use sim68xx.Opfunc.Pushed.{Now}
use sim68xx.Opfunc.Words.{Now-on_regs, Now-callstack_push, Now-mem_getw}
use sim68xx.Opfunc.Interrupt.Bytes.{IsRoom}
use sim68xx.Opfunc.Interrupt.Enter.{push_register, push_register_word}
use sim68xx.M6811.Interrupt.Bytes.{saved}

module _ ⦃chip : Chip⦄ where
  pub int_6811-Now :
      (n addr : ℕ) (m : Machine)
      → m.regs.sp ≡ n + 9
      → m.regs.sp < 2 ^ 16
      → IsRoom 9 n m
      → IsPlain addr m
      → IsPlain (u32 (addr + 1)) m
      → (vector : ℕ) × Now
          (saved n m.regs m.mem.ram)
          (record m.regs { sp = n + 0; pc = vector; ccr = with_flag Flag.i true m.regs.ccr })
          (if ltb (length (contents m.callstack)) max_callstack
            then (vector, n + 0) ∷ contents m.callstack
            else contents m.callstack)
          m
          (int_6811 addr m).1
  unfolding int_6811 reg_setpc set_flag
  int_6811-Now n addr m at small room first second =
      let r = m.regs in
      let frames = contents m.callstack in
      let ram = saved n r m.mem.ram in
      let now0 : Now m.mem.ram (record r { sp = n + 9 }) frames m m =
        (refl, refl, refl, refl, ap (λ (t : ℕ). record r { sp = t }) at, refl) in
      let fits : n + 9 < 2 ^ 16 = omega arith in
      let a1 = (pushword r.pc m).1 in
      let ram1 = update (update m.mem.ram (n + 8 + 1) (u8 r.pc)) (n + 7 + 1) (u8 (r.pc / 2 ^ 8)) in
      let b1 : Now ram1 (record r { sp = n + 7 }) frames m a1 =
        push_register_word (λ x. x.pc) 9 n 7 m.mem.ram r frames m m (λ s. refl) (omega arith) fits
          room now0 in
      let a2 = (pushword a1.regs.iy a1).1 in
      let ram2 = update (update ram1 (n + 6 + 1) (u8 r.iy)) (n + 5 + 1) (u8 (r.iy / 2 ^ 8)) in
      let b2 : Now ram2 (record r { sp = n + 5 }) frames m a2 =
        push_register_word (λ x. x.iy) 9 n 5 ram1 r frames m a1 (λ s. refl) (omega arith) fits room
          b1 in
      let a3 = (pushword a2.regs.ix a2).1 in
      let ram3 = update (update ram2 (n + 4 + 1) (u8 r.ix)) (n + 3 + 1) (u8 (r.ix / 2 ^ 8)) in
      let b3 : Now ram3 (record r { sp = n + 3 }) frames m a3 =
        push_register_word (λ x. x.ix) 9 n 3 ram2 r frames m a2 (λ s. refl) (omega arith) fits room
          b2 in
      let a4 = (pushbyte a3.regs.a a3).1 in
      let ram4 = update ram3 (n + 2 + 1) (u8 r.a) in
      let b4 : Now ram4 (record r { sp = n + 2 }) frames m a4 =
        push_register (λ x. x.a) 9 n 2 ram3 r frames m a3 (λ s. refl) (omega arith) fits room b3 in
      let a5 = (pushbyte a4.regs.b a4).1 in
      let ram5 = update ram4 (n + 1 + 1) (u8 r.b) in
      let b5 : Now ram5 (record r { sp = n + 1 }) frames m a5 =
        push_register (λ x. x.b) 9 n 1 ram4 r frames m a4 (λ s. refl) (omega arith) fits room b4 in
      let m1 = (pushbyte a5.regs.ccr a5).1 in
      let now1 : Now ram (record r { sp = n + 0 }) frames m m1 =
        push_register (λ x. x.ccr) 9 n 0 ram5 r frames m a5 (λ s. refl) (omega arith) fits room
          b5 in
      let low = record r { sp = n + 0 } in
      let m2 = (mem_getw addr m1).1 in
      let now2 = Now-mem_getw ram low frames m addr m1 first second now1 in
      let vector = u16 (mem_getw addr m1).0 in
      let m3 = (on_regs (λ x. record x { pc = vector }) m2).1 in
      let now3 = Now-on_regs ram low frames m m2 (λ x. record x { pc = vector }) now2 in
      let there = record low { pc = vector } in
      let m4 = (callstack_push vector m3).1 in
      let now4 = Now-callstack_push ram there frames m m3 vector now3 in
      let frames4 =
        if ltb (length frames) max_callstack then (vector, n + 0) ∷ frames else frames in
      (
        vector,
        Now-on_regs ram there frames4 m m4 (λ x. record x { ccr = with_flag Flag.i true x.ccr })
            now4,
      )
