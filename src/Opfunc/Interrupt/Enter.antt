-- ===== src/Opfunc/Interrupt/Enter.antt =====
-- What `int_addr` leaves behind.
use sim68xx.Common.{
  ℕ, ◌+◌, ◌/◌, ◌^◌, ◌<◌, bit_or, ltb, if◌then◌else◌, true, u8, u16, u32, ◌≡◌, refl, arith, ap, ◌∙◌,
  ◌∷◌, suc,
}
use sim68xx.Common.Lists.{length}
use sim68xx.Machine.{Machine, Regs, update}
use sim68xx.Machine.Reg.{Flag, with_flag, set_flag, on_regs, reg_setpc}
use sim68xx.Callstack.{max_callstack, callstack_push}
use sim68xx.Callstack.Contents.{Frames, contents}
use sim68xx.Memory.{Chip, mem_getw}
use sim68xx.Memory.Access.{IsPlain}
use sim68xx.Opfunc.Address.{pushbyte, pushword}
use sim68xx.Opfunc.Modify.{int_addr}
use sim68xx.Opfunc.Pushed.{Now}
use sim68xx.Opfunc.Words.{Now-on_regs, Now-callstack_push, Now-mem_getw}
use sim68xx.Opfunc.Interrupt.Bytes.{push_at, IsRoom, saved}

module _ ⦃chip : Chip⦄ where
  -- The push of a register, or of a part of one, `k` bytes above `n`.
  pub push_register :
      (get : Regs → ℕ) (d n k : ℕ) (ram : ℕ → ℕ) (r : Regs) (frames : Frames) (m m' : Machine)
      → ((s : ℕ) → get (record r { sp = s }) ≡ get r)
      → k < d
      → n + d < 2 ^ 16
      → IsRoom d n m
      → Now ram (record r { sp = n + suc k }) frames m m'
      → Now
          (update ram (n + k + 1) (u8 (get r)))
          (record r { sp = n + k })
          frames
          m
          (pushbyte (get m'.regs) m').1
  push_register get d n k ram r frames m m' keeps low small room now =
      let pushed =
        push_at (n + k) ram (record r { sp = n + suc k }) frames m m' (get m'.regs) (omega arith)
          (omega arith) (room (n + k + 1) (omega arith) (omega arith)) now in
      rw (← (ap get now.4 ∙ keeps (n + suc k))) pushed

  pub push_register_word :
      (get : Regs → ℕ) (d n k : ℕ) (ram : ℕ → ℕ) (r : Regs) (frames : Frames) (m m' : Machine)
      → ((s : ℕ) → get (record r { sp = s }) ≡ get r)
      → suc k < d
      → n + d < 2 ^ 16
      → IsRoom d n m
      → Now ram (record r { sp = n + suc (suc k) }) frames m m'
      → Now
          (update (update ram (n + suc k + 1) (u8 (get r))) (n + k + 1) (u8 (get r / 2 ^ 8)))
          (record r { sp = n + k })
          frames
          m
          (pushword (get m'.regs) m').1
  unfolding pushword
  push_register_word get d n k ram r frames m m' keeps low small room now =
      let value = get m'.regs in
      let m1 = (pushbyte value m').1 in
      let first =
        push_at (n + suc k) ram (record r { sp = n + suc (suc k) }) frames m m' value (omega arith)
          (omega arith) (room (n + suc k + 1) (omega arith) (omega arith)) now in
      let second =
        push_at (n + k) (update ram (n + suc k + 1) (u8 value)) (record r { sp = n + suc k }) frames
          m m1 (value / 2 ^ 8) (omega arith) (omega arith)
          (room (n + k + 1) (omega arith) (omega arith)) first in
      rw (← (ap get now.4 ∙ keeps (n + suc (suc k)))) second

  pub int_addr-Now :
      (n addr : ℕ) (m : Machine)
      → m.regs.sp ≡ n + 7
      → m.regs.sp < 2 ^ 16
      → IsRoom 7 n m
      → IsPlain addr m
      → IsPlain (u32 (addr + 1)) m
      → (vector : ℕ) × Now
          (saved n m.regs m.mem.ram)
          (record m.regs { sp = n + 0; pc = vector; ccr = with_flag Flag.i true m.regs.ccr })
          (if ltb (length (contents m.callstack)) max_callstack
            then (vector, n + 0) ∷ contents m.callstack
            else contents m.callstack)
          m
          (int_addr addr m).1
  unfolding int_addr reg_setpc set_flag
  int_addr-Now n addr m at small room first second =
      let r = m.regs in
      let frames = contents m.callstack in
      let ram = saved n r m.mem.ram in
      let m0 = record m { rti_pc = r.pc } in
      let now0 : Now m.mem.ram (record r { sp = n + 7 }) frames m m0 =
        (refl, refl, refl, refl, ap (λ (t : ℕ). record r { sp = t }) at, refl) in
      let fits : n + 7 < 2 ^ 16 = omega arith in
      let a1 = (pushword r.pc m0).1 in
      let ram1 = update (update m.mem.ram (n + 6 + 1) (u8 r.pc)) (n + 5 + 1) (u8 (r.pc / 2 ^ 8)) in
      let b1 : Now ram1 (record r { sp = n + 5 }) frames m a1 =
        push_register_word (λ x. x.pc) 7 n 5 m.mem.ram r frames m m0 (λ s. refl) (omega arith) fits
          room now0 in
      let a2 = (pushword a1.regs.ix a1).1 in
      let ram2 = update (update ram1 (n + 4 + 1) (u8 r.ix)) (n + 3 + 1) (u8 (r.ix / 2 ^ 8)) in
      let b2 : Now ram2 (record r { sp = n + 3 }) frames m a2 =
        push_register_word (λ x. x.ix) 7 n 3 ram1 r frames m a1 (λ s. refl) (omega arith) fits room
          b1 in
      let a3 = (pushbyte a2.regs.a a2).1 in
      let ram3 = update ram2 (n + 2 + 1) (u8 r.a) in
      let b3 : Now ram3 (record r { sp = n + 2 }) frames m a3 =
        push_register (λ x. x.a) 7 n 2 ram2 r frames m a2 (λ s. refl) (omega arith) fits room b2 in
      let a4 = (pushbyte a3.regs.b a3).1 in
      let ram4 = update ram3 (n + 1 + 1) (u8 r.b) in
      let b4 : Now ram4 (record r { sp = n + 1 }) frames m a4 =
        push_register (λ x. x.b) 7 n 1 ram3 r frames m a3 (λ s. refl) (omega arith) fits room b3 in
      let ccr = λ (x : Regs). bit_or x.ccr 0xc0 in
      let m1 = (pushbyte (ccr a4.regs) a4).1 in
      let now1 : Now ram (record r { sp = n + 0 }) frames m m1 =
        push_register ccr 7 n 0 ram4 r frames m a4 (λ s. refl) (omega arith) fits room b4 in
      let low = record r { sp = n + 0 } in
      let m2 = (mem_getw addr m1).1 in
      let now2 = Now-mem_getw ram low frames m addr m1 first second now1 in
      let vector = u16 (mem_getw addr m1).0 in
      let m3 = (on_regs (λ x. record x { pc = vector }) m2).1 in
      let now3 = Now-on_regs ram low frames m m2 (λ x. record x { pc = vector }) now2 in
      let there = record low { pc = vector } in
      let m4 = (callstack_push vector m3).1 in
      let now4 = Now-callstack_push ram there frames m m3 vector now3 in
      let frames4 =
        if ltb (length frames) max_callstack then (vector, n + 0) ∷ frames else frames in
      (
        vector,
        Now-on_regs ram there frames4 m m4 (λ x. record x { ccr = with_flag Flag.i true x.ccr })
            now4,
      )
