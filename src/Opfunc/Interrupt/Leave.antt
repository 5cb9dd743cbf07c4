-- ===== src/Opfunc/Interrupt/Leave.antt =====
-- What `rti_inh` reads back.
use sim68xx.Common.{ℕ, ◌+◌, ◌*◌, ◌^◌, ◌≤◌, ◌<◌, bit_or, u8, u16, ◌≡◌, refl, arith, ◌∙◌}
use sim68xx.Machine.{Machine, Regs}
use sim68xx.Machine.Reg.{reg_setpc, reg_setccr, reg_setacca, reg_setaccb, reg_setix}
use sim68xx.Invariant.{IsNested}
use sim68xx.Callstack.Contents.{Frames}
use sim68xx.Callstack.Unwind.{returned}
use sim68xx.Memory.{Chip}
use sim68xx.Opfunc.Address.{popbyte, popword}
use sim68xx.Opfunc.Branch.{leave, rti_inh}
use sim68xx.Opfunc.Pushed.{Now, returned-IsNested_above}
use sim68xx.Opfunc.Words.{Now-on_regs}
use sim68xx.Opfunc.Interrupt.Bytes.{pop_at, pop_word_at, IsRoom}

module _ ⦃chip : Chip⦄ where
  -- A return reads the seven bytes above `n`. The first pop takes off the frame of the interrupt.
  pub rti_inh-Now :
      (n lo : ℕ) (ram : ℕ → ℕ) (regs : Regs) (frames called : Frames) (m m' : Machine)
      → regs.sp ≡ n
      → n + 7 < 2 ^ 16
      → IsRoom 7 n m
      → n + 7 ≤ lo
      → IsNested lo frames
      → returned (n + 1) called ≡ frames
      → Now ram regs called m m'
      → Now ram
          (record regs {
            a = u8 (u8 (ram (n + 3)));
            b = u8 (u8 (ram (n + 2)));
            ix = u16 (bit_or (u8 (ram (n + 4)) * 2 ^ 8) (u8 (ram (n + 5))));
            sp = n + 7;
            pc = u16 (bit_or (u8 (ram (n + 6)) * 2 ^ 8) (u8 (ram (n + 7))));
            ccr = u8 (u8 (ram (n + 1)));
          })
          frames
          m
          (rti_inh m').1
  unfolding rti_inh leave reg_setccr reg_setaccb reg_setacca reg_setix reg_setpc
  rti_inh-Now n lo ram regs frames called m m' at small room top nested back now =
      let stays = λ (k : ℕ) (h : k ≤ lo). returned-IsNested_above k lo frames h nested in
      let plain = λ (k : ℕ) (low : n < k) (high : k ≤ n + 7). room k low high in
      let (ccr, p1) =
        pop_at (n + 1) ram regs called m m' frames (omega arith) (omega arith)
          (plain (n + 1) (omega arith) (omega arith)) back now in
      let m1 = (reg_setccr (popbyte m').0 (popbyte m').1).1 in
      let r1 = record regs { sp = n + 1; ccr = u8 (popbyte m').0 } in
      let q1 : Now ram r1 frames m m1 =
        Now-on_regs ram (record regs { sp = n + 1 }) frames m (popbyte m').1
          (λ x. record x { ccr = u8 (popbyte m').0 }) p1 in
      let (b, p2) =
        pop_at (n + 2) ram r1 frames m m1 frames (omega arith) (omega arith)
          (plain (n + 2) (omega arith) (omega arith)) (stays (n + 2) (omega arith)) q1 in
      let m2 = (reg_setaccb (popbyte m1).0 (popbyte m1).1).1 in
      let r2 = record r1 { sp = n + 2; b = u8 (popbyte m1).0 } in
      let q2 : Now ram r2 frames m m2 =
        Now-on_regs ram (record r1 { sp = n + 2 }) frames m (popbyte m1).1
          (λ x. record x { b = u8 (popbyte m1).0 }) p2 in
      let (a, p3) =
        pop_at (n + 3) ram r2 frames m m2 frames (omega arith) (omega arith)
          (plain (n + 3) (omega arith) (omega arith)) (stays (n + 3) (omega arith)) q2 in
      let m3 = (reg_setacca (popbyte m2).0 (popbyte m2).1).1 in
      let r3 = record r2 { sp = n + 3; a = u8 (popbyte m2).0 } in
      let q3 : Now ram r3 frames m m3 =
        Now-on_regs ram (record r2 { sp = n + 3 }) frames m (popbyte m2).1
          (λ x. record x { a = u8 (popbyte m2).0 }) p3 in
      let (ix, p4) =
        pop_word_at (n + 4) (n + 5) ram r3 frames m m3 (omega arith) (omega arith) (omega arith)
          (plain (n + 4) (omega arith) (omega arith)) (plain (n + 5) (omega arith) (omega arith))
          (stays (n + 4) (omega arith)) (stays (n + 5) (omega arith)) q3 in
      let m4 = (reg_setix (popword m3).0 (popword m3).1).1 in
      let r4 = record r3 { sp = n + 5; ix = u16 (popword m3).0 } in
      let q4 : Now ram r4 frames m m4 =
        Now-on_regs ram (record r3 { sp = n + 5 }) frames m (popword m3).1
          (λ x. record x { ix = u16 (popword m3).0 }) p4 in
      let (pc, p5) =
        pop_word_at (n + 6) (n + 7) ram r4 frames m m4 (omega arith) (omega arith) (omega arith)
          (plain (n + 6) (omega arith) (omega arith)) (plain (n + 7) (omega arith) (omega arith))
          (stays (n + 6) (omega arith)) (stays (n + 7) (omega arith)) q4 in
      let (er, lo, hi, st, rg, fr) =
        Now-on_regs ram (record r4 { sp = n + 7 }) frames m (popword m4).1
          (λ x. record x { pc = u16 (popword m4).0 }) p5 in
      (er, lo, hi, st, rg ∙ rw (pc, ix, a, b, ccr) refl, fr)
