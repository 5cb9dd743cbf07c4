-- ===== src/Opfunc/Interrupt/Bytes.antt =====
-- Pushes and pops by the address they use, and the seven bytes that an interrupt saves.
use sim68xx.Common.{ℕ, ◌+◌, ◌-◌, ◌*◌, ◌/◌, ◌^◌, ◌≤◌, ◌<◌, bit_or, u8, u16, ◌≡◌, refl, arith}
use mathlib.Core.Path.{subst}
use sim68xx.Common.Bits.{bit_or-lt}
use sim68xx.Machine.{Machine, Regs, update}
use sim68xx.Callstack.Contents.{Frames}
use sim68xx.Callstack.Unwind.{returned}
use sim68xx.Memory.{Chip}
use sim68xx.Memory.Access.{IsPlain}
use sim68xx.Opfunc.Address.{pushbyte, popbyte, popword}
use sim68xx.Opfunc.Pushed.{Now, pushbyte-Now, popbyte-Now}
use sim68xx.Opfunc.Return.{word_of_bytes}

-- Pushes and pops by the address they use.
module _ ⦃chip : Chip⦄ (t : ℕ) (ram : ℕ → ℕ) (regs : Regs) (frames : Frames) (m m' : Machine) where
  pub push_at :
      (value : ℕ)
      → regs.sp ≡ t + 1
      → t + 1 < 2 ^ 16
      → IsPlain (t + 1) m
      → Now ram regs frames m m'
      → Now (update ram (t + 1) (u8 value)) (record regs { sp = t }) frames m (pushbyte value m').1
  push_at value at small plain now =
      let below : regs.sp - 1 ≡ t = omega arith in
      let plain' : IsPlain regs.sp m = rw at plain in
      subst
        (λ u. Now (update ram u (u8 value)) (record regs { sp = t }) frames m (pushbyte value m').1)
        at
        (subst
          (λ u.
            Now (update ram regs.sp (u8 value)) (record regs { sp = u }) frames m
              (pushbyte value m').1)
          below (pushbyte-Now value ram regs frames m m' (omega arith) (omega arith) plain' now))

  pub pop_at :
      (frames' : Frames)
      → regs.sp + 1 ≡ t
      → t < 2 ^ 16
      → IsPlain t m
      → returned t frames ≡ frames'
      → Now ram regs frames m m'
      → ((popbyte m').0 ≡ u8 (ram t)) × Now ram (record regs { sp = t }) frames' m (popbyte m').1
  pop_at frames' at small plain back now =
      let plain' : IsPlain (regs.sp + 1) m = rw at plain in
      rw (← back) (
        subst
          (λ u.
            ((popbyte m').0 ≡ u8 (ram u))
            × Now ram (record regs { sp = u }) (returned u frames) m (popbyte m').1)
          at (popbyte-Now ram regs frames m m' (omega arith) plain' now))

module _ ⦃chip : Chip⦄ (t u : ℕ) (ram : ℕ → ℕ) (regs : Regs) (frames : Frames)
    (m m' : Machine) where
  pub pop_word_at :
      regs.sp + 1 ≡ t
      → t + 1 ≡ u
      → u < 2 ^ 16
      → IsPlain t m
      → IsPlain u m
      → returned t frames ≡ frames
      → returned u frames ≡ frames
      → Now ram regs frames m m'
      → ((popword m').0 ≡ bit_or (u8 (ram t) * 2 ^ 8) (u8 (ram u)))
        × Now ram (record regs { sp = u }) frames m (popword m').1
  unfolding popword
  pop_word_at at next small first second stays stays' now =
      let (v, now1) = pop_at t ram regs frames m m' frames at (omega arith) first stays now in
      let (w, now2) =
        pop_at u ram (record regs { sp = t }) frames m (popbyte m').1 frames next small second
          stays' now1 in
      (rw (v, w) refl, now2)

-- The memory after an interrupt: seven bytes of registers above `n`.
abbrev pub saved : ℕ → Regs → (ℕ → ℕ) → ℕ → ℕ
saved n r ram =
    let pc = update (update ram (n + 6 + 1) (u8 r.pc)) (n + 5 + 1) (u8 (r.pc / 2 ^ 8)) in
    let ix = update (update pc (n + 4 + 1) (u8 r.ix)) (n + 3 + 1) (u8 (r.ix / 2 ^ 8)) in
    let ab = update (update ix (n + 2 + 1) (u8 r.a)) (n + 1 + 1) (u8 r.b) in
    update ab (n + 0 + 1) (u8 (bit_or r.ccr 0xc0))

-- The saved registers, as they are read back.
module _ (n : ℕ) (r : Regs) (ram : ℕ → ℕ) where
  pub saved_a : r.a < 2 ^ 8 → u8 (u8 (saved n r ram (n + 3))) ≡ r.a
  saved_a small = ground arith

  pub saved_b : r.b < 2 ^ 8 → u8 (u8 (saved n r ram (n + 2))) ≡ r.b
  saved_b small = ground arith

  pub saved_ccr : r.ccr < 2 ^ 8 → u8 (u8 (saved n r ram (n + 1))) ≡ bit_or r.ccr 0xc0
  saved_ccr small = ground (arith, bit_or-lt 8 r.ccr 0xc0 small (omega arith))

  pub saved_ix :
      r.ix < 2 ^ 16
      → u16 (bit_or (u8 (saved n r ram (n + 4)) * 2 ^ 8) (u8 (saved n r ram (n + 5)))) ≡ r.ix
  saved_ix small = ground (arith, word_of_bytes r.ix small)

  pub saved_pc :
      r.pc < 2 ^ 16
      → u16 (bit_or (u8 (saved n r ram (n + 6)) * 2 ^ 8) (u8 (saved n r ram (n + 7)))) ≡ r.pc
  saved_pc small = ground (arith, word_of_bytes r.pc small)

  pub saved_above : (i : ℕ) → n + 7 < i → saved n r ram i ≡ ram i
  saved_above i above = ground arith

module _ ⦃chip : Chip⦄ where
  -- The `d` addresses above `n` are plain.
  abbrev pub IsRoom : ℕ → ℕ → Machine → Type 0
  IsRoom d n m = (k : ℕ) → n < k → k ≤ n + d → IsPlain k m
