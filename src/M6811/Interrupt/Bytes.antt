-- ===== src/M6811/Interrupt/Bytes.antt =====
-- The nine bytes that an interrupt of the 6811 saves.
use sim68xx.Common.{ℕ, ◌+◌, ◌*◌, ◌/◌, ◌^◌, ◌<◌, bit_or, u8, u16, ◌≡◌, arith}
use sim68xx.Machine.{Regs, update}
use sim68xx.Opfunc.Return.{word_of_bytes}

-- The memory after an interrupt: nine bytes of registers above `n`.
abbrev pub saved : ℕ → Regs → (ℕ → ℕ) → ℕ → ℕ
saved n r ram =
    let pc = update (update ram (n + 8 + 1) (u8 r.pc)) (n + 7 + 1) (u8 (r.pc / 2 ^ 8)) in
    let iy = update (update pc (n + 6 + 1) (u8 r.iy)) (n + 5 + 1) (u8 (r.iy / 2 ^ 8)) in
    let ix = update (update iy (n + 4 + 1) (u8 r.ix)) (n + 3 + 1) (u8 (r.ix / 2 ^ 8)) in
    let ab = update (update ix (n + 2 + 1) (u8 r.a)) (n + 1 + 1) (u8 r.b) in
    update ab (n + 0 + 1) (u8 r.ccr)

-- The saved registers, as they are read back.
module _ (n : ℕ) (r : Regs) (ram : ℕ → ℕ) where
  pub saved_a : r.a < 2 ^ 8 → u8 (u8 (saved n r ram (n + 3))) ≡ r.a
  saved_a small = ground arith

  pub saved_b : r.b < 2 ^ 8 → u8 (u8 (saved n r ram (n + 2))) ≡ r.b
  saved_b small = ground arith

  pub saved_ccr : r.ccr < 2 ^ 8 → u8 (u8 (saved n r ram (n + 1))) ≡ r.ccr
  saved_ccr small = ground arith

  pub saved_ix :
      r.ix < 2 ^ 16
      → u16 (bit_or (u8 (saved n r ram (n + 4)) * 2 ^ 8) (u8 (saved n r ram (n + 5)))) ≡ r.ix
  saved_ix small = ground (arith, word_of_bytes r.ix small)

  pub saved_iy :
      r.iy < 2 ^ 16
      → u16 (bit_or (u8 (saved n r ram (n + 6)) * 2 ^ 8) (u8 (saved n r ram (n + 7)))) ≡ r.iy
  saved_iy small = ground (arith, word_of_bytes r.iy small)

  pub saved_pc :
      r.pc < 2 ^ 16
      → u16 (bit_or (u8 (saved n r ram (n + 8)) * 2 ^ 8) (u8 (saved n r ram (n + 9)))) ≡ r.pc
  saved_pc small = ground (arith, word_of_bytes r.pc small)

  pub saved_above : (i : ℕ) → n + 9 < i → saved n r ram i ≡ ram i
  saved_above i above = ground arith
