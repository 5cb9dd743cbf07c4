-- ===== src/Opfunc/Decimal.antt =====
-- DAA: additions of packed decimal bytes.
use Prim.Native.Nat.{min}
use sim68xx.Common.{
  ℕ, ◌+◌, ◌*◌, ◌/◌, ◌%◌, ◌<◌, bit_and, Bool, ◌≡◌, refl, arith, leb, ltb, ◌||◌, ◌&&◌, ◌==◌,
  if◌then◌else◌, Bool-cases, inl, inr,
}
use sim68xx.Common.Bits.{bit_and_halves, bit_and-pow, bit_and-mask}
use sim68xx.Machine.{Machine}
use sim68xx.Machine.Reg.{Flag, nonzero, truth, flag_of, set_flag, reg_setacca}
use sim68xx.Machine.Flags.{flag_of-with_flag, truth-nonzero}
use sim68xx.Memory.{Chip}
use sim68xx.Alu.{alu_addbyte, alu_bittestbyte}
use sim68xx.Alu.Spec.{flag}
use sim68xx.Alu.Add.{alu_addbyte_lem}
use sim68xx.Opfunc.Addition.{adjust, daa_inh}

-- The number that a packed decimal byte stands for.
abbrev pub decimal : ℕ → ℕ
decimal a = 10 * (a / 16) + a % 16

abbrev pub IsDecimal : ℕ → Type 0
IsDecimal a = (a < 160) × (a % 16 < 10)

high_digit : (x : ℕ) → bit_and x 0xf0 ≡ x / 16 % 16 * 16
high_digit x =
    let q = x / 2 / 2 / 2 / 2 in
    let s1 : bit_and x 0xf0 ≡ 2 * bit_and (x / 2) 0x78 + min (x % 2) 0 = bit_and_halves x 0xf0 in
    let s2 : bit_and (x / 2) 0x78 ≡ 2 * bit_and (x / 2 / 2) 0x3c + min (x / 2 % 2) 0 =
      bit_and_halves (x / 2) 0x78 in
    let s3 : bit_and (x / 2 / 2) 0x3c ≡ 2 * bit_and (x / 2 / 2 / 2) 0x1e + min (x / 2 / 2 % 2) 0 =
      bit_and_halves (x / 2 / 2) 0x3c in
    let s4 : bit_and (x / 2 / 2 / 2) 0x1e ≡ 2 * bit_and q 0x0f + min (x / 2 / 2 / 2 % 2) 0 =
      bit_and_halves (x / 2 / 2 / 2) 0x1e in
    let s5 : bit_and q 0x0f ≡ q % 16 = bit_and-mask 4 q in omega (arith, s1, s2, s3, s4, s5)

-- The first half of `adjust` brings the low digit below ten.
adjust_low :
    (a b c r : ℕ)
    → a % 16 < 10
    → b % 16 < 10
    → c < 2
    → r ≡ (a + b + c) % 256
    → let r1 = if leb 16 (a % 16 + b % 16 + c) then r + 0x06 else r in
      (if ltb 9 (r1 % 16) then r1 + 6 else r1) ≡ r + (if ltb 9 (a % 16 + b % 16 + c) then 6 else 0)
adjust_low a b c r ha hb hc e = ground arith

-- The low digit's adjustment carries into a high digit of 15.
abbrev pub slips : ℕ → ℕ → ℕ → Bool
slips a b c = a / 16 + b / 16 == 15 && ltb 9 (a % 16 + b % 16 + c) && ltb (a % 16 + b % 16 + c) 16

-- The second half brings the high digit below ten, or carries.
adjust_high :
    (a b c x : ℕ)
    → IsDecimal a
    → IsDecimal b
    → c < 2
    → x ≡ (a + b + c) % 256 + (if ltb 9 (a % 16 + b % 16 + c) then 6 else 0)
    → let r3 = if leb 256 (a + b + c) then x + 0x60 else x in
      let r = if ltb 0x90 (r3 / 16 % 16 * 16) then r3 + 0x60 else r3 in
      (decimal (r % 256)
          + 100 * truth (leb 256 (a + b + c) || nonzero (r / 256 % 2))
          + (if slips a b c then 60 else 0)
        ≡ decimal a + decimal b + c)
      × IsDecimal (r % 256)
adjust_high a b c x (ha, la) (hb, lb) hc e = ground arith

bit_eight : (x : ℕ) → nonzero (bit_and x 0x100) ≡ nonzero (x / 256 % 2)
bit_eight x = ground (arith, bit_and-pow 8 x)

-- `adjust` from the flags and the accumulator that an addition leaves.
adjust-sum :
    (a b c : ℕ)
    → IsDecimal a
    → IsDecimal b
    → c < 2
    → let r = adjust (leb 16 (a % 16 + b % 16 + c)) (leb 256 (a + b + c)) ((a + b + c) % 256) in
      (decimal (r % 256)
          + 100 * truth (leb 256 (a + b + c) || nonzero (bit_and r 0x100))
          + (if slips a b c then 60 else 0)
        ≡ decimal a + decimal b + c)
      × IsDecimal (r % 256)
adjust-sum a b c ha hb hc =
    let r1 = if leb 16 (a % 16 + b % 16 + c) then (a + b + c) % 256 + 0x06 else (a + b + c) % 256 in
    let low : bit_and r1 0x0f ≡ r1 % 16 = bit_and-mask 4 r1 in
    let stage = adjust_low a b c ((a + b + c) % 256) ha.1 hb.1 hc refl in
    rw low (rw stage (simp (high_digit, bit_eight) (adjust_high a b c _ ha hb hc refl)))

module _ ⦃chip : Chip⦄ where
  -- `daa_inh` from the flags that it reads.
  daa_inh_flags :
      (h c : Bool) (m : Machine)
      → flag Flag.h m ≡ h
      → flag Flag.c m ≡ c
      → let r = adjust h c m.regs.a in
        let m' = (daa_inh m).1 in
        (m'.regs.a ≡ r % 256) × (flag Flag.c m' ≡ (c || nonzero (bit_and r 0x100)))
  unfolding daa_inh reg_setacca alu_bittestbyte set_flag
  daa_inh_flags h c m eh ec =
      let r = adjust h c m.regs.a in
      rw (truth-nonzero (flag_of Flag.h m.regs.ccr)) (
        rw (truth-nonzero (flag_of Flag.c m.regs.ccr)) (
          rw eh (
            rw ec (elim (Bool-cases (nonzero (bit_and r 0x100))) [
              | inl e ↦ rw e (simp flag_of-with_flag (ground arith, ground arith))
              | inr e ↦ rw e (simp (flag_of-with_flag, ec) (ground arith, ground arith))
            ]))))

  -- Two packed decimal bytes and a carry, added by `alu_addbyte` into the accumulator and
  -- adjusted by `daa_inh`, give a packed decimal byte that, with 100 for the carry, stands for
  -- the decimal sum, or for 60 less if the high digits sum to 15 and the low digits and the
  -- carry to 10 up to 15.
  pub daa_inh_lem :
      (a b c : ℕ) (m : Machine)
      → IsDecimal a
      → IsDecimal b
      → c < 2
      → let (r, m1) = alu_addbyte a b c m in
        let m' = (daa_inh (reg_setacca r m1).1).1 in
        (decimal m'.regs.a + 100 * truth (flag Flag.c m') + (if slips a b c then 60 else 0)
          ≡ decimal a + decimal b + c)
        × IsDecimal m'.regs.a
  unfolding reg_setacca
  daa_inh_lem a b c m ha hb hc =
      let (er, cf, hf, vf, sf, kf) = alu_addbyte_lem a b c m (omega arith) (omega arith) hc in
      let m1 = (reg_setacca (alu_addbyte a b c m).0 (alu_addbyte a b c m).1).1 in
      let (ea, ec) = daa_inh_flags (leb 16 (a % 16 + b % 16 + c)) (leb 256 (a + b + c)) m1 hf cf in
      rw ea (rw ec (rw er (adjust-sum a b c ha hb hc)))
