-- ===== src/Memory/Access.antt =====
-- Reads after writes of plain memory: addresses within the RAM and outside the internal registers.
use sim68xx.Common.{
  ℕ, ◌+◌, ◌/◌, ◌^◌, ◌<◌, bit_and, true, false, ◌&&◌, ◌==◌, leb, if◌then◌else◌, u8, u32, sub32, ◌≡◌,
  refl, arith, ap, ◌∙◌, Bool-cases, inl, inr,
}
use sim68xx.Common.Bits.{bit_or-fields, bit_and-mask}
use sim68xx.Machine.{Machine, update}
use sim68xx.Machine.Reg.{nonzero}
use sim68xx.Memory.{
  Chip, check_break, is_ireg, ram_getb, ram_putb, mem_getb, mem_getw, mem_putb, mem_putw,
}

-- The bytes of `m'` are `ram`, and its address space is that of `m`.
abbrev pub Holding : (ℕ → ℕ) → Machine → Machine → Type 0
Holding ram m m' =
    (m'.mem.ram ≡ ram)
    × (m'.mem.ram_start ≡ m.mem.ram_start)
    × (m'.mem.ram_end ≡ m.mem.ram_end)
    × (m'.ireg_start ≡ m.ireg_start)
    × (m'.regs ≡ m.regs)
    × (m'.callstack ≡ m.callstack)

check_break_keeps : (addr : ℕ) (m : Machine) → Holding m.mem.ram m (check_break addr m).1
unfolding check_break
check_break_keeps addr m = elim (Bool-cases (nonzero (m.mem.breaks addr))) [
  | inl e ↦ rw e (refl, refl, refl, refl, refl, refl)
  | inr e ↦ rw e (refl, refl, refl, refl, refl, refl)
]

module _ ⦃chip : Chip⦄ where
  abbrev pub IsPlain : ℕ → Machine → Type 0
  IsPlain addr m =
      ((leb m.mem.ram_start addr && leb addr m.mem.ram_end) ≡ true)
      × (is_ireg (sub32 addr m.ireg_start) ≡ false)

  pub mem_getb_plain :
      (addr : ℕ) (m : Machine) → IsPlain addr m → (mem_getb addr m).0 ≡ u8 (m.mem.ram addr)
  unfolding mem_getb ram_getb
  mem_getb_plain addr m (inside, other) =
      let (ram, lo, hi, start, regs, frames) = check_break_keeps addr m in
      rw other (rw ram (rw lo (rw hi (rw inside refl))))

  pub mem_getb_keeps :
      (addr : ℕ) (m : Machine) → IsPlain addr m → Holding m.mem.ram m (mem_getb addr m).1
  unfolding mem_getb ram_getb
  mem_getb_keeps addr m (inside, other) =
      let (ram, lo, hi, start, regs, frames) = check_break_keeps addr m in
      rw other (rw lo (rw hi (rw inside (ram, lo, hi, start, regs, frames))))

  pub mem_putb_plain :
      (addr value : ℕ) (m : Machine)
      → IsPlain addr m
      → Holding (update m.mem.ram addr (u8 value)) m (mem_putb addr value m).1
  unfolding mem_putb ram_putb
  mem_putb_plain addr value m (inside, other) =
      let (ram, lo, hi, start, regs, frames) = check_break_keeps addr m in
      rw other (
        rw lo (
          rw hi (
            rw inside
              (ap (λ (f : ℕ → ℕ). update f addr (u8 value)) ram, refl, refl, start, regs, frames))))

  Holding-IsPlain :
      (b : ℕ) (ram : ℕ → ℕ) (m m' : Machine) → Holding ram m m' → IsPlain b m → IsPlain b m'
  Holding-IsPlain b ram m m' (e, lo, hi, start, regs, frames) (inside, other) =
      rw lo (rw hi (rw start (inside, other)))

  -- A byte written to a plain address reads back, and the other plain addresses keep their bytes.
  mem_getb-mem_putb :
      (a b value : ℕ) (m : Machine)
      → IsPlain a m
      → IsPlain b m
      → (mem_getb b (mem_putb a value m).1).0 ≡ (if a == b then u8 value else (mem_getb b m).0)
  mem_getb-mem_putb a b value m ha hb =
      let m' = (mem_putb a value m).1 in
      let written = mem_putb_plain a value m ha in
      mem_getb_plain b m' (Holding-IsPlain b (update m.mem.ram a (u8 value)) m m' written hb)
      ∙ ap (λ (f : ℕ → ℕ). u8 (f b)) written.0
      ∙ rw (mem_getb_plain b m hb) (ground arith)

  -- A 16-bit word written to two plain addresses, the second the next one, reads back.
  pub mem_getw-mem_putw :
      (a value : ℕ) (m : Machine)
      → value < 2 ^ 16
      → IsPlain a m
      → IsPlain (u32 (a + 1)) m
      → (mem_getw a (mem_putw a value m).1).0 ≡ value
  unfolding mem_getw mem_putw
  mem_getw-mem_putw a value m small ha hb =
      let b = u32 (a + 1) in
      let apart : (b == a) ≡ false = ground arith in
      let same_a : (a == a) ≡ true = ground arith in
      let same_b : (b == b) ≡ true = ground arith in
      let low = bit_and value 0xff in
      let high = value / 2 ^ 8 in
      let ram1 = update m.mem.ram a (u8 (value / 2 ^ 8)) in
      let m1 = (mem_putb a (value / 2 ^ 8) m).1 in
      let w1 : Holding ram1 m m1 = mem_putb_plain a (value / 2 ^ 8) m ha in
      let m2 = (mem_putb b (bit_and value 0xff) m1).1 in
      let w2 : Holding (update m1.mem.ram b (u8 (bit_and value 0xff))) m1 m2 =
        mem_putb_plain b (bit_and value 0xff) m1 (Holding-IsPlain b ram1 m m1 w1 hb) in
      let plain = λ (c : ℕ) (h : IsPlain c m).
        Holding-IsPlain c (update m1.mem.ram b (u8 (bit_and value 0xff))) m1 m2 w2
          (Holding-IsPlain c ram1 m m1 w1 h) in
      let m3 = (mem_getb a m2).1 in
      let k3 : Holding m2.mem.ram m2 m3 = mem_getb_keeps a m2 (plain a ha) in
      let hi = mem_getb_plain a m2 (plain a ha) in
      let lo = mem_getb_plain b m3 (Holding-IsPlain b m2.mem.ram m2 m3 k3 (plain b hb)) in
      rw hi (
        rw lo (
          rw k3.0 (
            rw w2.0 (
              rw w1.0 (
                rw apart (
                  rw same_a (
                    rw same_b (
                      omega (
                        arith,
                        bit_or-fields 8 (u8 (u8 high)) (u8 (u8 low)) (omega arith),
                        bit_and-mask 8 value,
                      )))))))))
