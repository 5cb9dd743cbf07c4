-- ===== src/Alu/Add.antt =====
-- `alu_addbyte` and `alu_addword`: the sum, and each flag as the arithmetic says.
use sim68xx.Common.{
  ℕ, ◌+◌, ◌/◌, ◌^◌, ◌%◌, ◌<◌, bit_xor, ◌||◌, ◌==◌, leb, ltb, ◌≡◌, arith, refl, ap, ◌∙◌,
}
use sim68xx.Common.Bits.{bit-bit_xor, bit_and-pow}
use sim68xx.Machine.{Machine}
use sim68xx.Machine.Reg.{Flag, nonzero}
use sim68xx.Machine.Flags.{flag_of-with_flag}
use sim68xx.Alu.Spec.{
  flag, biased8, biased16, KeepsAllButCcr, Signs8, Signs16, sign8, sign16, low8, low16, parity8,
  parity16,
}
use sim68xx.Alu.{alu_addbyte, alu_addword}

overflow8 :
    (a b c : ℕ)
    → a < 256
    → b < 256
    → c < 2
    → nonzero ((a / 128 % 2 + b / 128 % 2 + (a + b + c) / 128 % 2 + (a + b + c) / 256 % 2) % 2)
      ≡ (ltb (biased8 a + biased8 b + c) 128 || leb 384 (biased8 a + biased8 b + c))
overflow8 a b c ha hb hc = ground arith

overflow16 :
    (a b c : ℕ)
    → a < 65536
    → b < 65536
    → c < 2
    → nonzero
        ((a / 32768 % 2 + b / 32768 % 2 + (a + b + c) / 32768 % 2 + (a + b + c) / 65536 % 2) % 2)
      ≡ (ltb (biased16 a + biased16 b + c) 32768 || leb 98304 (biased16 a + biased16 b + c))
overflow16 a b c ha hb hc = ground arith

-- `alu_addbyte` on two bytes and a carry returns the sum. C is set exactly when the sum passes a
-- byte, H when the low digits' sum passes a digit, V when the sum of the two's complement values
-- does not fit a byte; N and Z describe the low byte. Nothing else changes.
pub alu_addbyte_lem :
    (a b c : ℕ) (m : Machine)
    → a < 256
    → b < 256
    → c < 2
    → let (r, m') = alu_addbyte a b c m in
      (r ≡ a + b + c)
      × (flag Flag.c m' ≡ leb 256 (a + b + c))
      × (flag Flag.h m' ≡ leb 16 (a % 16 + b % 16 + c))
      × (flag Flag.v m'
          ≡ (ltb (biased8 a + biased8 b + c) 128 || leb 384 (biased8 a + biased8 b + c)))
      × Signs8 (a + b + c) m'
      × KeepsAllButCcr m m'
unfolding alu_addbyte
alu_addbyte_lem a b c m ha hb hc =
    let ea : a % 256 ≡ a = omega arith in
    let eb : b % 256 ≡ b = omega arith in
    let ec : c % 256 ≡ c = omega arith in
    let er : (a + b + c) % 2 ^ 32 ≡ a + b + c = omega arith in
    simp (flag_of-with_flag, ea, eb, ec, er)
      (
        refl,
        ground (arith, bit_and-pow 7 ((a + b + c) / 2)),
        ground (
          arith,
          bit_and-pow 4 (bit_xor (bit_xor a b) (a + b + c)),
          bit-bit_xor 4 (bit_xor a b) (a + b + c),
          bit-bit_xor 4 a b,
        ),
        parity8 a b (a + b + c) ∙ overflow8 a b c ha hb hc,
        (sign8 (a + b + c), ap (λ t. t == 0) (low8 (a + b + c))),
        (refl, refl, refl, refl),
      )

-- `alu_addword` on two words and a carry returns the sum. C is set exactly when the sum passes a
-- word, V when the sum of the two's complement values does not fit a word; N and Z describe the
-- low word. Nothing else changes.
alu_addword_lem :
    (a b c : ℕ) (m : Machine)
    → a < 65536
    → b < 65536
    → c < 2
    → let (r, m') = alu_addword a b c m in
      (r ≡ a + b + c)
      × (flag Flag.c m' ≡ leb 65536 (a + b + c))
      × (flag Flag.h m' ≡ flag Flag.h m)
      × (flag Flag.v m'
          ≡ (ltb (biased16 a + biased16 b + c) 32768 || leb 98304 (biased16 a + biased16 b + c)))
      × Signs16 (a + b + c) m'
      × KeepsAllButCcr m m'
unfolding alu_addword
alu_addword_lem a b c m ha hb hc =
    let ec : c % 256 ≡ c = omega arith in
    let er : (a + b + c) % 2 ^ 64 ≡ a + b + c = omega arith in
    let er' : (a + b + c) % 2 ^ 32 ≡ a + b + c = omega arith in
    simp (flag_of-with_flag, ec, er, er')
      (
        refl,
        ground (arith, bit_and-pow 15 ((a + b + c) / 2)),
        refl,
        parity16 a b (a + b + c) ∙ overflow16 a b c ha hb hc,
        (sign16 (a + b + c), ap (λ t. t == 0) (low16 (a + b + c))),
        (refl, refl, refl, refl),
      )
