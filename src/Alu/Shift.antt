-- ===== src/Alu/Shift.antt =====
-- `alu_shlbyte` and `alu_shrbyte`: a bit shifted in, a bit shifted out, and the flags.
use sim68xx.Common.{
  ℕ, zero, suc, ◌+◌, ◌*◌, ◌/◌, ◌%◌, ◌^◌, ◌<◌, bit_and, bit_or, bit_xor, Bool, ◌==◌, leb, ◌≡◌, refl,
  arith, ap, ◌∙◌, if◌then◌else◌,
}
use sim68xx.Common.Bits.{
  bit-lt-two, bit-bit_xor, bit_and-pow, bit_and-mask, bit_or-fields, bit_or_comm,
}
use sim68xx.Machine.{Machine}
use sim68xx.Machine.Reg.{Flag, nonzero, truth}
use sim68xx.Machine.Flags.{flag_of-with_flag}
use sim68xx.Alu.Spec.{flag, Signs8, KeepsAllButCcr, sign8, differs}
use sim68xx.Alu.{alu_shlbyte, alu_shrbyte}

shifted_left : (a b : ℕ) → a < 256 → b < 2 → bit_or (bit_and (a * 2) 0xff) b ≡ (2 * a + b) % 256
shifted_left a b ha hb =
    let mask : bit_and (a * 2) 0xff ≡ a * 2 % 256 = bit_and-mask 8 (a * 2) in
    let even : a * 2 % 256 ≡ a % 128 * 2 ^ 1 = omega arith in
    rw mask (rw even (omega (arith, bit_or-fields 1 (a % 128) b hb)))

shifted_right :
    (a b : ℕ) → a < 256 → b < 2 → bit_or (bit_and (a / 2) 0xff) (b * 2 ^ 7) ≡ a / 2 + 128 * b
shifted_right a b ha hb =
    let mask : bit_and (a / 2) 0xff ≡ a / 2 % 256 = bit_and-mask 8 (a / 2) in
    let small : a / 2 % 256 ≡ a / 2 = omega arith in
    rw mask (
      rw small
        (bit_or_comm (a / 2) (b * 2 ^ 7) ∙ bit_or-fields 7 b (a / 2) (omega arith) ∙ omega arith))

-- V is N exclusive or C.
overflow :
    (r a : ℕ)
    → nonzero (bit_and (bit_xor r (bit_and a 0x80)) 0x80)
      ≡ differs (leb 128 (r % 256)) (leb 128 (a % 256))
overflow r a = ground (
  arith,
  bit_and-pow 7 (bit_xor r (bit_and a 0x80)),
  bit-bit_xor 7 r (bit_and a 0x80),
  bit_and-pow 7 a,
  bit-lt-two 7 r,
  bit-lt-two 7 a,
)

overflow_right :
    (r c : ℕ)
    → c < 2
    → nonzero (bit_and (bit_xor r (if nonzero c then 0x80 else 0)) 0x80)
      ≡ differs (leb 128 (r % 256)) (c == 1)
overflow_right r zero h =
    ground (arith, bit_and-pow 7 (bit_xor r 0), bit-bit_xor 7 r 0, bit-lt-two 7 r)
overflow_right r (suc zero) h =
    ground (arith, bit_and-pow 7 (bit_xor r 0x80), bit-bit_xor 7 r 0x80, bit-lt-two 7 r)
overflow_right r (suc (suc c)) h = absurd (omega arith)

-- What a shift to `r` with the bit `out` shifted out leaves: C is that bit, V tells whether N
-- differs from it, and H and all else are left alone.
abbrev pub Shifted : ℕ → Bool → Machine → Machine → Type 0
Shifted r out m m' =
    Signs8 r m'
    × (flag Flag.c m' ≡ out)
    × (flag Flag.v m' ≡ differs (leb 128 r) out)
    × (flag Flag.h m' ≡ flag Flag.h m)
    × KeepsAllButCcr m m'

-- `alu_shlbyte` shifts a byte left and a bit in at the right; bit 7 goes to C, V tells whether N
-- differs from C, N and Z describe the result, and all else is left alone.
alu_shlbyte_lem :
    (a b : ℕ) (m : Machine)
    → a < 256
    → b < 2
    → let (r, m') = alu_shlbyte a b m in
      (r ≡ (2 * a + b) % 256) × Shifted ((2 * a + b) % 256) (leb 128 a) m m'
unfolding alu_shlbyte
alu_shlbyte_lem a b m ha hb =
    let bit_in : truth (nonzero (b % 256)) ≡ b = ground arith in
    let wide : a * 2 % 2 ^ 32 ≡ a * 2 = omega arith in
    let byte : a % 256 ≡ a = omega arith in
    let r = (2 * a + b) % 256 in
    let low : r % 256 ≡ r = omega arith in
    rw bit_in (
      rw wide (
        rw (shifted_left a b ha hb) (
          simp flag_of-with_flag (
            refl,
            (
              (sign8 r, ap (λ t. t == 0) {y = r % 256} (omega arith)),
              sign8 a ∙ ap (leb 128) byte,
              rw low at (rw byte at (overflow r a)),
              refl,
              (refl, refl, refl, refl),
            ),
          ))))

-- `alu_shrbyte` shifts a byte right and a bit, set if the second byte is not 0, in at the left;
-- bit 0 goes to C, V tells whether N differs from C, N and Z describe the result, and all else
-- is left alone.
alu_shrbyte_lem :
    (a b : ℕ) (m : Machine)
    → a < 256
    → b < 256
    → let (r, m') = alu_shrbyte a b m in
      let msbit = truth (nonzero b) in
      (r ≡ a / 2 + 128 * msbit) × Shifted (a / 2 + 128 * msbit) (a % 2 == 1) m m'
unfolding alu_shrbyte
alu_shrbyte_lem a b m ha hb =
    let keep : b % 256 ≡ b = omega arith in
    let msbit = truth (nonzero b) in
    let r = a / 2 + 128 * msbit in
    let odd : bit_and a 1 ≡ a % 2 = bit_and-mask 1 a in
    let small : msbit < 2 = ground arith in
    let place : (if nonzero b then 0x80 else 0) ≡ msbit * 2 ^ 7 = ground arith in
    let low : r % 256 ≡ r = omega arith in
    rw keep (
      rw place (
        rw (shifted_right a msbit ha small) (
          rw odd (
            simp flag_of-with_flag (
              refl,
              (
                (sign8 r, ap (λ t. t == 0) {y = r % 256} (omega arith)),
                ground arith,
                rw low at (overflow_right r (a % 2) (omega arith)),
                refl,
                (refl, refl, refl, refl),
              ),
            )))))
