-- ===== src/Alu/Spec.antt =====
-- The vocabulary of the statements about alu.c: a flag of a state, two's complement values, and
-- what an operation leaves alone.
use sim68xx.Common.{
  ℕ, ◌+◌, ◌/◌, ◌%◌, bit_and, bit_xor, Bool, true, false, not, ◌==◌, leb, ◌≡◌, arith,
}
use sim68xx.Common.Bits.{bit, bit-lt-two, bit-bit_xor, bit_and-pow, bit_and-mask}
use sim68xx.Machine.{Machine}
use sim68xx.Machine.Reg.{Flag, flag_of, nonzero}

abbrev pub flag : Flag → Machine → Bool
flag f m = flag_of f m.regs.ccr

-- Exactly one of two flags is set.
abbrev pub differs : Bool → Bool → Bool
differs true y = not y
differs false y = y

-- The two's complement value of a byte plus 128, and of a word plus 32768.
abbrev pub biased8 : ℕ → ℕ
biased8 a = (a + 128) % 256

abbrev pub biased16 : ℕ → ℕ
biased16 a = (a + 32768) % 65536

-- All but the condition code register, and of it the flags I, X and S, are as before.
abbrev pub KeepsAllButCcr : Machine → Machine → Type 0
KeepsAllButCcr m m' =
    (m' ≡ record m { regs = record m.regs { ccr = m'.regs.ccr } })
    × (flag Flag.i m' ≡ flag Flag.i m)
    × (flag Flag.x m' ≡ flag Flag.x m)
    × (flag Flag.s m' ≡ flag Flag.s m)

-- N and Z describe a byte, or a word.
abbrev pub Signs8 : ℕ → Machine → Type 0
Signs8 r m' = (flag Flag.n m' ≡ leb 128 (r % 256)) × (flag Flag.z m' ≡ (r % 256 == 0))

abbrev pub Signs16 : ℕ → Machine → Type 0
Signs16 r m' = (flag Flag.n m' ≡ leb 32768 (r % 65536)) × (flag Flag.z m' ≡ (r % 65536 == 0))

pub sign8 : (r : ℕ) → nonzero (bit_and r 0x80) ≡ leb 128 (r % 256)
sign8 r = ground (arith, bit_and-pow 7 r)

pub sign16 : (r : ℕ) → nonzero (bit_and r 0x8000) ≡ leb 32768 (r % 65536)
sign16 r = ground (arith, bit_and-pow 15 r)

pub low8 : (r : ℕ) → bit_and r 0xff ≡ r % 256
low8 r = bit_and-mask 8 r

pub low16 : (r : ℕ) → bit_and r 0xffff ≡ r % 65536
low16 r = bit_and-mask 16 r

-- The parity of four bits is the bit of the exclusive or.
pub parity4 :
    (k a b r c : ℕ)
    → bit (bit_xor (bit_xor (bit_xor a b) r) c) k ≡ (bit a k + bit b k + bit r k + bit c k) % 2
parity4 k a b r c = omega (
  arith,
  bit-bit_xor k (bit_xor (bit_xor a b) r) c,
  bit-bit_xor k (bit_xor a b) r,
  bit-bit_xor k a b,
  bit-lt-two k a,
  bit-lt-two k b,
)

-- The test for V: `(((val1 ^ val2 ^ result) ^ cflag) & sign) != 0`, where `cflag` holds bit `k + 1`
-- of the result at place `k`.
pub parity8 :
    (a b r : ℕ)
    → nonzero (bit_and (bit_xor (bit_xor (bit_xor a b) r) (bit_and (r / 2) 0x80)) 0x80)
      ≡ nonzero ((a / 128 % 2 + b / 128 % 2 + r / 128 % 2 + r / 256 % 2) % 2)
parity8 a b r = ground (
  arith,
  bit_and-pow 7 (bit_xor (bit_xor (bit_xor a b) r) (bit_and (r / 2) 0x80)),
  bit_and-pow 7 (r / 2),
  parity4 7 a b r (bit_and (r / 2) 0x80),
)

pub parity16 :
    (a b r : ℕ)
    → nonzero (bit_and (bit_xor (bit_xor (bit_xor a b) r) (bit_and (r / 2) 0x8000)) 0x8000)
      ≡ nonzero ((a / 32768 % 2 + b / 32768 % 2 + r / 32768 % 2 + r / 65536 % 2) % 2)
parity16 a b r = ground (
  arith,
  bit_and-pow 15 (bit_xor (bit_xor (bit_xor a b) r) (bit_and (r / 2) 0x8000)),
  bit_and-pow 15 (r / 2),
  parity4 15 a b r (bit_and (r / 2) 0x8000),
)
