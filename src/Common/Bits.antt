-- ===== src/Common/Bits.antt =====
-- The bits of `bit_and`, `bit_or` and `bit_xor` at variables, for every width.
use Prim.Native.Nat.{
  ℕ, zero, suc, ◌+◌, ◌-◌, ◌*◌, ◌/◌, ◌%◌, ◌^◌, ◌≤◌, ◌<◌, min, max, digits, bitwise, bit_and, bit_or,
  bit_xor, bit_and-bitwise, bit_or-bitwise, bit_xor-bitwise, differ,
}
use mathlib.Core.Path.{◌≡◌, refl, ap, ◌∙◌}
use native.Mathlib.Decide.{dec_le}
use native.Mathlib.Nat.{pow-suc, one-le-pow}
use native.Mathlib.Omega.{arith}

-- The native operations are recursions on binary digits with fuel: `digits z f n a b`.
module _ (z : ℕ → ℕ) (f : ℕ → ℕ → ℕ) where
  -- One more unit of fuel than the number needs changes nothing.
  spare_fuel : (n x y : ℕ) → x ≤ n → digits z f (suc n) x y ≡ digits z f n x y
  spare_fuel zero zero y h = refl
  spare_fuel (suc n) zero y h = refl
  spare_fuel zero (suc x) y h = absurd (omega arith)
  spare_fuel (suc n) (suc x) y h = rw (spare_fuel n (suc x / 2) (y / 2) (omega arith)) refl

  enough_fuel : (n x y : ℕ) → x ≤ n → digits z f n x y ≡ bitwise z f x y
  enough_fuel zero zero y h = refl
  enough_fuel zero (suc x) y h = absurd (omega arith)
  enough_fuel (suc n) x y h = elim (dec_le x n) [
    | yes p ↦ spare_fuel n x y p ∙ enough_fuel n x y p
    | no q ↦ let top : suc n ≡ x = omega arith in ap (λ (t : ℕ). digits z f t x y) top
  ]

  bitwise-halves :
      (x y : ℕ)
      → bitwise z f (suc x) y ≡ 2 * bitwise z f (suc x / 2) (y / 2) + f (suc x % 2) (y % 2)
  bitwise-halves x y = omega (arith, enough_fuel x (suc x / 2) (y / 2) (omega arith))

-- Each operation by the lowest digits and the rest.
pub bit_and_halves : (x y : ℕ) → bit_and x y ≡ 2 * bit_and (x / 2) (y / 2) + min (x % 2) (y % 2)
bit_and_halves zero y = simp bit_and-bitwise (omega arith)
bit_and_halves (suc x) y = simp bit_and-bitwise (bitwise-halves (λ d. 0) min x y)

pub bit_or_halves : (x y : ℕ) → bit_or x y ≡ 2 * bit_or (x / 2) (y / 2) + max (x % 2) (y % 2)
bit_or_halves zero y = simp bit_or-bitwise (omega arith)
bit_or_halves (suc x) y = simp bit_or-bitwise (bitwise-halves (λ d. d) max x y)

differ_lt_two : (a b : ℕ) → a < 2 → b < 2 → differ a b ≡ (a + b) % 2
differ_lt_two zero zero p q = refl
differ_lt_two zero (suc zero) p q = refl
differ_lt_two (suc zero) zero p q = refl
differ_lt_two (suc zero) (suc zero) p q = refl
differ_lt_two zero (suc (suc b)) p q = absurd (omega arith)
differ_lt_two (suc zero) (suc (suc b)) p q = absurd (omega arith)
differ_lt_two (suc (suc a)) b p q = absurd (omega arith)

pub bit_xor_halves : (x y : ℕ) → bit_xor x y ≡ 2 * bit_xor (x / 2) (y / 2) + (x % 2 + y % 2) % 2
bit_xor_halves zero y = simp bit_xor-bitwise (omega arith)
bit_xor_halves (suc x) y = simp bit_xor-bitwise (
    rw (← differ_lt_two (suc x % 2) (y % 2) (omega arith) (omega arith))
      (bitwise-halves (λ d. d) differ x y))

-- Bit `k` of a number, by halving.
abbrev pub bit : ℕ → ℕ → ℕ
bit x zero = x % 2
bit x (suc k) = bit (x / 2) k

pub bit-zero : (k : ℕ) → bit 0 k ≡ 0
bit-zero zero = refl
bit-zero (suc k) = bit-zero k

pub bit-lt-two : (k x : ℕ) → bit x k < 2
bit-lt-two zero x = omega arith
bit-lt-two (suc k) x = bit-lt-two k (x / 2)

pub bit-bit_and : (k a b : ℕ) → bit (bit_and a b) k ≡ min (bit a k) (bit b k)
bit-bit_and zero a b = omega (arith, bit_and_halves a b)
bit-bit_and (suc k) a b =
    let half : bit_and a b / 2 ≡ bit_and (a / 2) (b / 2) = omega (arith, bit_and_halves a b) in
    rw half (bit-bit_and k (a / 2) (b / 2))

pub bit-bit_or : (k a b : ℕ) → bit (bit_or a b) k ≡ max (bit a k) (bit b k)
bit-bit_or zero a b = omega (arith, bit_or_halves a b)
bit-bit_or (suc k) a b =
    let half : bit_or a b / 2 ≡ bit_or (a / 2) (b / 2) = omega (arith, bit_or_halves a b) in
    rw half (bit-bit_or k (a / 2) (b / 2))

pub bit-bit_xor : (k a b : ℕ) → bit (bit_xor a b) k ≡ (bit a k + bit b k) % 2
bit-bit_xor zero a b = omega (arith, bit_xor_halves a b)
bit-bit_xor (suc k) a b =
    let half : bit_xor a b / 2 ≡ bit_xor (a / 2) (b / 2) = omega (arith, bit_xor_halves a b) in
    rw half (bit-bit_xor k (a / 2) (b / 2))

bit_and-zero_below : (n a : ℕ) → a < n → bit_and a 0 ≡ 0
bit_and-zero_below zero a below = absurd (omega arith)
bit_and-zero_below (suc n) zero below = refl
bit_and-zero_below (suc n) (suc a) below =
    let half = bit_and-zero_below n (suc a / 2) (omega arith) in
    omega (arith, half, bit_and_halves (suc a) 0)

pub bit_and-zero : (a : ℕ) → bit_and a 0 ≡ 0
bit_and-zero a = bit_and-zero_below (suc a) a (omega arith)

bit_or-zero_below : (n a : ℕ) → a < n → bit_or a 0 ≡ a
bit_or-zero_below zero a below = absurd (omega arith)
bit_or-zero_below (suc n) zero below = refl
bit_or-zero_below (suc n) (suc a) below =
    let half = bit_or-zero_below n (suc a / 2) (omega arith) in
    omega (arith, half, bit_or_halves (suc a) 0)

pub bit_or-zero : (a : ℕ) → bit_or a 0 ≡ a
bit_or-zero a = bit_or-zero_below (suc a) a (omega arith)

-- A test of one bit: `x & (1 << k)`.
pub bit_and-pow : (k x : ℕ) → bit_and x (2 ^ k) ≡ bit x k * 2 ^ k
bit_and-pow zero x = omega (arith, bit_and_halves x 1, bit_and-zero (x / 2))
bit_and-pow (suc k) x = omega (
  arith,
  bit_and_halves x (2 ^ suc k),
  pow-suc 2 k,
  ap (λ (t : ℕ). bit_and (x / 2) t) (half_pow k),
  bit_and-pow k (x / 2),
  ap (λ (t : ℕ). bit (x / 2) k * t) (pow-suc 2 k),
)
  where
    half_pow : (j : ℕ) → 2 ^ suc j / 2 ≡ 2 ^ j
    half_pow j = omega (arith, pow-suc 2 j)

twice_pow : (q k : ℕ) → q * 2 ^ suc k ≡ 2 * (q * 2 ^ k)
twice_pow q k = omega (arith, ap (λ (t : ℕ). q * t) (pow-suc 2 k))

-- `(q << k) | r` is a sum when `r` fits `k` bits.
pub bit_or-fields : (k q r : ℕ) → r < 2 ^ k → bit_or (q * 2 ^ k) r ≡ q * 2 ^ k + r
bit_or-fields zero q zero fits = rw bit_or-zero (omega arith)
bit_or-fields zero q (suc r) fits = absurd (omega arith)
bit_or-fields (suc k) q r fits = ground (
  arith,
  twice_pow q k,
  bit_or_halves (q * 2 ^ suc k) r,
  bit_or-fields k q (r / 2) (omega (arith, pow-suc 2 k)),
)

bit_and-fields : (k q r : ℕ) → r < 2 ^ k → bit_and (q * 2 ^ k + r) (2 ^ k - 1) ≡ r
bit_and-fields zero q zero fits = rw bit_and-zero (omega arith)
bit_and-fields zero q (suc r) fits = absurd (omega arith)
bit_and-fields (suc k) q r fits = ground (
  arith,
  twice_pow q k,
  pow-suc 2 k,
  one-le-pow k 2,
  bit_and_halves (q * 2 ^ suc k + r) (2 ^ suc k - 1),
  bit_and-fields k q (r / 2) (omega (arith, pow-suc 2 k)),
)

-- A mask of the low bits: `x & (2 ^ k - 1)`.
pub bit_and-mask : (k x : ℕ) → bit_and x (2 ^ k - 1) ≡ x % 2 ^ k
bit_and-mask k x = ground (arith, one-le-pow k 2, bit_and-fields k (x / 2 ^ k) (x % 2 ^ k))

pub bit_and-le : (n a b : ℕ) → a ≤ n → bit_and a b ≤ a
bit_and-le n zero b h = omega (arith, bit_and-bitwise 0 b)
bit_and-le zero (suc a) b h = absurd (omega arith)
bit_and-le (suc n) (suc a) b h =
    omega (arith, bit_and_halves (suc a) b, bit_and-le n (suc a / 2) (b / 2) (omega arith))

bit_or-lt-one : (a b : ℕ) → a < 1 → b < 1 → bit_or a b < 1
bit_or-lt-one zero zero p q = omega (arith, bit_or-zero 0)
bit_or-lt-one zero (suc b) p q = absurd (omega arith)
bit_or-lt-one (suc a) b p q = absurd (omega arith)

pub bit_or-lt : (k a b : ℕ) → a < 2 ^ k → b < 2 ^ k → bit_or a b < 2 ^ k
bit_or-lt zero a b ha hb = bit_or-lt-one a b ha hb
bit_or-lt (suc k) a b ha hb = omega (
  arith,
  bit_or_halves a b,
  pow-suc 2 k,
  bit_or-lt k (a / 2) (b / 2) (omega (arith, pow-suc 2 k)) (omega (arith, pow-suc 2 k)),
)

bit_or_comm_below : (n a b : ℕ) → a + b < n → bit_or a b ≡ bit_or b a
bit_or_comm_below zero a b below = absurd (omega arith)
bit_or_comm_below (suc n) zero zero below = refl
bit_or_comm_below (suc n) (suc a) b below =
    let rest = bit_or_comm_below n (suc a / 2) (b / 2) (omega arith) in
    omega (arith, rest, bit_or_halves (suc a) b, bit_or_halves b (suc a))
bit_or_comm_below (suc n) zero (suc b) below =
    let rest = bit_or_comm_below n 0 (suc b / 2) (omega arith) in
    omega (arith, rest, bit_or_halves 0 (suc b), bit_or_halves (suc b) 0)

pub bit_or_comm : (a b : ℕ) → bit_or a b ≡ bit_or b a
bit_or_comm a b = bit_or_comm_below (suc (a + b)) a b (omega arith)
