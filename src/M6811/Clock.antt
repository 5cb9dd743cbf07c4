-- ===== src/M6811/Clock.antt =====
-- `timer_inc` of src/arch/m6811/timer.c: the running counter and the five output compares.
use native.Mathlib.Nat.{one-le-pow}
use sim68xx.Common.{
  ℕ, zero, suc, ◌+◌, ◌-◌, ◌*◌, ◌/◌, ◌%◌, ◌^◌, ◌<◌, ◌≤◌, bit_and, bit_or, Bool, true, false, ◌&&◌,
  ◌||◌, ◌==◌, leb, ltb, if◌then◌else◌, u8, u64, sub32, sub64, ◌≡◌, refl, arith, ap, ◌∙◌, Bool-cases,
  inl, inr,
}
use sim68xx.Common.Bits.{
  bit, bit-zero, bit-lt-two, bit-bit_or, bit_and-pow, bit_or-lt, bit_or-fields,
}
use sim68xx.Machine.{Machine}
use sim68xx.Machine.Reg.{nonzero}
use sim68xx.Memory.{ireg_putb, ireg_putw}
use sim68xx.H6303.Clock.{word, Bytes, getw-word}
use sim68xx.M6811.Registers.{tcnt, tflg1, toc1}
use sim68xx.M6811.Timer.{
  toc_flag, is_negative, raise_toc, inc_toc, inc_tocs, timer_inc, latch_toc, toc_putb_from,
  toc_putb,
}

-- The compare flag of channel `i`.
abbrev pub raised : ℕ → Machine → Bool
raised i m = nonzero (bit_and (m.iram tflg1) (toc_flag i))

-- The ticks after `n` more of them: a match starts the next round of 65536.
abbrev pub ticks_after : ℕ → ℕ → ℕ
ticks_after n t = if leb t n then t + 65536 - n else t - n

toc_flag-pow : (i : ℕ) → i < 5 → toc_flag i ≡ 2 ^ (7 - i)
toc_flag-pow zero h = refl
toc_flag-pow (suc zero) h = refl
toc_flag-pow (suc (suc zero)) h = refl
toc_flag-pow (suc (suc (suc zero))) h = refl
toc_flag-pow (suc (suc (suc (suc zero)))) h = refl
toc_flag-pow (suc (suc (suc (suc (suc i))))) h = absurd (omega arith)

bit-pow : (a b : ℕ) → bit (2 ^ a) b ≡ (if a == b then 1 else 0)
bit-pow zero zero = refl
bit-pow zero (suc b) = bit-zero b ∙ ground arith
bit-pow (suc a) zero = ground arith
bit-pow (suc a) (suc b) =
    let half : 2 ^ suc a / 2 ≡ 2 ^ a = omega arith in
    ap (λ t. bit t b) half ∙ bit-pow a b ∙ ground arith

tested : (k x : ℕ) → nonzero (bit_and x (2 ^ k)) ≡ nonzero (bit x k)
tested k x = rw (bit_and-pow k x) (elim (Bool-cases (bit x k == 0)) [
  | inl e ↦ let off : bit x k ≡ 0 = ground arith in rw off (ground arith)
  | inr e ↦
      let on : bit x k ≡ 1 = ground (arith, bit-lt-two k x) in
      rw on (ground (arith, one-le-pow k 2))
])

-- A flag that is set among the flags of the other channels.
flag-or :
    (x i k : ℕ)
    → i < 5
    → k < 5
    → nonzero (bit_and (bit_or x (toc_flag i)) (toc_flag k))
      ≡ (nonzero (bit_and x (toc_flag k)) || i == k)
flag-or x i k hi hk = rw (toc_flag-pow i hi) (
    rw (toc_flag-pow k hk) (
      rw (tested (7 - k) (bit_or x (2 ^ (7 - i)))) (
        rw (tested (7 - k) x) (
          ground (
            arith,
            bit-bit_or (7 - k) x (2 ^ (7 - i)),
            bit-pow (7 - i) (7 - k),
            bit-lt-two (7 - k) x,
          )))))

-- The test of a round, on ticks that are not below 0.
test-leb :
    (n t : ℕ) → n < 2 ^ 16 → t < 2 ^ 32 → (sub64 t n == 0 || is_negative (sub64 t n)) ≡ leb t n
test-leb n t hn ht = ground arith

wrapped :
    (n t : ℕ) → n < 2 ^ 16 → t < 2 ^ 32 → leb t n ≡ true → u64 (sub64 t n + 65536) ≡ t + 65536 - n
wrapped n t hn ht h = ground arith

counted : (n t : ℕ) → n < 2 ^ 16 → t < 2 ^ 32 → leb t n ≡ false → sub64 t n ≡ t - n
counted n t hn ht h = ground arith

module _ (n i j : ℕ) (m : Machine) (hn : n < 2 ^ 16) (ht : m.toc_ticks i < 2 ^ 32) where
  inc_toc-ticks :
      (inc_toc n i m).1.toc_ticks j
      ≡ (if i == j then ticks_after n (m.toc_ticks i) else m.toc_ticks j)
  unfolding inc_toc raise_toc ireg_putb
  inc_toc-ticks = rw (test-leb n (m.toc_ticks i) hn ht) (elim (Bool-cases (leb (m.toc_ticks i) n)) [
    | inl e ↦ rw e (rw (wrapped n (m.toc_ticks i) hn ht e) (ground arith))
    | inr e ↦ rw e (rw (counted n (m.toc_ticks i) hn ht e) (ground arith))
  ])

  inc_toc-iram : (inc_toc n i m).1.iram j ≡ (
      if tflg1 == j && leb (m.toc_ticks i) n
      then u8 (bit_or (m.iram tflg1) (toc_flag i))
      else m.iram j)
  unfolding inc_toc raise_toc ireg_putb
  inc_toc-iram = rw (test-leb n (m.toc_ticks i) hn ht) (elim (Bool-cases (leb (m.toc_ticks i) n)) [
    | inl e ↦ rw e (ground arith)
    | inr e ↦ rw e (ground arith)
  ])

toc_flag-byte : (i : ℕ) → i < 5 → toc_flag i < 2 ^ 8
toc_flag-byte i h = ground arith

-- One round: the flags.
inc_toc-raised :
    (n i k : ℕ) (m : Machine)
    → n < 2 ^ 16
    → m.toc_ticks i < 2 ^ 32
    → Bytes m
    → i < 5
    → k < 5
    → raised k (inc_toc n i m).1 ≡ (raised k m || leb (m.toc_ticks i) n && i == k)
inc_toc-raised n i k m hn ht h hi hk =
    let byte : u8 (bit_or (m.iram tflg1) (toc_flag i)) ≡ bit_or (m.iram tflg1) (toc_flag i) =
      omega (arith, bit_or-lt 8 (m.iram tflg1) (toc_flag i) (h tflg1) (toc_flag-byte i hi)) in
    rw (inc_toc-iram n i tflg1 m hn ht) (elim (Bool-cases (leb (m.toc_ticks i) n)) [
      | inl e ↦ rw e (rw byte (flag-or (m.iram tflg1) i k hi hk))
      | inr e ↦ rw e (ground arith)
    ])

-- The ticks of all channels are those of a `u_int`.
abbrev pub Counts : Machine → Type 0
Counts m = (i : ℕ) → m.toc_ticks i < 2 ^ 32

pub inc_toc-Counts : (n i : ℕ) (m : Machine) → n < 2 ^ 16 → Counts m → Counts (inc_toc n i m).1
inc_toc-Counts n i m hn ht j = rw (inc_toc-ticks n i j m hn (ht i)) (ground (arith, ht i, ht j))

pub inc_toc-Bytes :
    (n i : ℕ) (m : Machine) → n < 2 ^ 16 → Counts m → Bytes m → Bytes (inc_toc n i m).1
inc_toc-Bytes n i m hn ht h j = rw (inc_toc-iram n i j m hn (ht i)) (ground (arith, h j))

-- Whether the rounds from `i` on reach channel `k`.
abbrev reaches : ℕ → ℕ → ℕ → Bool
reaches r i k = leb i k && ltb k (i + r)

pub inc_tocs-ticks :
    (r i k n : ℕ) (m : Machine)
    → n < 2 ^ 16
    → Counts m
    → (inc_tocs r i n m).1.toc_ticks k
      ≡ (if reaches r i k then ticks_after n (m.toc_ticks k) else m.toc_ticks k)
unfolding inc_tocs
inc_tocs-ticks zero i k n m hn ht = ground arith
inc_tocs-ticks (suc r) i k n m hn ht =
    inc_tocs-ticks r (i + 1) k n (inc_toc n i m).1 hn (inc_toc-Counts n i m hn ht)
    ∙ rw (inc_toc-ticks n i k m hn (ht i)) (elim (Bool-cases (i == k)) [
      | inl e ↦ let equal : i ≡ k = ground arith in rw equal (ground arith)
      | inr e ↦ ground arith
    ])

inc_tocs-raised :
    (r i k n : ℕ) (m : Machine)
    → n < 2 ^ 16
    → Counts m
    → Bytes m
    → i + r ≤ 5
    → k < 5
    → raised k (inc_tocs r i n m).1 ≡ (raised k m || reaches r i k && leb (m.toc_ticks k) n)
unfolding inc_tocs
inc_tocs-raised zero i k n m hn ht h hi hk = ground arith
inc_tocs-raised (suc r) i k n m hn ht h hi hk =
    let m1 = (inc_toc n i m).1 in
    inc_tocs-raised r (i + 1) k n m1 hn (inc_toc-Counts n i m hn ht) (inc_toc-Bytes n i m hn ht h)
      (omega arith) hk
    ∙ rw (inc_toc-raised n i k m hn (ht i) h (omega arith) hk) (
        rw (inc_toc-ticks n i k m hn (ht i)) (elim (Bool-cases (i == k)) [
          | inl e ↦ let equal : i ≡ k = ground arith in rw equal (ground arith)
          | inr e ↦ ground arith
        ]))

-- With internal registers that hold bytes and ticks below 2 ^ 32, `timer_inc` of less than 65536 cycles
-- adds them to TCNT modulo 65536. Each of the five channels counts its ticks down by the cycles; when
-- none are left its compare flag is set and 65536 more ticks begin, and else its flag stays.
pub timer_inc_advances :
    (n k : ℕ) (m : Machine)
    → n < 2 ^ 16
    → k < 5
    → Bytes m
    → Counts m
    → let m' = (timer_inc n m).1 in
      (word tcnt m' ≡ (word tcnt m + n) % 65536)
      × (m'.toc_ticks k ≡ ticks_after n (m.toc_ticks k))
      × (raised k m' ≡ (raised k m || leb (m.toc_ticks k) n))
unfolding timer_inc ireg_putw ireg_putb
timer_inc_advances n k m hn hk h ht =
    let bound : word tcnt m < 65536 = omega (arith, h tcnt, h (tcnt + 1)) in
    let all : reaches 5 0 k ≡ true = ground arith in
    rw (getw-word tcnt m h) (
      omega (arith, bound),
      inc_tocs-ticks 5 0 k n m hn ht ∙ rw all refl,
      inc_tocs-raised 5 0 k n m hn ht h (omega arith) hk ∙ rw all refl,
    )

-- With internal registers that hold bytes, writes of two bytes to TOC1, the high one first, leave
-- them in TOC1. The ticks of channel 1 become the difference in 32 bits of that high byte with the old
-- low byte of TOC1 and TCNT.
pub toc_putb_latches :
    (hi lo : ℕ) (m : Machine)
    → Bytes m
    → let m' = (toc_putb (toc1 + 1) lo (toc_putb toc1 hi m).1).1 in
      (word toc1 m' ≡ u8 hi * 256 + u8 lo)
      × (m'.toc_ticks 0 ≡ sub32 (u8 hi * 256 + m.iram (toc1 + 1)) (word tcnt m))
unfolding toc_putb toc_putb_from latch_toc ireg_putb
toc_putb_latches hi lo m h =
    let low : bit_or (u8 hi * 2 ^ 8) (m.iram (toc1 + 1)) ≡ u8 hi * 256 + m.iram (toc1 + 1) =
      bit_or-fields 8 (u8 hi) (m.iram (toc1 + 1)) (h (toc1 + 1)) in
    (refl, rw low (rw (getw-word tcnt m h) (ground arith)))
