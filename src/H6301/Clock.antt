-- ===== src/H6301/Clock.antt =====
-- The free-running counter of src/arch/h6301/timer.c, and how its compare flag is acknowledged.
use sim68xx.Common.{
  ℕ, ◌+◌, ◌-◌, ◌%◌, ◌^◌, ◌<◌, bit_and, Bool, true, false, not, leb, ◌&&◌, ◌||◌, ◌==◌, u8, ◌≡◌, refl,
  arith, ◌∙◌, Bool-cases, inl, inr,
}
use sim68xx.Common.Bits.{bit-bit_and, bit-lt-two, bit_and-le, bit_and-pow}
use sim68xx.Machine.{Machine}
use sim68xx.Machine.Reg.{nonzero}
use sim68xx.Memory.{ireg_putb, ireg_putw}
use sim68xx.H6303.Clock.{word, Bytes, getw-word, ocf1-on}
use sim68xx.H6301.Registers.{frc, ocr, tcsr, ocf}
use sim68xx.H6301.Timer.{compare, timer_inc, tcsr_getb, ocr_putb}

-- The compare flag.
abbrev pub raised : Machine → Bool
raised m = nonzero (bit_and (m.iram tcsr) ocf)

compare-raised :
    (new : ℕ) (m : Machine)
    → Bytes m
    → raised (compare new m).1 ≡ (raised m || leb (word ocr m) new)
unfolding compare ireg_putb
compare-raised new m h = rw (getw-word ocr m h) (elim (Bool-cases (leb (word ocr m) new)) [
  | inl e ↦ rw e (ocf1-on (m.iram tcsr) (h tcsr) ∙ ground arith)
  | inr e ↦ rw e (ground arith)
])

compare-is_read :
    (new : ℕ) (m : Machine)
    → Bytes m
    → (compare new m).1.timer.tcsr_is_read ≡ (m.timer.tcsr_is_read && not (leb (word ocr m) new))
unfolding compare ireg_putb
compare-is_read new m h = rw (getw-word ocr m h) (elim (Bool-cases (leb (word ocr m) new)) [
  | inl e ↦ rw e (ground arith)
  | inr e ↦ rw e (ground arith)
])

-- With internal registers that hold bytes, `timer_inc` of less than 65536 cycles adds them to the
-- free-running counter modulo 65536. When the counter, without its wrap, is not below OCR
-- afterwards, OCF is set and an earlier read of TCSR no longer counts; else both stay as they were.
pub timer_inc_compares :
    (n : ℕ) (m : Machine)
    → n < 2 ^ 16
    → Bytes m
    → let m' = (timer_inc n m).1 in
      let reached = leb (word ocr m) (word frc m + n) in
      (word frc m' ≡ (word frc m + n) % 65536)
      × (raised m' ≡ (raised m || reached))
      × (m'.timer.tcsr_is_read ≡ (m.timer.tcsr_is_read && not reached))
unfolding timer_inc ireg_putw ireg_putb
timer_inc_compares n m hn h =
    let bound : word frc m < 65536 = omega (arith, h frc, h (frc + 1)) in
    let wide : (word frc m + n) % 2 ^ 32 ≡ word frc m + n = omega arith in
    rw (getw-word frc m h) (
      rw wide
        (omega arith, compare-raised (word frc m + n) m h, compare-is_read (word frc m + n) m h))

ocf-off : (x : ℕ) → x < 2 ^ 8 → nonzero (bit_and (u8 (bit_and x (0xff - ocf))) ocf) ≡ false
ocf-off x h =
    let byte : u8 (bit_and x (0xff - ocf)) ≡ bit_and x (0xff - ocf) =
      omega (arith, bit_and-le x x (0xff - ocf) (omega arith)) in
    rw byte (
      ground (
        arith,
        bit_and-pow 6 (bit_and x (0xff - ocf)),
        bit-bit_and 6 x (0xff - ocf),
        bit-lt-two 6 x,
      ))

-- A write to OCR after a read of TCSR that counts.
ocr_putb-after :
    (i value : ℕ) (m : Machine)
    → i < 2
    → Bytes m
    → m.timer.tcsr_is_read ≡ true
    → let m' = (ocr_putb (ocr + i) value m).1 in
      (raised m' ≡ false) × (m'.iram (ocr + i) ≡ u8 value)
unfolding ocr_putb ireg_putb
ocr_putb-after i value m hi h e =
    let other : ocr + i == tcsr ≡ false = ground arith in
    let other' : tcsr == ocr + i ≡ false = ground arith in
    let own : ocr + i == ocr + i ≡ true = ground arith in
    rw e (rw other (rw other' (rw own (ocf-off (m.iram tcsr) (h tcsr), refl))))

-- A write to OCR without one.
ocr_putb-unread :
    (i value : ℕ) (m : Machine)
    → i < 2
    → m.timer.tcsr_is_read ≡ false
    → let m' = (ocr_putb (ocr + i) value m).1 in
      (m'.iram tcsr ≡ m.iram tcsr) × (m'.iram (ocr + i) ≡ u8 value)
unfolding ocr_putb ireg_putb
ocr_putb-unread i value m hi e = rw e (ground arith)

-- Whether the flag survives a write to OCR depends on the read alone.
ocr_putb-raised :
    (i value : ℕ) (m : Machine)
    → i < 2
    → Bytes m
    → raised (ocr_putb (ocr + i) value m).1 ≡ (raised m && not m.timer.tcsr_is_read)
ocr_putb-raised i value m hi h = elim (Bool-cases m.timer.tcsr_is_read) [
  | inl e ↦ simp e ((ocr_putb-after i value m hi h e).0 ∙ ground arith)
  | inr e ↦ rw (ocr_putb-unread i value m hi e).0 (rw e (ground arith))
]

-- With internal registers that hold bytes, a read of TCSR and then a write to a byte of OCR clear
-- OCF, and the byte is written. A write to it without the read clears OCF exactly when a read of
-- TCSR still counts.
pub ocr_putb-tcsr_getb :
    (i value : ℕ) (m : Machine)
    → i < 2
    → Bytes m
    → let m' = (ocr_putb (ocr + i) value (tcsr_getb tcsr m).1).1 in
      (raised m' ≡ false)
      × (m'.iram (ocr + i) ≡ u8 value)
      × (raised (ocr_putb (ocr + i) value m).1 ≡ (raised m && not m.timer.tcsr_is_read))
unfolding tcsr_getb
ocr_putb-tcsr_getb i value m hi h =
    let kept = ocr_putb-raised i value m hi h in
    elim (Bool-cases (raised m)) [
      | inl e ↦
          let (off, byte) =
            ocr_putb-after i value (record m { timer = record m.timer { tcsr_is_read = true } }) hi
              h refl in
          rw e (off, byte, kept ∙ rw e refl)
      | inr e ↦ rw e (elim (Bool-cases m.timer.tcsr_is_read) [
        | inl f ↦ let (off, byte) = ocr_putb-after i value m hi h f in (off, byte, kept ∙ rw e refl)
        | inr f ↦
            let (same, byte) = ocr_putb-unread i value m hi f in (rw same e, byte, kept ∙ rw e refl)
      ])
    ]
