-- ===== src/H6303/Clock.antt =====
-- `timer_inc`: the free-running counter and its two output compares.
use sim68xx.Common.{
  ℕ, ◌+◌, ◌-◌, ◌*◌, ◌/◌, ◌%◌, ◌^◌, ◌<◌, bit_and, bit_or, true, false, ◌&&◌, ◌||◌, ◌==◌,
  if◌then◌else◌, u8, ◌≡◌, refl, arith, ap, ◌∙◌, Bool-cases, inl, inr,
}
use sim68xx.Common.Bits.{bit-lt-two, bit-bit_or, bit_and-pow, bit_or-fields, bit_or-lt}
use sim68xx.Machine.{Machine}
use sim68xx.Machine.Reg.{nonzero}
use sim68xx.Memory.{ireg_putb, ireg_putw}
use sim68xx.H6303.Registers.{frc, ocr1, ocr2, tcsr1, tcsr2, tcsr3, tconr, t2cnt, ocf1, ocf2, te2}
use sim68xx.H6303.Timer.{
  compare_one, compare_two, timer_two, timer_inc, matches, t2cnt_get_prescale_bits,
}

-- The word at an offset of the internal registers.
abbrev pub word : ℕ → Machine → ℕ
word offs m = m.iram offs * 256 + m.iram (offs + 1)

abbrev pub Bytes : Machine → Type 0
Bytes m = (i : ℕ) → m.iram i < 2 ^ 8

pub getw-word :
    (offs : ℕ) (m : Machine)
    → Bytes m
    → bit_or (m.iram offs * 2 ^ 8) (m.iram (offs + 1)) ≡ word offs m
getw-word offs m h = bit_or-fields 8 (m.iram offs) (m.iram (offs + 1)) (h (offs + 1))

-- The byte at `j` after a match at `target` sets the flag `f` of the register at `r`.
abbrev marked : ℕ → ℕ → ℕ → ℕ → ℕ → ℕ → Machine → ℕ
marked r f old new target j m =
    if r == j && matches old new target then u8 (bit_or (m.iram r) f) else m.iram j

compare_one-iram :
    (old new j : ℕ) (m : Machine)
    → Bytes m
    → (compare_one old new m).1.iram j ≡ marked tcsr1 ocf1 old new (word ocr1 m) j m
unfolding compare_one ireg_putb
compare_one-iram old new j m h =
    rw (getw-word ocr1 m h) (elim (Bool-cases (matches old new (word ocr1 m))) [
      | inl e ↦ rw e (ground arith)
      | inr e ↦ rw e (ground arith)
    ])

compare_two-iram :
    (old new j : ℕ) (m : Machine)
    → Bytes m
    → (compare_two old new m).1.iram j ≡ marked tcsr2 ocf2 old new (word ocr2 m) j m
unfolding compare_two ireg_putb
compare_two-iram old new j m h =
    rw (getw-word ocr2 m h) (elim (Bool-cases (matches old new (word ocr2 m))) [
      | inl e ↦ rw e (ground arith)
      | inr e ↦ rw e (ground arith)
    ])

-- Timer 2 writes its own two registers only.
timer_two-iram :
    (old new j : ℕ) (m : Machine)
    → (tcsr3 == j) ≡ false
    → (t2cnt == j) ≡ false
    → (timer_two old new m).1.iram j ≡ m.iram j
unfolding timer_two ireg_putb
timer_two-iram old new j m p q =
    elim (Bool-cases (nonzero (bit_and (bit_or (m.iram tcsr3 * 2 ^ 8) (m.iram tconr)) te2))) [
      | inl e ↦ rw e (
          simp q
            (elim (Bool-cases (
              matches (m.iram t2cnt)
                (m.iram t2cnt
                  + (new / 2 ^ (t2cnt_get_prescale_bits m).0
                      - old / 2 ^ (t2cnt_get_prescale_bits m).0))
                (m.iram tconr))) [ inl f ↦ rw f (simp p refl) | inr f ↦ rw f refl ]))
      | inr e ↦ rw e refl
    ]

marked-lt :
    (r f old new target j : ℕ) (m : Machine) → Bytes m → marked r f old new target j m < 2 ^ 8
marked-lt r f old new target j m h = ground (arith, h j)

pub ocf1-on : (x : ℕ) → x < 2 ^ 8 → nonzero (bit_and (u8 (bit_or x ocf1)) ocf1) ≡ true
ocf1-on x h =
    let byte : u8 (bit_or x ocf1) ≡ bit_or x ocf1 =
      omega (arith, bit_or-lt 8 x ocf1 h (omega arith)) in
    rw byte (ground (arith, bit_and-pow 6 (bit_or x ocf1), bit-bit_or 6 x ocf1, bit-lt-two 6 x))

ocf2-on : (x : ℕ) → x < 2 ^ 8 → nonzero (bit_and (u8 (bit_or x ocf2)) ocf2) ≡ true
ocf2-on x h =
    let byte : u8 (bit_or x ocf2) ≡ bit_or x ocf2 =
      omega (arith, bit_or-lt 8 x ocf2 h (omega arith)) in
    rw byte (ground (arith, bit_and-pow 5 (bit_or x ocf2), bit-bit_or 5 x ocf2, bit-lt-two 5 x))

flag-marked :
    (f r old new target : ℕ) (m : Machine)
    → nonzero (bit_and (u8 (bit_or (m.iram r) f)) f) ≡ true
    → nonzero (bit_and (marked r f old new target r m) f)
      ≡ (nonzero (bit_and (m.iram r) f) || matches old new target)
flag-marked f r old new target m on =
    let own : r == r ≡ true = ground arith in
    rw own (elim (Bool-cases (matches old new target)) [
      | inl e ↦ rw e (on ∙ ground arith)
      | inr e ↦ rw e (ground arith)
    ])

-- With internal registers that hold bytes, `timer_inc` of less than 65536 cycles adds them to
-- the free-running counter modulo 65536. OCF1, and OCF2, is set afterwards exactly when it was
-- set before or the counter, without its wrap, reaches OCR1, or OCR2, from below.
pub timer_inc_lem :
    (n : ℕ) (m : Machine)
    → n < 2 ^ 16
    → Bytes m
    → let m' = (timer_inc n m).1 in
      let hit = λ (target : ℕ). matches (word frc m) (word frc m + n) target in
      (word frc m' ≡ (word frc m + n) % 65536)
      × (nonzero (bit_and (m'.iram tcsr1) ocf1)
          ≡ (nonzero (bit_and (m.iram tcsr1) ocf1) || hit (word ocr1 m)))
      × (nonzero (bit_and (m'.iram tcsr2) ocf2)
          ≡ (nonzero (bit_and (m.iram tcsr2) ocf2) || hit (word ocr2 m)))
unfolding timer_inc ireg_putw ireg_putb
timer_inc_lem n m hn h =
    let old = word frc m in
    let new = word frc m + n in
    let bound : old < 65536 = omega (arith, h frc, h (frc + 1)) in
    let wide : (word frc m + n) % 2 ^ 32 ≡ word frc m + n = omega arith in
    let m1 = (compare_one old new m).1 in
    let h1 : Bytes m1 =
      λ i. rw (compare_one-iram old new i m h) (marked-lt tcsr1 ocf1 old new (word ocr1 m) i m h) in
    let m2 = (compare_two old new m1).1 in
    let one : (timer_two old new m2).1.iram tcsr1
        ≡ marked tcsr1 ocf1 old new (word ocr1 m) tcsr1 m =
      timer_two-iram old new tcsr1 m2 refl refl
      ∙ compare_two-iram old new tcsr1 m1 h1
      ∙ compare_one-iram old new tcsr1 m h in
    let target : word ocr2 m1 ≡ word ocr2 m =
      rw (compare_one-iram old new ocr2 m h) (rw (compare_one-iram old new (ocr2 + 1) m h) refl) in
    let two : (timer_two old new m2).1.iram tcsr2
        ≡ marked tcsr2 ocf2 old new (word ocr2 m) tcsr2 m =
      timer_two-iram old new tcsr2 m2 refl refl
      ∙ compare_two-iram old new tcsr2 m1 h1
      ∙ ap (λ t. if matches old new t then u8 (bit_or (m1.iram tcsr2) ocf2) else m1.iram tcsr2)
          target
      ∙ ap (λ t. if matches old new (word ocr2 m) then u8 (bit_or t ocf2) else t)
          (compare_one-iram old new tcsr2 m h) in
    rw (getw-word frc m h) (
      rw wide (
        omega arith,
        rw one (flag-marked ocf1 tcsr1 old new (word ocr1 m) m (ocf1-on (m.iram tcsr1) (h tcsr1))),
        rw two (flag-marked ocf2 tcsr2 old new (word ocr2 m) m (ocf2-on (m.iram tcsr2) (h tcsr2))),
      ))
