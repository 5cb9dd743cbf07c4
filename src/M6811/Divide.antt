-- ===== src/M6811/Divide.antt =====
-- `idiv_inh` and `fdiv_inh` of opfunc.c against the division of numbers.
use native.Mathlib.Nat.{
  div-le_self, div-lt_iff_lt-mul, div-add-mod', mod-lt, mul-div_right, mul-mod_right,
}
use sim68xx.Common.{
  ℕ, zero, suc, ◌+◌, ◌*◌, ◌/◌, ◌%◌, ◌^◌, ◌<◌, bit_or, true, false, ltb, ◌==◌, if◌then◌else◌, u8,
  u16, u32, ◌≡◌, ◌⊎◌, refl, arith, ap, ◌∙◌, Bool-cases, inl, inr,
}
use sim68xx.Common.Bits.{bit_or-fields}
use sim68xx.Machine.{Machine}
use sim68xx.Machine.Reg.{Flag, set_flag, reg_setaccd, reg_setix}
use sim68xx.Machine.Flags.{flag_of-with_flag}
use sim68xx.Invariant.{IsValid}
use sim68xx.Alu.Spec.{flag}
use sim68xx.M6811.Opfunc.Divide.{idiv_by_zero, idiv_result, idiv_inh, fdiv_result, fdiv_inh}

-- The double accumulator as a number.
abbrev pub accd : Machine → ℕ
accd m = m.regs.a * 256 + m.regs.b

read_accd : (m : Machine) → IsValid m → bit_or (m.regs.a * 2 ^ 8) m.regs.b ≡ accd m
read_accd m v = bit_or-fields 8 m.regs.a m.regs.b v.b_byte

-- The halves of a word, as the double accumulator holds them.
halves : (r : ℕ) → r < 65536 → u8 (u32 r / 2 ^ 8) * 256 + u8 (u32 r) ≡ r
halves r h = omega arith

quotient-fits : (d x : ℕ) → d < 65536 → u16 (d / x) ≡ d / x
quotient-fits d x h = omega (arith, div-le_self d x)

idiv_result_lem :
    (d x : ℕ) (m : Machine)
    → d < 65536
    → 0 < x
    → x < 65536
    → let m' = (idiv_result d x m).1 in
      (m'.regs.ix * x + accd m' ≡ d)
      × (accd m' < x)
      × (flag Flag.z m' ≡ (accd m' == 0))
      × (flag Flag.v m' ≡ flag Flag.v m)
      × (flag Flag.c m' ≡ false)
unfolding idiv_result reg_setix reg_setaccd set_flag
idiv_result_lem d x m hd hx small =
    let rem = mod-lt d hx in
    let whole = halves (d % x) (omega (arith, rem)) in
    let fits : ltb 65535 (d % x) ≡ false = ground (arith, rem) in
    simp (flag_of-with_flag, quotient-fits d x hd, whole, fits)
      (div-add-mod' d x, rem, refl, refl, refl)

-- On a valid machine, `idiv_inh` with 0 in X sets X to 65535, D to 0 and C. Else it leaves in X the
-- quotient of D by X and in D the remainder, and clears C; Z tells whether the remainder is 0. It
-- clears V.
pub idiv_inh_lem :
    (m : Machine)
    → IsValid m
    → let m' = (idiv_inh m).1 in
      (flag Flag.v m' ≡ false)
      × (((m.regs.ix ≡ 0) × (m'.regs.ix ≡ 65535) × (accd m' ≡ 0) × (flag Flag.c m' ≡ true))
          ⊎ ((m'.regs.ix * m.regs.ix + accd m' ≡ accd m)
              × (accd m' < m.regs.ix)
              × (flag Flag.z m' ≡ (accd m' == 0))
              × (flag Flag.c m' ≡ false)))
unfolding idiv_inh idiv_by_zero reg_setix reg_setaccd set_flag
idiv_inh_lem m v = elim (Bool-cases (m.regs.ix == 0)) [
  | inl e ↦
      rw (read_accd m v)
        (rw e (simp flag_of-with_flag (refl, inl (ground arith, refl, refl, refl))))
  | inr e ↦
      let m1 = (set_flag Flag.v false m).1 in
      let (whole, rest, none_left, over, carry) =
        idiv_result_lem (accd m) m.regs.ix m1 (omega (arith, v.a_byte, v.b_byte)) (ground arith)
          (omega (arith, v.ix_word)) in
      rw (read_accd m v) (
        rw e (
          over ∙ flag_of-with_flag Flag.v Flag.v false m.regs.ccr,
          inr (whole, rest, none_left, carry),
        ))
]

-- What the fraction leaves behind, for a divisor not below the dividend.
fdiv_result_lem :
    (d x : ℕ) (m : Machine)
    → d < x
    → x < 65536
    → let m' = (fdiv_result d x m).1 in
      (m'.regs.ix * x + accd m' ≡ d * 65536)
      × (accd m' < x)
      × (flag Flag.z m' ≡ (accd m' == 0))
      × (m'.undefined ≡ m.undefined)
unfolding fdiv_result reg_setix reg_setaccd set_flag
fdiv_result_lem d x m below small =
    let wide : u32 (d * 2 ^ 16) ≡ d * 65536 = omega arith in
    let rem = mod-lt (d * 65536) {m = x} (omega arith) in
    let whole = halves (d * 65536 % x) (omega (arith, rem)) in
    let fits : u16 (d * 65536 / x) ≡ d * 65536 / x = omega (
      arith,
      (div-lt_iff_lt-mul {k = x} {x = d * 65536} {y = 65536} (omega arith)).1 (omega arith),
    ) in
    let some_x : x == 0 ≡ false = ground arith in
    rw wide (
      rw some_x (
        simp (flag_of-with_flag, whole, fits)
          (
            div-add-mod' (d * 65536) x,
            rem,
            ap (λ t. t == 0)
                (bit_or-fields 8 (u8 (u32 (d * 65536 % x) / 2 ^ 8)) (u8 (u32 (d * 65536 % x)))
                    (omega arith)
                  ∙ whole),
            refl,
          )))

-- What it leaves behind for two equal numbers.
fdiv_result_equal :
    (x : ℕ) (m : Machine)
    → x < 65536
    → let m' = (fdiv_result x x m).1 in
      (m'.regs.ix ≡ 0) × (accd m' ≡ 0) × (m'.undefined ≡ (if x == 0 then true else m.undefined))
unfolding fdiv_result reg_setix reg_setaccd set_flag
fdiv_result_equal zero m small = (refl, refl, refl)
fdiv_result_equal (suc x) m small =
    let wide : u32 (suc x * 2 ^ 16) ≡ suc x * 65536 = omega arith in
    let whole : suc x * 65536 / suc x ≡ 65536 = mul-div_right 65536 (omega arith) in
    let none_left : suc x * 65536 % suc x ≡ 0 = mul-mod_right (suc x) 65536 in
    let positive : suc x == 0 ≡ false = ground arith in
    rw wide (rw whole (rw none_left (rw positive (refl, refl, refl))))

-- On a valid machine, `fdiv_inh` with D above X only sets V. With D below X, it leaves in X the quotient
-- of D * 65536 by X and in D the remainder, and Z tells whether the remainder is 0. With D equal to X,
-- whose quotient 65536 has no room, X and D become 0, and for 0 by 0 the division is undefined.
pub fdiv_inh_lem :
    (m : Machine)
    → IsValid m
    → let m' = (fdiv_inh m).1 in
      ((m.regs.ix < accd m) × (m' ≡ (set_flag Flag.v true m).1))
      ⊎ ((accd m ≡ m.regs.ix)
          × (m'.regs.ix ≡ 0)
          × (accd m' ≡ 0)
          × (m'.undefined ≡ (if m.regs.ix == 0 then true else m.undefined)))
      ⊎ ((accd m < m.regs.ix)
          × (m'.regs.ix * m.regs.ix + accd m' ≡ accd m * 65536)
          × (accd m' < m.regs.ix)
          × (flag Flag.z m' ≡ (accd m' == 0))
          × (m'.undefined ≡ m.undefined))
unfolding fdiv_inh
fdiv_inh_lem m v = rw (read_accd m v) (elim (Bool-cases (ltb m.regs.ix (accd m))) [
  | inl e ↦ rw e (inl (ground arith, refl))
  | inr e ↦ rw e (elim (Bool-cases (accd m == m.regs.ix)) [
    | inl same ↦
        let (whole, rest, undef) = fdiv_result_equal m.regs.ix m v.ix_word in
        let equal : accd m ≡ m.regs.ix = ground arith in
        inr (inl (equal, rw equal whole, rw equal rest, rw equal undef))
    | inr less ↦
        let (whole, rest, zero_flag, kept) =
          fdiv_result_lem (accd m) m.regs.ix m (ground arith) v.ix_word in
        inr (inr (ground arith, whole, rest, zero_flag, kept))
  ])
])
