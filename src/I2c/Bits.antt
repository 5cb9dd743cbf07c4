-- ===== src/I2c/Bits.antt =====
-- Bytes as bits: eight bits stored from the highest on make the byte they come from.
use mathlib.Core.Path.{fun_ext}
use sim68xx.Common.{
  ℕ, ◌+◌, ◌-◌, ◌*◌, ◌/◌, ◌%◌, ◌^◌, ◌<◌, Bool, ◌==◌, List, [], ◌∷◌, ◌≡◌, refl, sym, ◌∙◌, arith,
  Bool-cases, inl, inr,
}
use sim68xx.Common.Bits.{bit, bit-lt-two}
use sim68xx.Machine.{update}
use sim68xx.Machine.Reg.{Flag, nonzero, mask, flag_of, with_flag}
use sim68xx.Machine.Flags.{flag_of-bit, flag_of-with_flag, same, index}
use sim68xx.Invariant.Registers.{with_flag-lt}
use sim68xx.I2c.{i2c_set_bit}

-- The flags name the bits of a byte; here from the highest on.
abbrev pub bits_of : ℕ → List Bool
bits_of x =
    flag_of Flag.s x
    ∷ flag_of Flag.x x
    ∷ flag_of Flag.h x
    ∷ flag_of Flag.i x
    ∷ flag_of Flag.n x
    ∷ flag_of Flag.z x
    ∷ flag_of Flag.v x
    ∷ flag_of Flag.c x
    ∷ []

one_bit : (x y k : ℕ) → nonzero (bit x k) ≡ nonzero (bit y k) → bit x k ≡ bit y k
one_bit x y k h = ground (arith, bit-lt-two k x, bit-lt-two k y)

by_flag : (f : Flag) (x y : ℕ) → flag_of f x ≡ flag_of f y → bit x (index f) ≡ bit y (index f)
by_flag f x y h = one_bit x y (index f) (sym (flag_of-bit f x) ∙ h ∙ flag_of-bit f y)

same_flags : (x y : ℕ) → x < 256 → y < 256 → ((f : Flag) → flag_of f x ≡ flag_of f y) → x ≡ y
same_flags x y hx hy h =
    let b = λ (f : Flag). by_flag f x y (h f) in
    omega (arith, b Flag.c, b Flag.v, b Flag.z, b Flag.n, b Flag.i, b Flag.h, b Flag.x, b Flag.s)

-- The byte after the eight bits were stored, whatever it was.
abbrev pub stored_bits : ℕ → ℕ → ℕ
stored_bits value old =
    let s = with_flag Flag.s (flag_of Flag.s value) old in
    let x = with_flag Flag.x (flag_of Flag.x value) s in
    let h = with_flag Flag.h (flag_of Flag.h value) x in
    let i = with_flag Flag.i (flag_of Flag.i value) h in
    let n = with_flag Flag.n (flag_of Flag.n value) i in
    let z = with_flag Flag.z (flag_of Flag.z value) n in
    let v = with_flag Flag.v (flag_of Flag.v value) z in with_flag Flag.c (flag_of Flag.c value) v

stored_flag : (f : Flag) (value old : ℕ) → flag_of f (stored_bits value old) ≡ flag_of f value
stored_flag Flag.c value old = simp flag_of-with_flag refl
stored_flag Flag.v value old = simp flag_of-with_flag refl
stored_flag Flag.z value old = simp flag_of-with_flag refl
stored_flag Flag.n value old = simp flag_of-with_flag refl
stored_flag Flag.i value old = simp flag_of-with_flag refl
stored_flag Flag.h value old = simp flag_of-with_flag refl
stored_flag Flag.x value old = simp flag_of-with_flag refl
stored_flag Flag.s value old = simp flag_of-with_flag refl

stored_bits-lt : (value old : ℕ) → old < 256 → stored_bits value old < 256
stored_bits-lt value old small = byte Flag.c _ (
    byte Flag.v _ (
      byte Flag.z _
        (byte Flag.n _ (byte Flag.i _ (byte Flag.h _ (byte Flag.x _ (byte Flag.s _ small)))))))
  where
    byte : (f : Flag) (r : ℕ) → r < 256 → with_flag f (flag_of f value) r < 256
    byte f r h = with_flag-lt f (flag_of f value) r h

pub stored_bits-eq : (value old : ℕ) → value < 256 → old < 256 → stored_bits value old ≡ value
stored_bits-eq value old hv ho =
    same_flags (stored_bits value old) value (stored_bits-lt value old ho) hv
      (λ f. stored_flag f value old)

-- The same from the lowest bit on.
abbrev pub stored_up : ℕ → ℕ → ℕ
stored_up value old =
    let c = with_flag Flag.c (flag_of Flag.c value) old in
    let v = with_flag Flag.v (flag_of Flag.v value) c in
    let z = with_flag Flag.z (flag_of Flag.z value) v in
    let n = with_flag Flag.n (flag_of Flag.n value) z in
    let i = with_flag Flag.i (flag_of Flag.i value) n in
    let h = with_flag Flag.h (flag_of Flag.h value) i in
    let x = with_flag Flag.x (flag_of Flag.x value) h in with_flag Flag.s (flag_of Flag.s value) x

stored_up_flag : (f : Flag) (value old : ℕ) → flag_of f (stored_up value old) ≡ flag_of f value
stored_up_flag Flag.c value old = simp flag_of-with_flag refl
stored_up_flag Flag.v value old = simp flag_of-with_flag refl
stored_up_flag Flag.z value old = simp flag_of-with_flag refl
stored_up_flag Flag.n value old = simp flag_of-with_flag refl
stored_up_flag Flag.i value old = simp flag_of-with_flag refl
stored_up_flag Flag.h value old = simp flag_of-with_flag refl
stored_up_flag Flag.x value old = simp flag_of-with_flag refl
stored_up_flag Flag.s value old = simp flag_of-with_flag refl

stored_up-lt : (value old : ℕ) → old < 256 → stored_up value old < 256
stored_up-lt value old small = byte Flag.s _ (
    byte Flag.x _ (
      byte Flag.h _
        (byte Flag.i _ (byte Flag.n _ (byte Flag.z _ (byte Flag.v _ (byte Flag.c _ small)))))))
  where
    byte : (f : Flag) (r : ℕ) → r < 256 → with_flag f (flag_of f value) r < 256
    byte f r h = with_flag-lt f (flag_of f value) r h

pub stored_up-eq : (value old : ℕ) → value < 256 → old < 256 → stored_up value old ≡ value
stored_up-eq value old hv ho =
    same_flags (stored_up value old) value (stored_up-lt value old ho) hv
      (λ f. stored_up_flag f value old)

pub i2c_set_bit-eq :
    (buf : ℕ → ℕ) (k j : ℕ) (f : Flag) (value : Bool)
    → j < 8
    → mask f ≡ 2 ^ (7 - j)
    → i2c_set_bit buf (8 * k + j) value ≡ update buf k (with_flag f value (buf k))
unfolding i2c_set_bit with_flag
i2c_set_bit-eq buf k j f value below same =
    let byte : (8 * k + j) / 8 ≡ k = omega arith in
    let bit_no : (8 * k + j) % 8 ≡ j = omega arith in rw byte (rw bit_no (rw same refl))

pub update_twice : (buf : ℕ → ℕ) (k x y : ℕ) → update (update buf k x) k y ≡ update buf k y
update_twice buf k x y =
    fun_ext (λ j. elim (Bool-cases (k == j)) [ inl e ↦ rw e refl | inr e ↦ rw e refl ])

pub update_own : (buf : ℕ → ℕ) (k : ℕ) → update buf k (buf k) ≡ buf
update_own buf k = fun_ext (λ j. ground arith)
