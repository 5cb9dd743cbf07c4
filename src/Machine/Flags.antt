-- ===== src/Machine/Flags.antt =====
-- The flags of the condition code register: a written flag reads back, and the others keep.
use sim68xx.Common.{
  ℕ, ◌-◌, ◌^◌, bit_and, bit_or, Bool, true, false, not, ◌≡◌, refl, ◌==◌, arith, if◌then◌else◌,
}
use sim68xx.Common.Bits.{bit, bit-lt-two, bit-bit_and, bit-bit_or, bit_and-pow}
use sim68xx.Machine.Reg.{Flag, nonzero, truth, mask, flag_of, with_flag}

abbrev pub index : Flag → ℕ
index Flag.c = 0
index Flag.v = 1
index Flag.z = 2
index Flag.n = 3
index Flag.i = 4
index Flag.h = 5
index Flag.x = 6
index Flag.s = 7

abbrev pub same : Flag → Flag → Bool
same f g = index f == index g

mask-pow : (f : Flag) → mask f ≡ 2 ^ index f
mask-pow Flag.c = refl
mask-pow _ = refl

bit-mask : (f g : Flag) → bit (mask f) (index g) ≡ truth (same f g)
bit-mask Flag.c Flag.c = refl
bit-mask Flag.v Flag.c = refl
bit-mask Flag.z Flag.c = refl
bit-mask Flag.n Flag.c = refl
bit-mask Flag.i Flag.c = refl
bit-mask Flag.h Flag.c = refl
bit-mask Flag.x Flag.c = refl
bit-mask Flag.s Flag.c = refl
bit-mask _ _ = refl

bit-complement : (f g : Flag) → bit (0xff - mask f) (index g) ≡ truth (not (same f g))
bit-complement Flag.c Flag.c = refl
bit-complement Flag.v Flag.c = refl
bit-complement Flag.z Flag.c = refl
bit-complement Flag.n Flag.c = refl
bit-complement Flag.i Flag.c = refl
bit-complement Flag.h Flag.c = refl
bit-complement Flag.x Flag.c = refl
bit-complement Flag.s Flag.c = refl
bit-complement _ _ = refl

pub flag_of-bit : (f : Flag) (r : ℕ) → flag_of f r ≡ nonzero (bit r (index f))
unfolding flag_of
flag_of-bit Flag.c r = ground (arith, bit_and-pow 0 r)
flag_of-bit Flag.v r = ground (arith, bit_and-pow 1 r)
flag_of-bit Flag.z r = ground (arith, bit_and-pow 2 r)
flag_of-bit Flag.n r = ground (arith, bit_and-pow 3 r)
flag_of-bit Flag.i r = ground (arith, bit_and-pow 4 r)
flag_of-bit Flag.h r = ground (arith, bit_and-pow 5 r)
flag_of-bit Flag.x r = ground (arith, bit_and-pow 6 r)
flag_of-bit Flag.s r = ground (arith, bit_and-pow 7 r)

pub flag_of-with_flag :
    (f g : Flag) (e : Bool) (r : ℕ)
    → flag_of g (with_flag f e r) ≡ (if same f g then e else flag_of g r)
unfolding with_flag
flag_of-with_flag f g true r = ground (
  arith,
  flag_of-bit g r,
  flag_of-bit g (bit_or r (mask f)),
  bit-bit_or (index g) r (mask f),
  bit-mask f g,
  bit-lt-two (index g) r,
)
flag_of-with_flag f g false r = ground (
  arith,
  flag_of-bit g r,
  flag_of-bit g (bit_and r (0xff - mask f)),
  bit-bit_and (index g) r (0xff - mask f),
  bit-complement f g,
  bit-lt-two (index g) r,
)

pub truth-nonzero : (x : Bool) → nonzero (truth x) ≡ x
truth-nonzero true = refl
truth-nonzero false = refl
