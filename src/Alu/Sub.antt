-- ===== src/Alu/Sub.antt =====
-- `alu_subbyte`, `alu_subword`, `alu_cmpword` and `alu_negbyte`: the difference and the flags.
use sim68xx.Common.{
  ℕ, ◌+◌, ◌/◌, ◌-◌, ◌%◌, ◌<◌, bit_and, ◌||◌, ◌==◌, leb, ltb, sub32, sub64, ◌≡◌, arith, refl, ap,
  ◌∙◌,
}
use sim68xx.Common.Bits.{bit_and-pow}
use sim68xx.Machine.{Machine}
use sim68xx.Machine.Reg.{Flag, nonzero}
use sim68xx.Machine.Flags.{flag_of-with_flag}
use sim68xx.Alu.Spec.{
  flag, biased8, biased16, KeepsAllButCcr, Signs8, Signs16, sign8, sign16, low8, low16, parity8,
  parity16,
}
use sim68xx.Alu.{alu_subbyte, alu_subword, alu_cmpword}

module _ (a b c : ℕ) (ha : a < 256) (hb : b < 256) (hc : c < 2) where
  abbrev diff : ℕ
  diff = sub32 (sub32 a b) c

  borrow8 : nonzero (bit_and (diff / 2) 0x80) ≡ ltb a (b + c)
  borrow8 = ground (arith, bit_and-pow 7 (diff / 2))

  diff8 : diff % 256 ≡ (a + 512 - b - c) % 256
  diff8 = omega arith

  overflow8 :
      nonzero ((a / 128 % 2 + b / 128 % 2 + diff / 128 % 2 + diff / 256 % 2) % 2)
      ≡ (ltb (biased8 a + 128) (biased8 b + c) || ltb (biased8 b + c + 127) (biased8 a))
  overflow8 = ground arith

-- `alu_subbyte` on two bytes and a borrow returns a `u_int` whose low byte is the difference modulo
-- 256. C is set exactly when a borrow is needed, V when the difference of the two's complement
-- values does not fit a byte; N and Z describe the low byte; H and all else are left alone.
pub alu_subbyte_lem :
    (a b c : ℕ) (m : Machine)
    → a < 256
    → b < 256
    → c < 2
    → let (r, m') = alu_subbyte a b c m in
      (r % 256 ≡ (a + 512 - b - c) % 256)
      × (flag Flag.c m' ≡ ltb a (b + c))
      × (flag Flag.h m' ≡ flag Flag.h m)
      × (flag Flag.v m'
          ≡ (ltb (biased8 a + 128) (biased8 b + c) || ltb (biased8 b + c + 127) (biased8 a)))
      × Signs8 (a + 512 - b - c) m'
      × KeepsAllButCcr m m'
unfolding alu_subbyte
alu_subbyte_lem a b c m ha hb hc =
    let ea : a % 256 ≡ a = omega arith in
    let eb : b % 256 ≡ b = omega arith in
    let ec : c % 256 ≡ c = omega arith in
    simp (flag_of-with_flag, ea, eb, ec)
      (
        diff8 a b c ha hb hc,
        borrow8 a b c ha hb hc,
        refl,
        parity8 a b (diff a b c ha hb hc) ∙ overflow8 a b c ha hb hc,
        (
          sign8 (diff a b c ha hb hc) ∙ ap (leb 128) (diff8 a b c ha hb hc),
          ap (λ t. t == 0) (low8 (diff a b c ha hb hc) ∙ diff8 a b c ha hb hc),
        ),
        (refl, refl, refl, refl),
      )

module _ (a b c : ℕ) (ha : a < 65536) (hb : b < 65536) (hc : c < 2) where
  abbrev diff_word : ℕ
  diff_word = sub64 (sub64 a b) c

  borrow16 : nonzero (bit_and (diff_word / 2) 0x8000) ≡ ltb a (b + c)
  borrow16 = ground (arith, bit_and-pow 15 (diff_word / 2))

  diff16 : diff_word % 65536 ≡ (a + 131072 - b - c) % 65536
  diff16 = omega arith

  overflow16 :
      nonzero ((a / 32768 % 2 + b / 32768 % 2 + diff_word / 32768 % 2 + diff_word / 65536 % 2) % 2)
      ≡ (ltb (biased16 a + 32768) (biased16 b + c) || ltb (biased16 b + c + 32767) (biased16 a))
  overflow16 = ground arith

-- `alu_subword` on two words and a borrow returns a `u_int` whose low word is the difference
-- modulo 65536. C is set exactly when a borrow is needed, V when the difference of the two's
-- complement values does not fit a word; N and Z describe the low word. Nothing else changes.
alu_subword_lem :
    (a b c : ℕ) (m : Machine)
    → a < 65536
    → b < 65536
    → c < 2
    → let (r, m') = alu_subword a b c m in
      (r % 65536 ≡ (a + 131072 - b - c) % 65536)
      × (flag Flag.c m' ≡ ltb a (b + c))
      × (flag Flag.h m' ≡ flag Flag.h m)
      × (flag Flag.v m' ≡ (
          ltb (biased16 a + 32768) (biased16 b + c) || ltb (biased16 b + c + 32767) (biased16 a)))
      × Signs16 (a + 131072 - b - c) m'
      × KeepsAllButCcr m m'
unfolding alu_subword
alu_subword_lem a b c m ha hb hc =
    let ec : c % 256 ≡ c = omega arith in
    simp (flag_of-with_flag, ec)
      (
        diff16 a b c ha hb hc,
        borrow16 a b c ha hb hc,
        refl,
        parity16 a b (diff_word a b c ha hb hc) ∙ overflow16 a b c ha hb hc,
        (
          sign16 (diff_word a b c ha hb hc) ∙ ap (leb 32768) (diff16 a b c ha hb hc),
          ap (λ t. t == 0) (low16 (diff_word a b c ha hb hc) ∙ diff16 a b c ha hb hc),
        ),
        (refl, refl, refl, refl),
      )

-- `alu_cmpword` returns what `alu_subword` returns, and sets the flags as it does, but for C, which
-- stays as it was.
alu_cmpword-alu_subword :
    (a b c : ℕ) (m : Machine)
    → let (r, m') = alu_cmpword a b c m in
      let (q, m'') = alu_subword a b c m in
      (r ≡ q)
      × (flag Flag.c m' ≡ flag Flag.c m)
      × (flag Flag.n m' ≡ flag Flag.n m'')
      × (flag Flag.z m' ≡ flag Flag.z m'')
      × (flag Flag.v m' ≡ flag Flag.v m'')
      × (flag Flag.h m' ≡ flag Flag.h m)
      × KeepsAllButCcr m m'
unfolding alu_cmpword alu_subword
alu_cmpword-alu_subword a b c m =
    simp flag_of-with_flag (refl, refl, refl, refl, refl, refl, (refl, refl, refl, refl))
