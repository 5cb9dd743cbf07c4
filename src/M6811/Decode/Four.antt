-- ===== src/M6811/Decode/Four.antt =====
-- The entries of table 4 in src/arch/m6811/optab.c are in the order of the opcodes.
use sim68xx.Common.{◌≡◌}
use sim68xx.Common.Lists.{length}
use sim68xx.Memory.{Chip}
use sim68xx.M6811.Decode.Numbers.{Numbered, NumberedRows, Later, traps-Numbered}
use sim68xx.M6811.Optab.{opcodetab4}
use sim68xx.M6811.Optab.Fourth.{
  fourth_0, fourth_1, fourth_2, fourth_3, fourth_4, fourth_5, fourth_6, fourth_7, fourth_8,
  fourth_9, fourth_a, fourth_b, fourth_c, fourth_d, fourth_e, fourth_f,
}

module _ ⦃chip : Chip⦄ where
  fourth_0-Numbered : (length fourth_0 ≡ 16) × Numbered Later 0 fourth_0
  unfolding fourth_0
  fourth_0-Numbered = traps-Numbered 16 0

  fourth_1-Numbered : (length fourth_1 ≡ 16) × Numbered Later 16 fourth_1
  unfolding fourth_1
  fourth_1-Numbered = traps-Numbered 16 16

  fourth_2-Numbered : (length fourth_2 ≡ 16) × Numbered Later 32 fourth_2
  unfolding fourth_2
  fourth_2-Numbered = traps-Numbered 16 32

  fourth_3-Numbered : (length fourth_3 ≡ 16) × Numbered Later 48 fourth_3
  unfolding fourth_3
  fourth_3-Numbered = traps-Numbered 16 48

  fourth_4-Numbered : (length fourth_4 ≡ 16) × Numbered Later 64 fourth_4
  unfolding fourth_4
  fourth_4-Numbered = traps-Numbered 16 64

  fourth_5-Numbered : (length fourth_5 ≡ 16) × Numbered Later 80 fourth_5
  unfolding fourth_5
  fourth_5-Numbered = traps-Numbered 16 80

  fourth_6-Numbered : (length fourth_6 ≡ 16) × Numbered Later 96 fourth_6
  unfolding fourth_6
  fourth_6-Numbered = traps-Numbered 16 96

  fourth_7-Numbered : (length fourth_7 ≡ 16) × Numbered Later 112 fourth_7
  unfolding fourth_7
  fourth_7-Numbered = traps-Numbered 16 112

  fourth_8-Numbered : (length fourth_8 ≡ 16) × Numbered Later 128 fourth_8
  unfolding fourth_8
  fourth_8-Numbered = traps-Numbered 16 128

  fourth_9-Numbered : (length fourth_9 ≡ 16) × Numbered Later 144 fourth_9
  unfolding fourth_9
  fourth_9-Numbered = traps-Numbered 16 144

  fourth_a-Numbered : (length fourth_a ≡ 16) × Numbered Later 160 fourth_a
  unfolding fourth_a
  fourth_a-Numbered = search depth 60

  fourth_b-Numbered : (length fourth_b ≡ 16) × Numbered Later 176 fourth_b
  unfolding fourth_b
  fourth_b-Numbered = traps-Numbered 16 176

  fourth_c-Numbered : (length fourth_c ≡ 16) × Numbered Later 192 fourth_c
  unfolding fourth_c
  fourth_c-Numbered = traps-Numbered 16 192

  fourth_d-Numbered : (length fourth_d ≡ 16) × Numbered Later 208 fourth_d
  unfolding fourth_d
  fourth_d-Numbered = traps-Numbered 16 208

  fourth_e-Numbered : (length fourth_e ≡ 16) × Numbered Later 224 fourth_e
  unfolding fourth_e
  fourth_e-Numbered = search depth 60

  fourth_f-Numbered : (length fourth_f ≡ 16) × Numbered Later 240 fourth_f
  unfolding fourth_f
  fourth_f-Numbered = traps-Numbered 16 240

  pub opcodetab4-Numbered : NumberedRows Later 0 opcodetab4
  opcodetab4-Numbered =
      search
        (
          fourth_0-Numbered, fourth_1-Numbered, fourth_2-Numbered, fourth_3-Numbered,
          fourth_4-Numbered, fourth_5-Numbered, fourth_6-Numbered, fourth_7-Numbered,
          fourth_8-Numbered, fourth_9-Numbered, fourth_a-Numbered, fourth_b-Numbered,
          fourth_c-Numbered, fourth_d-Numbered, fourth_e-Numbered, fourth_f-Numbered,
        )
        depth 24
