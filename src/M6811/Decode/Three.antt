-- ===== src/M6811/Decode/Three.antt =====
-- The entries of table 3 in src/arch/m6811/optab.c are in the order of the opcodes.
use sim68xx.Common.{◌≡◌}
use sim68xx.Common.Lists.{length}
use sim68xx.Memory.{Chip}
use sim68xx.M6811.Decode.Numbers.{Numbered, NumberedRows, Later, traps-Numbered}
use sim68xx.M6811.Optab.{opcodetab3}
use sim68xx.M6811.Optab.Third.{
  third_0, third_1, third_2, third_3, third_4, third_5, third_6, third_7, third_8, third_9, third_a,
  third_b, third_c, third_d, third_e, third_f,
}

module _ ⦃chip : Chip⦄ where
  third_0-Numbered : (length third_0 ≡ 16) × Numbered Later 0 third_0
  unfolding third_0
  third_0-Numbered = traps-Numbered 16 0

  third_1-Numbered : (length third_1 ≡ 16) × Numbered Later 16 third_1
  unfolding third_1
  third_1-Numbered = traps-Numbered 16 16

  third_2-Numbered : (length third_2 ≡ 16) × Numbered Later 32 third_2
  unfolding third_2
  third_2-Numbered = traps-Numbered 16 32

  third_3-Numbered : (length third_3 ≡ 16) × Numbered Later 48 third_3
  unfolding third_3
  third_3-Numbered = traps-Numbered 16 48

  third_4-Numbered : (length third_4 ≡ 16) × Numbered Later 64 third_4
  unfolding third_4
  third_4-Numbered = traps-Numbered 16 64

  third_5-Numbered : (length third_5 ≡ 16) × Numbered Later 80 third_5
  unfolding third_5
  third_5-Numbered = traps-Numbered 16 80

  third_6-Numbered : (length third_6 ≡ 16) × Numbered Later 96 third_6
  unfolding third_6
  third_6-Numbered = traps-Numbered 16 96

  third_7-Numbered : (length third_7 ≡ 16) × Numbered Later 112 third_7
  unfolding third_7
  third_7-Numbered = traps-Numbered 16 112

  third_8-Numbered : (length third_8 ≡ 16) × Numbered Later 128 third_8
  unfolding third_8
  third_8-Numbered = search depth 60

  third_9-Numbered : (length third_9 ≡ 16) × Numbered Later 144 third_9
  unfolding third_9
  third_9-Numbered = search depth 60

  third_a-Numbered : (length third_a ≡ 16) × Numbered Later 160 third_a
  unfolding third_a
  third_a-Numbered = search depth 60

  third_b-Numbered : (length third_b ≡ 16) × Numbered Later 176 third_b
  unfolding third_b
  third_b-Numbered = search depth 60

  third_c-Numbered : (length third_c ≡ 16) × Numbered Later 192 third_c
  unfolding third_c
  third_c-Numbered = traps-Numbered 16 192

  third_d-Numbered : (length third_d ≡ 16) × Numbered Later 208 third_d
  unfolding third_d
  third_d-Numbered = traps-Numbered 16 208

  third_e-Numbered : (length third_e ≡ 16) × Numbered Later 224 third_e
  unfolding third_e
  third_e-Numbered = search depth 60

  third_f-Numbered : (length third_f ≡ 16) × Numbered Later 240 third_f
  unfolding third_f
  third_f-Numbered = traps-Numbered 16 240

  pub opcodetab3-Numbered : NumberedRows Later 0 opcodetab3
  opcodetab3-Numbered =
      search
        (
          third_0-Numbered, third_1-Numbered, third_2-Numbered, third_3-Numbered, third_4-Numbered,
          third_5-Numbered, third_6-Numbered, third_7-Numbered, third_8-Numbered, third_9-Numbered,
          third_a-Numbered, third_b-Numbered, third_c-Numbered, third_d-Numbered, third_e-Numbered,
          third_f-Numbered,
        )
        depth 24
