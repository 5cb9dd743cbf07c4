-- ===== src/M6811/Decode/Two.antt =====
-- The entries of table 2 in src/arch/m6811/optab.c are in the order of the opcodes.
use sim68xx.Common.{◌≡◌}
use sim68xx.Common.Lists.{length}
use sim68xx.Memory.{Chip}
use sim68xx.M6811.Decode.Numbers.{Numbered, NumberedRows, Later, traps-Numbered}
use sim68xx.M6811.Optab.{opcodetab2}
use sim68xx.M6811.Optab.SecondLow.{
  second_0, second_1, second_2, second_3, second_4, second_5, second_6, second_7,
}
use sim68xx.M6811.Optab.SecondHigh.{
  second_8, second_9, second_a, second_b, second_c, second_d, second_e, second_f,
}

module _ ⦃chip : Chip⦄ where
  second_0-Numbered : (length second_0 ≡ 16) × Numbered Later 0 second_0
  unfolding second_0
  second_0-Numbered = search depth 60

  second_1-Numbered : (length second_1 ≡ 16) × Numbered Later 16 second_1
  unfolding second_1
  second_1-Numbered = search depth 60

  second_2-Numbered : (length second_2 ≡ 16) × Numbered Later 32 second_2
  unfolding second_2
  second_2-Numbered = traps-Numbered 16 32

  second_3-Numbered : (length second_3 ≡ 16) × Numbered Later 48 second_3
  unfolding second_3
  second_3-Numbered = search depth 60

  second_4-Numbered : (length second_4 ≡ 16) × Numbered Later 64 second_4
  unfolding second_4
  second_4-Numbered = traps-Numbered 16 64

  second_5-Numbered : (length second_5 ≡ 16) × Numbered Later 80 second_5
  unfolding second_5
  second_5-Numbered = traps-Numbered 16 80

  second_6-Numbered : (length second_6 ≡ 16) × Numbered Later 96 second_6
  unfolding second_6
  second_6-Numbered = search depth 60

  second_7-Numbered : (length second_7 ≡ 16) × Numbered Later 112 second_7
  unfolding second_7
  second_7-Numbered = traps-Numbered 16 112

  second_8-Numbered : (length second_8 ≡ 16) × Numbered Later 128 second_8
  unfolding second_8
  second_8-Numbered = search depth 60

  second_9-Numbered : (length second_9 ≡ 16) × Numbered Later 144 second_9
  unfolding second_9
  second_9-Numbered = search depth 60

  second_a-Numbered : (length second_a ≡ 16) × Numbered Later 160 second_a
  unfolding second_a
  second_a-Numbered = search depth 60

  second_b-Numbered : (length second_b ≡ 16) × Numbered Later 176 second_b
  unfolding second_b
  second_b-Numbered = search depth 60

  second_c-Numbered : (length second_c ≡ 16) × Numbered Later 192 second_c
  unfolding second_c
  second_c-Numbered = search depth 60

  second_d-Numbered : (length second_d ≡ 16) × Numbered Later 208 second_d
  unfolding second_d
  second_d-Numbered = search depth 60

  second_e-Numbered : (length second_e ≡ 16) × Numbered Later 224 second_e
  unfolding second_e
  second_e-Numbered = search depth 60

  second_f-Numbered : (length second_f ≡ 16) × Numbered Later 240 second_f
  unfolding second_f
  second_f-Numbered = search depth 60

  pub opcodetab2-Numbered : NumberedRows Later 0 opcodetab2
  opcodetab2-Numbered =
      search
        (
          second_0-Numbered, second_1-Numbered, second_2-Numbered, second_3-Numbered,
          second_4-Numbered, second_5-Numbered, second_6-Numbered, second_7-Numbered,
          second_8-Numbered, second_9-Numbered, second_a-Numbered, second_b-Numbered,
          second_c-Numbered, second_d-Numbered, second_e-Numbered, second_f-Numbered,
        )
        depth 24
