-- ===== src/M6811/Decode/One.antt =====
-- The entries of table 1 in src/arch/m6811/optab.c are in the order of the opcodes.
use sim68xx.Common.{◌≡◌}
use sim68xx.Common.Lists.{length}
use sim68xx.Memory.{Chip}
use sim68xx.M6811.Decode.Numbers.{Numbered, NumberedRows, First}
use sim68xx.M6811.Optab.{opcodetab}
use sim68xx.M6811.Optab.FirstLow.{first_0, first_1, first_2, first_3, first_4, first_5}
use sim68xx.M6811.Optab.FirstMiddle.{first_6, first_7, first_8, first_9, first_a}
use sim68xx.M6811.Optab.FirstHigh.{first_b, first_c, first_d, first_e, first_f}

module _ ⦃chip : Chip⦄ where
  first_0-Numbered : (length first_0 ≡ 16) × Numbered First 0 first_0
  unfolding first_0
  first_0-Numbered = search depth 60

  first_1-Numbered : (length first_1 ≡ 16) × Numbered First 16 first_1
  unfolding first_1
  first_1-Numbered = search depth 60

  first_2-Numbered : (length first_2 ≡ 16) × Numbered First 32 first_2
  unfolding first_2
  first_2-Numbered = search depth 60

  first_3-Numbered : (length first_3 ≡ 16) × Numbered First 48 first_3
  unfolding first_3
  first_3-Numbered = search depth 60

  first_4-Numbered : (length first_4 ≡ 16) × Numbered First 64 first_4
  unfolding first_4
  first_4-Numbered = search depth 60

  first_5-Numbered : (length first_5 ≡ 16) × Numbered First 80 first_5
  unfolding first_5
  first_5-Numbered = search depth 60

  first_6-Numbered : (length first_6 ≡ 16) × Numbered First 96 first_6
  unfolding first_6
  first_6-Numbered = search depth 60

  first_7-Numbered : (length first_7 ≡ 16) × Numbered First 112 first_7
  unfolding first_7
  first_7-Numbered = search depth 60

  first_8-Numbered : (length first_8 ≡ 16) × Numbered First 128 first_8
  unfolding first_8
  first_8-Numbered = search depth 60

  first_9-Numbered : (length first_9 ≡ 16) × Numbered First 144 first_9
  unfolding first_9
  first_9-Numbered = search depth 60

  first_a-Numbered : (length first_a ≡ 16) × Numbered First 160 first_a
  unfolding first_a
  first_a-Numbered = search depth 60

  first_b-Numbered : (length first_b ≡ 16) × Numbered First 176 first_b
  unfolding first_b
  first_b-Numbered = search depth 60

  first_c-Numbered : (length first_c ≡ 16) × Numbered First 192 first_c
  unfolding first_c
  first_c-Numbered = search depth 60

  first_d-Numbered : (length first_d ≡ 16) × Numbered First 208 first_d
  unfolding first_d
  first_d-Numbered = search depth 60

  first_e-Numbered : (length first_e ≡ 16) × Numbered First 224 first_e
  unfolding first_e
  first_e-Numbered = search depth 60

  first_f-Numbered : (length first_f ≡ 16) × Numbered First 240 first_f
  unfolding first_f
  first_f-Numbered = search depth 60

  pub opcodetab-Numbered : NumberedRows First 0 opcodetab
  opcodetab-Numbered =
      search
        (
          first_0-Numbered, first_1-Numbered, first_2-Numbered, first_3-Numbered, first_4-Numbered,
          first_5-Numbered, first_6-Numbered, first_7-Numbered, first_8-Numbered, first_9-Numbered,
          first_a-Numbered, first_b-Numbered, first_c-Numbered, first_d-Numbered, first_e-Numbered,
          first_f-Numbered,
        )
        depth 24
