-- ===== src/M6811/Functions.antt =====
-- The functions of src/arch/m6811/optab.c and the invariant, for any chip.
use sim68xx.Common.{All}
use sim68xx.Memory.{Chip}
use sim68xx.Invariant.Memory.{Lawful}
use sim68xx.M6811.Optab.{opcodetab, opcodetab2, opcodetab3, opcodetab4, table_of}
use sim68xx.M6811.Optab.Entry.{Page}
use sim68xx.M6811.Rules.{KeepsEntry, KeepsLater}
use sim68xx.M6811.Rows.FirstLow.{
  first_0-IsValid, first_1-IsValid, first_2-IsValid, first_3-IsValid, first_4-IsValid,
  first_5-IsValid,
}
use sim68xx.M6811.Rows.FirstMiddle.{
  first_6-IsValid, first_7-IsValid, first_8-IsValid, first_9-IsValid, first_a-IsValid,
}
use sim68xx.M6811.Rows.FirstHigh.{
  first_b-IsValid, first_c-IsValid, first_d-IsValid, first_e-IsValid, first_f-IsValid,
}
use sim68xx.M6811.Rows.SecondLow.{
  second_0-IsValid, second_1-IsValid, second_2-IsValid, second_3-IsValid, second_4-IsValid,
  second_5-IsValid, second_6-IsValid, second_7-IsValid,
}
use sim68xx.M6811.Rows.SecondHigh.{
  second_8-IsValid, second_9-IsValid, second_a-IsValid, second_b-IsValid, second_c-IsValid,
  second_d-IsValid, second_e-IsValid, second_f-IsValid,
}
use sim68xx.M6811.Rows.Third.{
  third_0-IsValid, third_1-IsValid, third_2-IsValid, third_3-IsValid, third_4-IsValid,
  third_5-IsValid, third_6-IsValid, third_7-IsValid, third_8-IsValid, third_9-IsValid,
  third_a-IsValid, third_b-IsValid, third_c-IsValid, third_d-IsValid, third_e-IsValid,
  third_f-IsValid,
}
use sim68xx.M6811.Rows.Fourth.{
  fourth_0-IsValid, fourth_1-IsValid, fourth_2-IsValid, fourth_3-IsValid, fourth_4-IsValid,
  fourth_5-IsValid, fourth_6-IsValid, fourth_7-IsValid, fourth_8-IsValid, fourth_9-IsValid,
  fourth_a-IsValid, fourth_b-IsValid, fourth_c-IsValid, fourth_d-IsValid, fourth_e-IsValid,
  fourth_f-IsValid,
}

module _ ⦃chip : Chip⦄ ⦃laws : Lawful chip⦄ where
  pub opcodetab-IsValid : All (All KeepsEntry) opcodetab
  opcodetab-IsValid =
      search
        (
          first_0-IsValid, first_1-IsValid, first_2-IsValid, first_3-IsValid, first_4-IsValid,
          first_5-IsValid, first_6-IsValid, first_7-IsValid, first_8-IsValid, first_9-IsValid,
          first_a-IsValid, first_b-IsValid, first_c-IsValid, first_d-IsValid, first_e-IsValid,
          first_f-IsValid,
        )
        depth 24

  opcodetab2-IsValid : All (All KeepsLater) opcodetab2
  opcodetab2-IsValid =
      search
        (
          second_0-IsValid, second_1-IsValid, second_2-IsValid, second_3-IsValid, second_4-IsValid,
          second_5-IsValid, second_6-IsValid, second_7-IsValid, second_8-IsValid, second_9-IsValid,
          second_a-IsValid, second_b-IsValid, second_c-IsValid, second_d-IsValid, second_e-IsValid,
          second_f-IsValid,
        )
        depth 24

  opcodetab3-IsValid : All (All KeepsLater) opcodetab3
  opcodetab3-IsValid =
      search
        (
          third_0-IsValid, third_1-IsValid, third_2-IsValid, third_3-IsValid, third_4-IsValid,
          third_5-IsValid, third_6-IsValid, third_7-IsValid, third_8-IsValid, third_9-IsValid,
          third_a-IsValid, third_b-IsValid, third_c-IsValid, third_d-IsValid, third_e-IsValid,
          third_f-IsValid,
        )
        depth 24

  opcodetab4-IsValid : All (All KeepsLater) opcodetab4
  opcodetab4-IsValid =
      search
        (
          fourth_0-IsValid, fourth_1-IsValid, fourth_2-IsValid, fourth_3-IsValid, fourth_4-IsValid,
          fourth_5-IsValid, fourth_6-IsValid, fourth_7-IsValid, fourth_8-IsValid, fourth_9-IsValid,
          fourth_a-IsValid, fourth_b-IsValid, fourth_c-IsValid, fourth_d-IsValid, fourth_e-IsValid,
          fourth_f-IsValid,
        )
        depth 24

  pub table_of-IsValid : (p : Page) → All (All KeepsLater) (table_of p)
  table_of-IsValid Page.opcodetab2 = opcodetab2-IsValid
  table_of-IsValid Page.opcodetab3 = opcodetab3-IsValid
  table_of-IsValid Page.opcodetab4 = opcodetab4-IsValid
