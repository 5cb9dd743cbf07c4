-- ===== src/M6811/Optab.antt =====
-- src/arch/m6811/optab.c: the four opcode tables, in rows of sixteen.
pub mod Entry
pub mod FirstLow
pub mod FirstMiddle
pub mod FirstHigh
pub mod SecondLow
pub mod SecondHigh
pub mod Third
pub mod Fourth
use sim68xx.Common.{List, [], ◌∷◌}
use sim68xx.Memory.{Chip}
use sim68xx.M6811.Optab.Entry.{Opcode, Page}
use sim68xx.M6811.Optab.FirstLow.{first_0, first_1, first_2, first_3, first_4, first_5}
use sim68xx.M6811.Optab.FirstMiddle.{first_6, first_7, first_8, first_9, first_a}
use sim68xx.M6811.Optab.FirstHigh.{first_b, first_c, first_d, first_e, first_f}
use sim68xx.M6811.Optab.SecondLow.{
  second_0, second_1, second_2, second_3, second_4, second_5, second_6, second_7,
}
use sim68xx.M6811.Optab.SecondHigh.{
  second_8, second_9, second_a, second_b, second_c, second_d, second_e, second_f,
}
use sim68xx.M6811.Optab.Third.{
  third_0, third_1, third_2, third_3, third_4, third_5, third_6, third_7, third_8, third_9, third_a,
  third_b, third_c, third_d, third_e, third_f,
}
use sim68xx.M6811.Optab.Fourth.{
  fourth_0, fourth_1, fourth_2, fourth_3, fourth_4, fourth_5, fourth_6, fourth_7, fourth_8,
  fourth_9, fourth_a, fourth_b, fourth_c, fourth_d, fourth_e, fourth_f,
}

module _ ⦃chip : Chip⦄ where
  abbrev pub opcodetab : List (List Opcode)
  opcodetab =
      first_0 ∷ first_1 ∷ first_2 ∷ first_3 ∷ first_4 ∷ first_5 ∷ first_6 ∷ first_7 ∷ first_8
      ∷ first_9 ∷ first_a ∷ first_b ∷ first_c ∷ first_d ∷ first_e ∷ first_f ∷ []

  abbrev pub opcodetab2 : List (List Opcode)
  opcodetab2 =
      second_0 ∷ second_1 ∷ second_2 ∷ second_3 ∷ second_4 ∷ second_5 ∷ second_6 ∷ second_7
      ∷ second_8 ∷ second_9 ∷ second_a ∷ second_b ∷ second_c ∷ second_d ∷ second_e ∷ second_f ∷ []

  abbrev pub opcodetab3 : List (List Opcode)
  opcodetab3 =
      third_0 ∷ third_1 ∷ third_2 ∷ third_3 ∷ third_4 ∷ third_5 ∷ third_6 ∷ third_7 ∷ third_8
      ∷ third_9 ∷ third_a ∷ third_b ∷ third_c ∷ third_d ∷ third_e ∷ third_f ∷ []

  abbrev pub opcodetab4 : List (List Opcode)
  opcodetab4 =
      fourth_0 ∷ fourth_1 ∷ fourth_2 ∷ fourth_3 ∷ fourth_4 ∷ fourth_5 ∷ fourth_6 ∷ fourth_7
      ∷ fourth_8 ∷ fourth_9 ∷ fourth_a ∷ fourth_b ∷ fourth_c ∷ fourth_d ∷ fourth_e ∷ fourth_f ∷ []

  -- What `op_nexttab` points to.
  abbrev pub table_of : Page → List (List Opcode)
  table_of Page.opcodetab2 = opcodetab2
  table_of Page.opcodetab3 = opcodetab3
  table_of Page.opcodetab4 = opcodetab4
