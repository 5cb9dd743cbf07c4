-- ===== src/M6811/Rows/Fourth.antt =====
-- The instructions of these rows of src/arch/m6811/optab.c preserve the invariant.
use sim68xx.Common.{All}
use sim68xx.Memory.{Chip}
use sim68xx.M6811.Optab.Fourth.{
  fourth_0, fourth_1, fourth_2, fourth_3, fourth_4, fourth_5, fourth_6, fourth_7, fourth_8,
  fourth_9, fourth_a, fourth_b, fourth_c, fourth_d, fourth_e, fourth_f,
}
use sim68xx.M6811.Opfunc.Words.{cpd_ind_y, cpx_ind_y, ldx_ind_y, stx_ind_y}
use sim68xx.Invariant.Memory.{Lawful}
use sim68xx.M6811.Rules.{KeepsLater, traps-IsValid, y_rules}

module _ ⦃chip : Chip⦄ ⦃laws : Lawful chip⦄ where
  pub fourth_0-IsValid : All KeepsLater fourth_0
  unfolding fourth_0
  fourth_0-IsValid = traps-IsValid 16 _

  pub fourth_1-IsValid : All KeepsLater fourth_1
  unfolding fourth_1
  fourth_1-IsValid = traps-IsValid 16 _

  pub fourth_2-IsValid : All KeepsLater fourth_2
  unfolding fourth_2
  fourth_2-IsValid = traps-IsValid 16 _

  pub fourth_3-IsValid : All KeepsLater fourth_3
  unfolding fourth_3
  fourth_3-IsValid = traps-IsValid 16 _

  pub fourth_4-IsValid : All KeepsLater fourth_4
  unfolding fourth_4
  fourth_4-IsValid = traps-IsValid 16 _

  pub fourth_5-IsValid : All KeepsLater fourth_5
  unfolding fourth_5
  fourth_5-IsValid = traps-IsValid 16 _

  pub fourth_6-IsValid : All KeepsLater fourth_6
  unfolding fourth_6
  fourth_6-IsValid = traps-IsValid 16 _

  pub fourth_7-IsValid : All KeepsLater fourth_7
  unfolding fourth_7
  fourth_7-IsValid = traps-IsValid 16 _

  pub fourth_8-IsValid : All KeepsLater fourth_8
  unfolding fourth_8
  fourth_8-IsValid = traps-IsValid 16 _

  pub fourth_9-IsValid : All KeepsLater fourth_9
  unfolding fourth_9
  fourth_9-IsValid = traps-IsValid 16 _

  pub fourth_a-IsValid : All KeepsLater fourth_a
  unfolding fourth_a cpd_ind_y cpx_ind_y
  fourth_a-IsValid = search y_rules depth 24

  pub fourth_b-IsValid : All KeepsLater fourth_b
  unfolding fourth_b
  fourth_b-IsValid = traps-IsValid 16 _

  pub fourth_c-IsValid : All KeepsLater fourth_c
  unfolding fourth_c
  fourth_c-IsValid = traps-IsValid 16 _

  pub fourth_d-IsValid : All KeepsLater fourth_d
  unfolding fourth_d
  fourth_d-IsValid = traps-IsValid 16 _

  pub fourth_e-IsValid : All KeepsLater fourth_e
  unfolding fourth_e ldx_ind_y stx_ind_y
  fourth_e-IsValid = search y_rules depth 24

  pub fourth_f-IsValid : All KeepsLater fourth_f
  unfolding fourth_f
  fourth_f-IsValid = traps-IsValid 16 _
