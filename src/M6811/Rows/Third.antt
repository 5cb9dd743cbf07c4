-- ===== src/M6811/Rows/Third.antt =====
-- The instructions of these rows of src/arch/m6811/optab.c preserve the invariant.
use sim68xx.Common.{All}
use sim68xx.Memory.{Chip}
use sim68xx.M6811.Optab.Third.{
  third_0, third_1, third_2, third_3, third_4, third_5, third_6, third_7, third_8, third_9, third_a,
  third_b, third_c, third_d, third_e, third_f,
}
use sim68xx.M6811.Opfunc.Words.{
  cpd_dir, cpd_ext, cpd_imm, cpd_ind_x, cpy_ind_x, ldy_ind_x, sty_ind_x,
}
use sim68xx.Invariant.Memory.{Lawful}
use sim68xx.M6811.Rules.{KeepsLater, traps-IsValid, y_rules}

module _ ⦃chip : Chip⦄ ⦃laws : Lawful chip⦄ where
  pub third_0-IsValid : All KeepsLater third_0
  unfolding third_0
  third_0-IsValid = traps-IsValid 16 _

  pub third_1-IsValid : All KeepsLater third_1
  unfolding third_1
  third_1-IsValid = traps-IsValid 16 _

  pub third_2-IsValid : All KeepsLater third_2
  unfolding third_2
  third_2-IsValid = traps-IsValid 16 _

  pub third_3-IsValid : All KeepsLater third_3
  unfolding third_3
  third_3-IsValid = traps-IsValid 16 _

  pub third_4-IsValid : All KeepsLater third_4
  unfolding third_4
  third_4-IsValid = traps-IsValid 16 _

  pub third_5-IsValid : All KeepsLater third_5
  unfolding third_5
  third_5-IsValid = traps-IsValid 16 _

  pub third_6-IsValid : All KeepsLater third_6
  unfolding third_6
  third_6-IsValid = traps-IsValid 16 _

  pub third_7-IsValid : All KeepsLater third_7
  unfolding third_7
  third_7-IsValid = traps-IsValid 16 _

  pub third_8-IsValid : All KeepsLater third_8
  unfolding third_8 cpd_imm
  third_8-IsValid = search y_rules depth 24

  pub third_9-IsValid : All KeepsLater third_9
  unfolding third_9 cpd_dir
  third_9-IsValid = search y_rules depth 24

  pub third_a-IsValid : All KeepsLater third_a
  unfolding third_a cpd_ind_x cpy_ind_x
  third_a-IsValid = search y_rules depth 24

  pub third_b-IsValid : All KeepsLater third_b
  unfolding third_b cpd_ext
  third_b-IsValid = search y_rules depth 24

  pub third_c-IsValid : All KeepsLater third_c
  unfolding third_c
  third_c-IsValid = traps-IsValid 16 _

  pub third_d-IsValid : All KeepsLater third_d
  unfolding third_d
  third_d-IsValid = traps-IsValid 16 _

  pub third_e-IsValid : All KeepsLater third_e
  unfolding third_e ldy_ind_x sty_ind_x
  third_e-IsValid = search y_rules depth 24

  pub third_f-IsValid : All KeepsLater third_f
  unfolding third_f
  third_f-IsValid = traps-IsValid 16 _
