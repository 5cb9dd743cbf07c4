-- ===== src/M6811/Rows/SecondHigh.antt =====
-- The instructions of these rows of src/arch/m6811/optab.c preserve the invariant.
use sim68xx.Common.{All}
use sim68xx.Memory.{Chip}
use sim68xx.M6811.Optab.SecondHigh.{
  second_8, second_9, second_a, second_b, second_c, second_d, second_e, second_f,
}
use sim68xx.M6811.Opfunc.Indexed.{
  adca_ind_y, adcb_ind_y, adda_ind_y, addb_ind_y, anda_ind_y, andb_ind_y, bita_ind_y, bitb_ind_y,
  cmpa_ind_y, cmpb_ind_y, eora_ind_y, eorb_ind_y, jsr_ind_y, ldaa_ind_y, ldab_ind_y, oraa_ind_y,
  orab_ind_y, sbca_ind_y, sbcb_ind_y, staa_ind_y, stab_ind_y, suba_ind_y, subb_ind_y,
}
use sim68xx.M6811.Opfunc.Words.{
  addd_ind_y, cpy_dir, cpy_ext, cpy_imm, cpy_ind_y, ldd_ind_y, lds_ind_y, ldy_dir, ldy_ext, ldy_imm,
  ldy_ind_y, std_ind_y, sts_ind_y, sty_dir, sty_ext, sty_ind_y, subd_ind_y, xgdy_inh,
}
use sim68xx.Invariant.Memory.{Lawful}
use sim68xx.M6811.Rules.{KeepsLater, y_rules}

module _ ⦃chip : Chip⦄ ⦃laws : Lawful chip⦄ where
  pub second_8-IsValid : All KeepsLater second_8
  unfolding second_8 cpy_imm xgdy_inh
  second_8-IsValid = search y_rules depth 24

  pub second_9-IsValid : All KeepsLater second_9
  unfolding second_9 cpy_dir
  second_9-IsValid = search y_rules depth 24

  pub second_a-IsValid : All KeepsLater second_a
  unfolding second_a suba_ind_y cmpa_ind_y sbca_ind_y subd_ind_y anda_ind_y bita_ind_y ldaa_ind_y
      staa_ind_y eora_ind_y adca_ind_y oraa_ind_y adda_ind_y cpy_ind_y jsr_ind_y lds_ind_y sts_ind_y
  second_a-IsValid = search y_rules depth 24

  pub second_b-IsValid : All KeepsLater second_b
  unfolding second_b cpy_ext
  second_b-IsValid = search y_rules depth 24

  pub second_c-IsValid : All KeepsLater second_c
  unfolding second_c ldy_imm
  second_c-IsValid = search y_rules depth 24

  pub second_d-IsValid : All KeepsLater second_d
  unfolding second_d ldy_dir sty_dir
  second_d-IsValid = search y_rules depth 24

  pub second_e-IsValid : All KeepsLater second_e
  unfolding second_e subb_ind_y cmpb_ind_y sbcb_ind_y addd_ind_y andb_ind_y bitb_ind_y ldab_ind_y
      stab_ind_y eorb_ind_y adcb_ind_y orab_ind_y addb_ind_y ldd_ind_y std_ind_y ldy_ind_y sty_ind_y
  second_e-IsValid = search y_rules depth 24

  pub second_f-IsValid : All KeepsLater second_f
  unfolding second_f ldy_ext sty_ext
  second_f-IsValid = search y_rules depth 24
