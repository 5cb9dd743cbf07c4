-- ===== src/M6811/Rows/FirstHigh.antt =====
-- The instructions of these rows of src/arch/m6811/optab.c preserve the invariant.
use sim68xx.Common.{All}
use sim68xx.Memory.{Chip}
use sim68xx.M6811.Optab.FirstHigh.{first_b, first_c, first_d, first_e, first_f}
use sim68xx.M6811.Opfunc.Interrupt.{stop_inh}
use sim68xx.Opfunc.Addition.{
  adca_ext, adcb_dir, adcb_ext, adcb_imm, adcb_ind_x, adda_ext, addb_dir, addb_ext, addb_imm,
  addb_ind_x, addd_dir, addd_ext, addd_imm, addd_ind_x,
}
use sim68xx.Opfunc.Branch.{jsr_ext}
use sim68xx.Opfunc.Load.{
  ldaa_ext, ldab_dir, ldab_ext, ldab_imm, ldab_ind_x, ldd_dir, ldd_ext, ldd_imm, ldd_ind_x, lds_ext,
  ldx_dir, ldx_ext, ldx_imm, ldx_ind_x, staa_ext, stab_dir, stab_ext, stab_ind_x, std_dir, std_ext,
  std_ind_x, sts_ext, stx_dir, stx_ext, stx_ind_x,
}
use sim68xx.Opfunc.Logic.{
  anda_ext, andb_dir, andb_ext, andb_imm, andb_ind_x, bita_ext, bitb_dir, bitb_ext, bitb_imm,
  bitb_ind_x, eora_ext, eorb_dir, eorb_ext, eorb_imm, eorb_ind_x, oraa_ext, orab_dir, orab_ext,
  orab_imm, orab_ind_x,
}
use sim68xx.Opfunc.Subtraction.{
  cmpa_ext, cmpb_dir, cmpb_ext, cmpb_imm, cmpb_ind_x, cpx_ext, sbca_ext, sbcb_dir, sbcb_ext,
  sbcb_imm, sbcb_ind_x, suba_ext, subb_dir, subb_ext, subb_imm, subb_ind_x, subd_ext,
}
use sim68xx.Invariant.Memory.{Lawful}
use sim68xx.M6811.Rules.{KeepsEntry, y_rules}

module _ ⦃chip : Chip⦄ ⦃laws : Lawful chip⦄ where
  pub first_b-IsValid : All KeepsEntry first_b
  unfolding first_b suba_ext cmpa_ext sbca_ext subd_ext anda_ext bita_ext ldaa_ext staa_ext eora_ext
      adca_ext oraa_ext adda_ext cpx_ext jsr_ext lds_ext sts_ext
  first_b-IsValid = search y_rules depth 24

  pub first_c-IsValid : All KeepsEntry first_c
  unfolding first_c subb_imm cmpb_imm sbcb_imm addd_imm andb_imm bitb_imm ldab_imm eorb_imm adcb_imm
      orab_imm addb_imm ldd_imm ldx_imm stop_inh
  first_c-IsValid = search y_rules depth 24

  pub first_d-IsValid : All KeepsEntry first_d
  unfolding first_d subb_dir cmpb_dir sbcb_dir addd_dir andb_dir bitb_dir ldab_dir stab_dir eorb_dir
      adcb_dir orab_dir addb_dir ldd_dir std_dir ldx_dir stx_dir
  first_d-IsValid = search y_rules depth 24

  pub first_e-IsValid : All KeepsEntry first_e
  unfolding first_e subb_ind_x cmpb_ind_x sbcb_ind_x addd_ind_x andb_ind_x bitb_ind_x ldab_ind_x
      stab_ind_x eorb_ind_x adcb_ind_x orab_ind_x addb_ind_x ldd_ind_x std_ind_x ldx_ind_x stx_ind_x
  first_e-IsValid = search y_rules depth 24

  pub first_f-IsValid : All KeepsEntry first_f
  unfolding first_f subb_ext cmpb_ext sbcb_ext addd_ext andb_ext bitb_ext ldab_ext stab_ext eorb_ext
      adcb_ext orab_ext addb_ext ldd_ext std_ext ldx_ext stx_ext
  first_f-IsValid = search y_rules depth 24
