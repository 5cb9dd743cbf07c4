-- ===== src/M6811/Rows/FirstMiddle.antt =====
-- The instructions of these rows of src/arch/m6811/optab.c preserve the invariant.
use sim68xx.Common.{All}
use sim68xx.Memory.{Chip}
use sim68xx.M6811.Optab.FirstMiddle.{first_6, first_7, first_8, first_9, first_a}
use sim68xx.Opfunc.Addition.{
  adca_dir, adca_imm, adca_ind_x, adda_dir, adda_imm, adda_ind_x, inc_ext, inc_ind_x,
}
use sim68xx.Opfunc.Branch.{bsr_rel, jmp_ext, jmp_ind_x, jsr_dir, jsr_ind_x}
use sim68xx.Opfunc.Load.{
  ldaa_dir, ldaa_imm, ldaa_ind_x, lds_dir, lds_imm, lds_ind_x, staa_dir, staa_ind_x, sts_dir,
  sts_ind_x,
}
use sim68xx.Opfunc.Logic.{
  anda_dir, anda_imm, anda_ind_x, bita_dir, bita_imm, bita_ind_x, clr_ext, clr_ind_x, com_ext,
  com_ind_x, eora_dir, eora_imm, eora_ind_x, oraa_dir, oraa_imm, oraa_ind_x, tst_ext, tst_ind_x,
}
use sim68xx.Opfunc.Shift.{
  asr_ext, asr_ind_x, lsl_ext, lsl_ind_x, lsr_ext, lsr_ind_x, rol_ext, rol_ind_x, ror_ext,
  ror_ind_x,
}
use sim68xx.Opfunc.Subtraction.{
  cmpa_dir, cmpa_imm, cmpa_ind_x, cpx_dir, cpx_imm, cpx_ind_x, dec_ext, dec_ind_x, neg_ext,
  neg_ind_x, sbca_dir, sbca_imm, sbca_ind_x, suba_dir, suba_imm, suba_ind_x, subd_dir, subd_imm,
  subd_ind_x,
}
use sim68xx.Opfunc.Transfer.{xgdx_inh}
use sim68xx.Invariant.Memory.{Lawful}
use sim68xx.M6811.Rules.{KeepsEntry, y_rules}

module _ ⦃chip : Chip⦄ ⦃laws : Lawful chip⦄ where
  pub first_6-IsValid : All KeepsEntry first_6
  unfolding first_6 neg_ind_x com_ind_x lsr_ind_x ror_ind_x asr_ind_x lsl_ind_x rol_ind_x dec_ind_x
      inc_ind_x tst_ind_x jmp_ind_x clr_ind_x
  first_6-IsValid = search y_rules depth 24

  pub first_7-IsValid : All KeepsEntry first_7
  unfolding first_7 neg_ext com_ext lsr_ext ror_ext asr_ext lsl_ext rol_ext dec_ext inc_ext tst_ext
      jmp_ext clr_ext
  first_7-IsValid = search y_rules depth 24

  pub first_8-IsValid : All KeepsEntry first_8
  unfolding first_8 suba_imm cmpa_imm sbca_imm subd_imm anda_imm bita_imm ldaa_imm eora_imm adca_imm
      oraa_imm adda_imm cpx_imm bsr_rel lds_imm xgdx_inh
  first_8-IsValid = search y_rules depth 24

  pub first_9-IsValid : All KeepsEntry first_9
  unfolding first_9 suba_dir cmpa_dir sbca_dir subd_dir anda_dir bita_dir ldaa_dir staa_dir eora_dir
      adca_dir oraa_dir adda_dir cpx_dir jsr_dir lds_dir sts_dir
  first_9-IsValid = search y_rules depth 24

  pub first_a-IsValid : All KeepsEntry first_a
  unfolding first_a suba_ind_x cmpa_ind_x sbca_ind_x subd_ind_x anda_ind_x bita_ind_x ldaa_ind_x
      staa_ind_x eora_ind_x adca_ind_x oraa_ind_x adda_ind_x cpx_ind_x jsr_ind_x lds_ind_x sts_ind_x
  first_a-IsValid = search y_rules depth 24
