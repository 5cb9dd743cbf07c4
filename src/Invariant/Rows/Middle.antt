-- ===== src/Invariant/Rows/Middle.antt =====
-- The instructions of rows 6 to a of the opcode table preserve the invariant.
use sim68xx.Common.{All}
use sim68xx.Memory.{Chip}
use sim68xx.H6303.Optab.Middle.{row_6, row_7, row_8, row_9, row_a}
use sim68xx.Opfunc.Addition.{
  adca_dir, adca_imm, adca_ind_x, adda_dir, adda_imm, adda_ind_x, inc_ext, inc_ind_x,
}
use sim68xx.Opfunc.Branch.{bsr_rel, jmp_ext, jmp_ind_x, jsr_dir, jsr_ind_x, trap}
use sim68xx.Opfunc.Immediate.{
  aim_dir, aim_ind_x, eim_dir, eim_ind_x, oim_dir, oim_ind_x, tim_dir, tim_ind_x,
}
use sim68xx.Opfunc.Load.{
  ldaa_dir, ldaa_imm, ldaa_ind_x, lds_dir, lds_imm, lds_ind_x, staa_dir, staa_ind_x, sts_dir,
  sts_ind_x,
}
use sim68xx.Opfunc.Logic.{
  anda_dir, anda_imm, anda_ind_x, bita_dir, bita_imm, bita_ind_x, clr_ext, clr_ind_x, com_ext,
  com_ind_x, eora_dir, eora_imm, eora_ind_x, oraa_dir, oraa_imm, oraa_ind_x, tst_ext, tst_ind_x,
}
use sim68xx.Opfunc.Shift.{
  asr_ext, asr_ind_x, lsl_ext, lsl_ind_x, lsr_ext, lsr_ind_x, rol_ext, rol_ind_x, ror_ext,
  ror_ind_x,
}
use sim68xx.Opfunc.Subtraction.{
  cmpa_dir, cmpa_imm, cmpa_ind_x, cpx_dir, cpx_imm, cpx_ind_x, dec_ext, dec_ind_x, neg_ext,
  neg_ind_x, sbca_dir, sbca_imm, sbca_ind_x, suba_dir, suba_imm, suba_ind_x, subd_dir, subd_imm,
  subd_ind_x,
}
use sim68xx.Invariant.{KeepsOpcode}
use sim68xx.Invariant.Memory.{Lawful}
use sim68xx.Invariant.Opfunc.{opfunc_rules}

module _ ⦃chip : Chip⦄ ⦃laws : Lawful chip⦄ where
  pub row_6-IsValid : All KeepsOpcode row_6
  unfolding row_6 neg_ind_x aim_ind_x oim_ind_x com_ind_x lsr_ind_x eim_ind_x ror_ind_x asr_ind_x
      lsl_ind_x rol_ind_x dec_ind_x tim_ind_x inc_ind_x tst_ind_x jmp_ind_x clr_ind_x
  row_6-IsValid = search opfunc_rules depth 24

  pub row_7-IsValid : All KeepsOpcode row_7
  unfolding row_7 neg_ext aim_dir oim_dir com_ext lsr_ext eim_dir ror_ext asr_ext lsl_ext rol_ext
      dec_ext tim_dir inc_ext tst_ext jmp_ext clr_ext
  row_7-IsValid = search opfunc_rules depth 24

  pub row_8-IsValid : All KeepsOpcode row_8
  unfolding row_8 suba_imm cmpa_imm sbca_imm subd_imm anda_imm bita_imm ldaa_imm trap eora_imm
      adca_imm oraa_imm adda_imm cpx_imm bsr_rel lds_imm
  row_8-IsValid = search opfunc_rules depth 24

  pub row_9-IsValid : All KeepsOpcode row_9
  unfolding row_9 suba_dir cmpa_dir sbca_dir subd_dir anda_dir bita_dir ldaa_dir staa_dir eora_dir
      adca_dir oraa_dir adda_dir cpx_dir jsr_dir lds_dir sts_dir
  row_9-IsValid = search opfunc_rules depth 24

  pub row_a-IsValid : All KeepsOpcode row_a
  unfolding row_a suba_ind_x cmpa_ind_x sbca_ind_x subd_ind_x anda_ind_x bita_ind_x ldaa_ind_x
      staa_ind_x eora_ind_x adca_ind_x oraa_ind_x adda_ind_x cpx_ind_x jsr_ind_x lds_ind_x sts_ind_x
  row_a-IsValid = search opfunc_rules depth 24
