-- ===== src/Invariant/Rows/High.antt =====
-- The instructions of rows b to f of the opcode table preserve the invariant.
use sim68xx.Common.{All}
use sim68xx.Memory.{Chip}
use sim68xx.H6303.Optab.High.{row_b, row_c, row_d, row_e, row_f}
use sim68xx.Opfunc.Addition.{
  adca_ext, adcb_dir, adcb_ext, adcb_imm, adcb_ind_x, adda_ext, addb_dir, addb_ext, addb_imm,
  addb_ind_x, addd_dir, addd_ext, addd_imm, addd_ind_x,
}
use sim68xx.Opfunc.Branch.{jsr_ext, trap}
use sim68xx.Opfunc.Load.{
  ldaa_ext, ldab_dir, ldab_ext, ldab_imm, ldab_ind_x, ldd_dir, ldd_ext, ldd_imm, ldd_ind_x, lds_ext,
  ldx_dir, ldx_ext, ldx_imm, ldx_ind_x, staa_ext, stab_dir, stab_ext, stab_ind_x, std_dir, std_ext,
  std_ind_x, sts_ext, stx_dir, stx_ext, stx_ind_x,
}
use sim68xx.Opfunc.Logic.{
  anda_ext, andb_dir, andb_ext, andb_imm, andb_ind_x, bita_ext, bitb_dir, bitb_ext, bitb_imm,
  bitb_ind_x, eora_ext, eorb_dir, eorb_ext, eorb_imm, eorb_ind_x, oraa_ext, orab_dir, orab_ext,
  orab_imm, orab_ind_x,
}
use sim68xx.Opfunc.Subtraction.{
  cmpa_ext, cmpb_dir, cmpb_ext, cmpb_imm, cmpb_ind_x, cpx_ext, sbca_ext, sbcb_dir, sbcb_ext,
  sbcb_imm, sbcb_ind_x, suba_ext, subb_dir, subb_ext, subb_imm, subb_ind_x, subd_ext,
}
use sim68xx.Invariant.{KeepsOpcode}
use sim68xx.Invariant.Memory.{Lawful}
use sim68xx.Invariant.Opfunc.{opfunc_rules}

module _ ⦃chip : Chip⦄ ⦃laws : Lawful chip⦄ where
  pub row_b-IsValid : All KeepsOpcode row_b
  unfolding row_b suba_ext cmpa_ext sbca_ext subd_ext anda_ext bita_ext ldaa_ext staa_ext eora_ext
      adca_ext oraa_ext adda_ext cpx_ext jsr_ext lds_ext sts_ext
  row_b-IsValid = search opfunc_rules depth 24

  pub row_c-IsValid : All KeepsOpcode row_c
  unfolding row_c subb_imm cmpb_imm sbcb_imm addd_imm andb_imm bitb_imm ldab_imm trap eorb_imm
      adcb_imm orab_imm addb_imm ldd_imm ldx_imm
  row_c-IsValid = search opfunc_rules depth 24

  pub row_d-IsValid : All KeepsOpcode row_d
  unfolding row_d subb_dir cmpb_dir sbcb_dir addd_dir andb_dir bitb_dir ldab_dir stab_dir eorb_dir
      adcb_dir orab_dir addb_dir ldd_dir std_dir ldx_dir stx_dir
  row_d-IsValid = search opfunc_rules depth 24

  pub row_e-IsValid : All KeepsOpcode row_e
  unfolding row_e subb_ind_x cmpb_ind_x sbcb_ind_x addd_ind_x andb_ind_x bitb_ind_x ldab_ind_x
      stab_ind_x eorb_ind_x adcb_ind_x orab_ind_x addb_ind_x ldd_ind_x std_ind_x ldx_ind_x stx_ind_x
  row_e-IsValid = search opfunc_rules depth 24

  pub row_f-IsValid : All KeepsOpcode row_f
  unfolding row_f subb_ext cmpb_ext sbcb_ext addd_ext andb_ext bitb_ext ldab_ext stab_ext eorb_ext
      adcb_ext orab_ext addb_ext ldd_ext std_ext ldx_ext stx_ext
  row_f-IsValid = search opfunc_rules depth 24
