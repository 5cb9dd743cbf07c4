-- ===== src/M6811/Optab/FirstMiddle.antt =====
-- Rows of the opcode table 1 in src/arch/m6811/optab.c.
use mathlib.Core.List.{List, [], ◌∷◌}
use sim68xx.M6811.Optab.Entry.{Opcode, opcode}
use sim68xx.Memory.{Chip}
use sim68xx.M6811.Opfunc.Interrupt.{trap_6811}
use sim68xx.Opfunc.Addition.{
  adca_dir, adca_imm, adca_ind_x, adda_dir, adda_imm, adda_ind_x, inc_ext, inc_ind_x,
}
use sim68xx.Opfunc.Branch.{bsr_rel, jmp_ext, jmp_ind_x, jsr_dir, jsr_ind_x}
use sim68xx.Opfunc.Load.{
  ldaa_dir, ldaa_imm, ldaa_ind_x, lds_dir, lds_imm, lds_ind_x, staa_dir, staa_ind_x, sts_dir,
  sts_ind_x,
}
use sim68xx.Opfunc.Logic.{
  anda_dir, anda_imm, anda_ind_x, bita_dir, bita_imm, bita_ind_x, clr_ext, clr_ind_x, com_ext,
  com_ind_x, eora_dir, eora_imm, eora_ind_x, oraa_dir, oraa_imm, oraa_ind_x, tst_ext, tst_ind_x,
}
use sim68xx.Opfunc.Shift.{
  asr_ext, asr_ind_x, lsl_ext, lsl_ind_x, lsr_ext, lsr_ind_x, rol_ext, rol_ind_x, ror_ext,
  ror_ind_x,
}
use sim68xx.Opfunc.Subtraction.{
  cmpa_dir, cmpa_imm, cmpa_ind_x, cpx_dir, cpx_imm, cpx_ind_x, dec_ext, dec_ind_x, neg_ext,
  neg_ind_x, sbca_dir, sbca_imm, sbca_ind_x, suba_dir, suba_imm, suba_ind_x, subd_dir, subd_imm,
  subd_ind_x,
}
use sim68xx.Opfunc.Transfer.{xgdx_inh}

module _ ⦃chip : Chip⦄ where
  unfoldable pub first_6 : List Opcode
  first_6 =
      opcode 0x60 1 1 neg_ind_x 6 "neg   %02x,x"
      ∷ opcode 0x61 1 0 trap_6811 0 "-"
      ∷ opcode 0x62 1 0 trap_6811 0 "-"
      ∷ opcode 0x63 1 1 com_ind_x 6 "com   %02x,x"
      ∷ opcode 0x64 1 1 lsr_ind_x 6 "lsr   %02x,x"
      ∷ opcode 0x65 1 0 trap_6811 0 "-"
      ∷ opcode 0x66 1 1 ror_ind_x 6 "ror   %02x,x"
      ∷ opcode 0x67 1 1 asr_ind_x 6 "asr   %02x,x"
      ∷ opcode 0x68 1 1 lsl_ind_x 6 "lsl   %02x,x"
      ∷ opcode 0x69 1 1 rol_ind_x 6 "rol   %02x,x"
      ∷ opcode 0x6a 1 1 dec_ind_x 6 "dec   %02x,x"
      ∷ opcode 0x6b 1 0 trap_6811 0 "-"
      ∷ opcode 0x6c 1 1 inc_ind_x 6 "inc   %02x,x"
      ∷ opcode 0x6d 1 1 tst_ind_x 4 "tst   %02x,x"
      ∷ opcode 0x6e 1 1 jmp_ind_x 3 "jmp   %02x,x"
      ∷ opcode 0x6f 1 1 clr_ind_x 6 "clr   %02x,x"
      ∷ []

  unfoldable pub first_7 : List Opcode
  first_7 =
      opcode 0x70 1 2 neg_ext 6 "neg   %04x"
      ∷ opcode 0x71 1 0 trap_6811 0 "-"
      ∷ opcode 0x72 1 0 trap_6811 0 "-"
      ∷ opcode 0x73 1 2 com_ext 6 "com   %04x"
      ∷ opcode 0x74 1 2 lsr_ext 6 "lsr   %04x"
      ∷ opcode 0x75 1 0 trap_6811 0 "-"
      ∷ opcode 0x76 1 2 ror_ext 6 "ror   %04x"
      ∷ opcode 0x77 1 2 asr_ext 6 "asr   %04x"
      ∷ opcode 0x78 1 2 lsl_ext 6 "lsl   %04x"
      ∷ opcode 0x79 1 2 rol_ext 6 "rol   %04x"
      ∷ opcode 0x7a 1 2 dec_ext 6 "dec   %04x"
      ∷ opcode 0x6b 1 0 trap_6811 0 "-"
      ∷ opcode 0x7c 1 2 inc_ext 6 "inc   %04x"
      ∷ opcode 0x7d 1 2 tst_ext 6 "tst   %04x"
      ∷ opcode 0x7e 1 2 jmp_ext 3 "jmp   %04x"
      ∷ opcode 0x7f 1 2 clr_ext 5 "clr   %04x"
      ∷ []

  unfoldable pub first_8 : List Opcode
  first_8 =
      opcode 0x80 1 1 suba_imm 2 "suba #%02x"
      ∷ opcode 0x81 1 1 cmpa_imm 2 "cmpa #%02x"
      ∷ opcode 0x82 1 1 sbca_imm 2 "sbca #%02x"
      ∷ opcode 0x83 1 2 subd_imm 4 "subd #%02x"
      ∷ opcode 0x84 1 1 anda_imm 2 "anda #%02x"
      ∷ opcode 0x85 1 1 bita_imm 2 "bita #%02x"
      ∷ opcode 0x86 1 1 ldaa_imm 2 "ldaa #%02x"
      ∷ opcode 0x87 1 1 trap_6811 0 "-"
      ∷ opcode 0x88 1 1 eora_imm 2 "eora #%02x"
      ∷ opcode 0x89 1 1 adca_imm 2 "adca #%02x"
      ∷ opcode 0x8a 1 1 oraa_imm 2 "oraa #%02x"
      ∷ opcode 0x8b 1 1 adda_imm 2 "adda #%02x"
      ∷ opcode 0x8c 1 2 cpx_imm 4 "cpx  #%04x"
      ∷ opcode 0x8d 1 1 bsr_rel 6 "bsr   %02x"
      ∷ opcode 0x8e 1 2 lds_imm 3 "lds  #%04x"
      ∷ opcode 0x8f 1 0 xgdx_inh 3 "xgdx"
      ∷ []

  unfoldable pub first_9 : List Opcode
  first_9 =
      opcode 0x90 1 1 suba_dir 3 "suba  %02x"
      ∷ opcode 0x91 1 1 cmpa_dir 3 "cmpa  %02x"
      ∷ opcode 0x92 1 1 sbca_dir 3 "sbca  %02x"
      ∷ opcode 0x93 1 1 subd_dir 5 "subd  %02x"
      ∷ opcode 0x94 1 1 anda_dir 3 "anda  %02x"
      ∷ opcode 0x95 1 1 bita_dir 3 "bita  %02x"
      ∷ opcode 0x96 1 1 ldaa_dir 3 "ldaa  %02x"
      ∷ opcode 0x97 1 1 staa_dir 3 "staa  %02x"
      ∷ opcode 0x98 1 1 eora_dir 3 "eora  %02x"
      ∷ opcode 0x99 1 1 adca_dir 3 "adca  %02x"
      ∷ opcode 0x9a 1 1 oraa_dir 3 "oraa  %02x"
      ∷ opcode 0x9b 1 1 adda_dir 3 "adda  %02x"
      ∷ opcode 0x9c 1 1 cpx_dir 5 "cpx   %02x"
      ∷ opcode 0x9d 1 1 jsr_dir 5 "jsr   %02x"
      ∷ opcode 0x9e 1 1 lds_dir 4 "lds   %02x"
      ∷ opcode 0x9f 1 1 sts_dir 4 "sts   %02x"
      ∷ []

  unfoldable pub first_a : List Opcode
  first_a =
      opcode 0xa0 1 1 suba_ind_x 4 "suba  %02x,x"
      ∷ opcode 0xa1 1 1 cmpa_ind_x 4 "cmpa  %02x,x"
      ∷ opcode 0xa2 1 1 sbca_ind_x 4 "sbca  %02x,x"
      ∷ opcode 0xa3 1 1 subd_ind_x 6 "subd  %02x,x"
      ∷ opcode 0xa4 1 1 anda_ind_x 4 "anda  %02x,x"
      ∷ opcode 0xa5 1 1 bita_ind_x 4 "bita  %02x,x"
      ∷ opcode 0xa6 1 1 ldaa_ind_x 4 "ldaa  %02x,x"
      ∷ opcode 0xa7 1 1 staa_ind_x 4 "staa  %02x,x"
      ∷ opcode 0xa8 1 1 eora_ind_x 4 "eora  %02x,x"
      ∷ opcode 0xa9 1 1 adca_ind_x 4 "adca  %02x,x"
      ∷ opcode 0xaa 1 1 oraa_ind_x 4 "oraa  %02x,x"
      ∷ opcode 0xab 1 1 adda_ind_x 4 "adda  %02x,x"
      ∷ opcode 0xac 1 1 cpx_ind_x 6 "cpx   %02x,x"
      ∷ opcode 0xad 1 1 jsr_ind_x 6 "jsr   %02x,x"
      ∷ opcode 0xae 1 1 lds_ind_x 5 "lds   %02x,x"
      ∷ opcode 0xaf 1 1 sts_ind_x 5 "sts   %02x,x"
      ∷ []
