-- ===== src/H6301/Optab/Middle.antt =====
-- Rows 6 to a of `opcodetab` in src/arch/h6301/optab.c.
use mathlib.Core.List.{List, [], ◌∷◌}
use sim68xx.H6301.Optab.Entry.{Opcode, opcode}
use sim68xx.Memory.{Chip}
use sim68xx.Opfunc.Addition.{
  adca_dir, adca_imm, adca_ind_x, adda_dir, adda_imm, adda_ind_x, inc_ext, inc_ind_x,
}
use sim68xx.Opfunc.Branch.{bsr_rel, jmp_ext, jmp_ind_x, jsr_dir, jsr_ind_x, trap}
use sim68xx.Opfunc.Immediate.{
  aim_dir, aim_ind_x, eim_dir, eim_ind_x, oim_dir, oim_ind_x, tim_dir, tim_ind_x,
}
use sim68xx.Opfunc.Load.{
  ldaa_dir, ldaa_imm, ldaa_ind_x, lds_dir, lds_imm, lds_ind_x, staa_dir, staa_ind_x, sts_dir,
  sts_ind_x,
}
use sim68xx.Opfunc.Logic.{
  anda_dir, anda_imm, anda_ind_x, bita_dir, bita_imm, bita_ind_x, clr_ext, clr_ind_x, com_ext,
  com_ind_x, eora_dir, eora_imm, eora_ind_x, oraa_dir, oraa_imm, oraa_ind_x, tst_ext, tst_ind_x,
}
use sim68xx.Opfunc.Shift.{
  asr_ext, asr_ind_x, lsl_ext, lsl_ind_x, lsr_ext, lsr_ind_x, rol_ext, rol_ind_x, ror_ext,
  ror_ind_x,
}
use sim68xx.Opfunc.Subtraction.{
  cmpa_dir, cmpa_imm, cmpa_ind_x, cpx_dir, cpx_imm, cpx_ind_x, dec_ext, dec_ind_x, neg_ext,
  neg_ind_x, sbca_dir, sbca_imm, sbca_ind_x, suba_dir, suba_imm, suba_ind_x, subd_dir, subd_imm,
  subd_ind_x,
}

module _ ⦃chip : Chip⦄ where
  unfoldable pub row_6 : List Opcode
  row_6 =
      opcode 0x60 1 neg_ind_x 6 "neg %02x,x"
      ∷ opcode 0x61 1 aim_ind_x 7 "aim %02x,x"
      ∷ opcode 0x62 1 oim_ind_x 7 "oim %02x,x"
      ∷ opcode 0x63 1 com_ind_x 6 "com %02x,x"
      ∷ opcode 0x64 1 lsr_ind_x 6 "lsr %02x,x"
      ∷ opcode 0x65 1 eim_ind_x 7 "eim %02x,x"
      ∷ opcode 0x66 1 ror_ind_x 6 "ror %02x,x"
      ∷ opcode 0x67 1 asr_ind_x 6 "asr %02x,x"
      ∷ opcode 0x68 1 lsl_ind_x 6 "lsl %02x,x"
      ∷ opcode 0x69 1 rol_ind_x 6 "rol %02x,x"
      ∷ opcode 0x6a 1 dec_ind_x 6 "dec %02x,x"
      ∷ opcode 0x6b 1 tim_ind_x 5 "tim %02x,x"
      ∷ opcode 0x6c 1 inc_ind_x 6 "inc %02x,x"
      ∷ opcode 0x6d 1 tst_ind_x 4 "tst %02x,x"
      ∷ opcode 0x6e 1 jmp_ind_x 3 "jmp %02x,x"
      ∷ opcode 0x6f 1 clr_ind_x 5 "clr %02x,x"
      ∷ []

  unfoldable pub row_7 : List Opcode
  row_7 =
      opcode 0x70 2 neg_ext 6 "neg %04x"
      ∷ opcode 0x71 0 aim_dir 6 "aim %02x"
      ∷ opcode 0x72 0 oim_dir 6 "oim %02x"
      ∷ opcode 0x73 2 com_ext 6 "com %04x"
      ∷ opcode 0x74 2 lsr_ext 6 "lsr %04x"
      ∷ opcode 0x75 0 eim_dir 6 "eim %02x"
      ∷ opcode 0x76 2 ror_ext 6 "ror %04x"
      ∷ opcode 0x77 2 asr_ext 6 "asr %04x"
      ∷ opcode 0x78 2 lsl_ext 6 "lsl %04x"
      ∷ opcode 0x79 2 rol_ext 6 "rol %04x"
      ∷ opcode 0x7a 2 dec_ext 6 "dec %04x"
      ∷ opcode 0x7b 0 tim_dir 4 "tim %02x"
      ∷ opcode 0x7c 2 inc_ext 6 "inc %04x"
      ∷ opcode 0x7d 2 tst_ext 6 "tst %04x"
      ∷ opcode 0x7e 2 jmp_ext 3 "jmp %04x"
      ∷ opcode 0x7f 2 clr_ext 5 "clr %04x"
      ∷ []

  unfoldable pub row_8 : List Opcode
  row_8 =
      opcode 0x80 1 suba_imm 2 "suba #%02x"
      ∷ opcode 0x81 1 cmpa_imm 2 "cmpa #%02x"
      ∷ opcode 0x82 1 sbca_imm 2 "sbca #%02x"
      ∷ opcode 0x83 2 subd_imm 3 "subd #%02x"
      ∷ opcode 0x84 1 anda_imm 2 "anda #%02x"
      ∷ opcode 0x85 1 bita_imm 2 "bita #%02x"
      ∷ opcode 0x86 1 ldaa_imm 2 "ldaa #%02x"
      ∷ opcode 0x87 1 trap 0 "---"
      ∷ opcode 0x88 1 eora_imm 2 "eora #%02x"
      ∷ opcode 0x89 1 adca_imm 2 "adca #%02x"
      ∷ opcode 0x8a 1 oraa_imm 2 "oraa #%02x"
      ∷ opcode 0x8b 1 adda_imm 2 "adda #%02x"
      ∷ opcode 0x8c 2 cpx_imm 3 "cpx  #%04x"
      ∷ opcode 0x8d 1 bsr_rel 5 "bsr  %02x"
      ∷ opcode 0x8e 2 lds_imm 3 "lds  #%04x"
      ∷ opcode 0x8f 0 trap 0 "---"
      ∷ []

  unfoldable pub row_9 : List Opcode
  row_9 =
      opcode 0x90 1 suba_dir 3 "suba %02x"
      ∷ opcode 0x91 1 cmpa_dir 3 "cmpa %02x"
      ∷ opcode 0x92 1 sbca_dir 3 "sbca %02x"
      ∷ opcode 0x93 1 subd_dir 4 "subd %02x"
      ∷ opcode 0x94 1 anda_dir 3 "anda %02x"
      ∷ opcode 0x95 1 bita_dir 3 "bita %02x"
      ∷ opcode 0x96 1 ldaa_dir 3 "ldaa %02x"
      ∷ opcode 0x97 1 staa_dir 3 "staa %02x"
      ∷ opcode 0x98 1 eora_dir 3 "eora %02x"
      ∷ opcode 0x99 1 adca_dir 3 "adca %02x"
      ∷ opcode 0x9a 1 oraa_dir 3 "oraa %02x"
      ∷ opcode 0x9b 1 adda_dir 3 "adda %02x"
      ∷ opcode 0x9c 1 cpx_dir 4 "cpx  %02x"
      ∷ opcode 0x9d 1 jsr_dir 5 "jsr  %02x\n"
      ∷ opcode 0x9e 1 lds_dir 4 "lds  %02x"
      ∷ opcode 0x9f 1 sts_dir 4 "sts  %02x"
      ∷ []

  unfoldable pub row_a : List Opcode
  row_a =
      opcode 0xa0 1 suba_ind_x 4 "suba %02x,x"
      ∷ opcode 0xa1 1 cmpa_ind_x 4 "cmpa %02x,x"
      ∷ opcode 0xa2 1 sbca_ind_x 4 "sbca %02x,x"
      ∷ opcode 0xa3 1 subd_ind_x 5 "subd %02x,x"
      ∷ opcode 0xa4 1 anda_ind_x 4 "anda %02x,x"
      ∷ opcode 0xa5 1 bita_ind_x 4 "bita %02x,x"
      ∷ opcode 0xa6 1 ldaa_ind_x 4 "ldaa %02x,x"
      ∷ opcode 0xa7 1 staa_ind_x 4 "staa %02x,x"
      ∷ opcode 0xa8 1 eora_ind_x 4 "eora %02x,x"
      ∷ opcode 0xa9 1 adca_ind_x 4 "adca %02x,x"
      ∷ opcode 0xaa 1 oraa_ind_x 4 "oraa %02x,x"
      ∷ opcode 0xab 1 adda_ind_x 4 "adda %02x,x"
      ∷ opcode 0xac 1 cpx_ind_x 5 "cpx  %02x,x"
      ∷ opcode 0xad 1 jsr_ind_x 5 "jsr  %02x,x"
      ∷ opcode 0xae 1 lds_ind_x 5 "lds  %02x,x"
      ∷ opcode 0xaf 1 sts_ind_x 5 "sts  %02x,x"
      ∷ []
