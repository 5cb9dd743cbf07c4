-- ===== src/M6811/Optab/FirstHigh.antt =====
-- Rows of the opcode table 1 in src/arch/m6811/optab.c.
use mathlib.Core.List.{List, [], ◌∷◌}
use sim68xx.M6811.Optab.Entry.{Opcode, opcode, page, Page}
use sim68xx.Memory.{Chip}
use sim68xx.M6811.Opfunc.Interrupt.{stop_inh, trap_6811}
use sim68xx.Opfunc.Addition.{
  adca_ext, adcb_dir, adcb_ext, adcb_imm, adcb_ind_x, adda_ext, addb_dir, addb_ext, addb_imm,
  addb_ind_x, addd_dir, addd_ext, addd_imm, addd_ind_x,
}
use sim68xx.Opfunc.Branch.{jsr_ext}
use sim68xx.Opfunc.Load.{
  ldaa_ext, ldab_dir, ldab_ext, ldab_imm, ldab_ind_x, ldd_dir, ldd_ext, ldd_imm, ldd_ind_x, lds_ext,
  ldx_dir, ldx_ext, ldx_imm, ldx_ind_x, staa_ext, stab_dir, stab_ext, stab_ind_x, std_dir, std_ext,
  std_ind_x, sts_ext, stx_dir, stx_ext, stx_ind_x,
}
use sim68xx.Opfunc.Logic.{
  anda_ext, andb_dir, andb_ext, andb_imm, andb_ind_x, bita_ext, bitb_dir, bitb_ext, bitb_imm,
  bitb_ind_x, eora_ext, eorb_dir, eorb_ext, eorb_imm, eorb_ind_x, oraa_ext, orab_dir, orab_ext,
  orab_imm, orab_ind_x,
}
use sim68xx.Opfunc.Subtraction.{
  cmpa_ext, cmpb_dir, cmpb_ext, cmpb_imm, cmpb_ind_x, cpx_ext, sbca_ext, sbcb_dir, sbcb_ext,
  sbcb_imm, sbcb_ind_x, suba_ext, subb_dir, subb_ext, subb_imm, subb_ind_x, subd_ext,
}

module _ ⦃chip : Chip⦄ where
  unfoldable pub first_b : List Opcode
  first_b =
      opcode 0xb0 1 2 suba_ext 4 "suba  %04x"
      ∷ opcode 0xb1 1 2 cmpa_ext 4 "cmpa  %04x"
      ∷ opcode 0xb2 1 2 sbca_ext 4 "sbca  %04x"
      ∷ opcode 0xb3 1 2 subd_ext 5 "subd  %04x"
      ∷ opcode 0xb4 1 2 anda_ext 4 "anda  %04x"
      ∷ opcode 0xb5 1 2 bita_ext 4 "bita  %04x"
      ∷ opcode 0xb6 1 2 ldaa_ext 4 "ldaa  %04x"
      ∷ opcode 0xb7 1 2 staa_ext 4 "staa  %04x"
      ∷ opcode 0xb8 1 2 eora_ext 4 "eora  %04x"
      ∷ opcode 0xb9 1 2 adca_ext 4 "adca  %04x"
      ∷ opcode 0xba 1 2 oraa_ext 4 "oraa  %04x"
      ∷ opcode 0xbb 1 2 adda_ext 4 "adda  %04x"
      ∷ opcode 0xbc 1 2 cpx_ext 6 "cpx   %04x"
      ∷ opcode 0xbd 1 2 jsr_ext 6 "jsr   %04x"
      ∷ opcode 0xbe 1 2 lds_ext 5 "lds   %04x"
      ∷ opcode 0xbf 1 2 sts_ext 5 "sts   %04x"
      ∷ []

  unfoldable pub first_c : List Opcode
  first_c =
      opcode 0xc0 1 1 subb_imm 2 "subb #%02x"
      ∷ opcode 0xc1 1 1 cmpb_imm 2 "cmpb #%02x"
      ∷ opcode 0xc2 1 1 sbcb_imm 2 "sbcb #%02x"
      ∷ opcode 0xc3 1 2 addd_imm 4 "addd #%04x"
      ∷ opcode 0xc4 1 1 andb_imm 2 "andb #%02x"
      ∷ opcode 0xc5 1 1 bitb_imm 2 "bitb #%02x"
      ∷ opcode 0xc6 1 1 ldab_imm 2 "ldab #%02x"
      ∷ opcode 0xc7 1 0 trap_6811 0 "-"
      ∷ opcode 0xc8 1 1 eorb_imm 2 "eorb #%02x"
      ∷ opcode 0xc9 1 1 adcb_imm 2 "adcb #%02x"
      ∷ opcode 0xca 1 1 orab_imm 2 "orab #%02x"
      ∷ opcode 0xcb 1 1 addb_imm 2 "addb #%02x"
      ∷ opcode 0xcc 1 2 ldd_imm 3 "ldd  #%04x"
      ∷ page 0xcd 0 0 0 "page4" Page.opcodetab4
      ∷ opcode 0xce 1 2 ldx_imm 3 "ldx  #%04x"
      ∷ opcode 0xcf 1 0 stop_inh 2 "stop"
      ∷ []

  unfoldable pub first_d : List Opcode
  first_d =
      opcode 0xd0 1 1 subb_dir 3 "subb  %02x"
      ∷ opcode 0xd1 1 1 cmpb_dir 3 "cmpb  %02x"
      ∷ opcode 0xd2 1 1 sbcb_dir 3 "sbcb  %02x"
      ∷ opcode 0xd3 1 1 addd_dir 5 "addd  %02x"
      ∷ opcode 0xd4 1 1 andb_dir 3 "andb  %02x"
      ∷ opcode 0xd5 1 1 bitb_dir 3 "bitb  %02x"
      ∷ opcode 0xd6 1 1 ldab_dir 3 "ldab  %02x"
      ∷ opcode 0xd7 1 1 stab_dir 3 "stab  %02x"
      ∷ opcode 0xd8 1 1 eorb_dir 3 "eorb  %02x"
      ∷ opcode 0xd9 1 1 adcb_dir 3 "adcb  %02x"
      ∷ opcode 0xda 1 1 orab_dir 3 "orab  %02x"
      ∷ opcode 0xdb 1 1 addb_dir 3 "addb  %02x"
      ∷ opcode 0xdc 1 1 ldd_dir 4 "ldd   %02x"
      ∷ opcode 0xdd 1 1 std_dir 4 "std   %02x"
      ∷ opcode 0xde 1 1 ldx_dir 4 "ldx   %02x"
      ∷ opcode 0xdf 1 1 stx_dir 4 "stx   %02x"
      ∷ []

  unfoldable pub first_e : List Opcode
  first_e =
      opcode 0xe0 1 1 subb_ind_x 4 "subb  %02x,x"
      ∷ opcode 0xe1 1 1 cmpb_ind_x 4 "cmpb  %02x,x"
      ∷ opcode 0xe2 1 1 sbcb_ind_x 4 "sbcb  %02x,x"
      ∷ opcode 0xe3 1 1 addd_ind_x 6 "addd  %02x,x"
      ∷ opcode 0xe4 1 1 andb_ind_x 4 "andb  %02x,x"
      ∷ opcode 0xe5 1 1 bitb_ind_x 4 "bitb  %02x,x"
      ∷ opcode 0xe6 1 1 ldab_ind_x 4 "ldab  %02x,x"
      ∷ opcode 0xe7 1 1 stab_ind_x 4 "stab  %02x,x"
      ∷ opcode 0xe8 1 1 eorb_ind_x 4 "eorb  %02x,x"
      ∷ opcode 0xe9 1 1 adcb_ind_x 4 "adcb  %02x,x"
      ∷ opcode 0xea 1 1 orab_ind_x 4 "orab  %02x,x"
      ∷ opcode 0xeb 1 1 addb_ind_x 4 "addb  %02x,x"
      ∷ opcode 0xec 1 1 ldd_ind_x 5 "ldd   %02x,x"
      ∷ opcode 0xed 1 1 std_ind_x 5 "std   %02x,x"
      ∷ opcode 0xee 1 1 ldx_ind_x 5 "ldx   %02x,x"
      ∷ opcode 0xef 1 1 stx_ind_x 5 "stx   %02x,x"
      ∷ []

  unfoldable pub first_f : List Opcode
  first_f =
      opcode 0xf0 1 2 subb_ext 4 "subb  %04x"
      ∷ opcode 0xf1 1 2 cmpb_ext 4 "cmpb  %04x"
      ∷ opcode 0xf2 1 2 sbcb_ext 4 "sbcb  %04x"
      ∷ opcode 0xf3 1 2 addd_ext 6 "addd  %04x"
      ∷ opcode 0xf4 1 2 andb_ext 4 "andb  %04x"
      ∷ opcode 0xf5 1 2 bitb_ext 4 "bitb  %04x"
      ∷ opcode 0xf6 1 2 ldab_ext 4 "ldab  %04x"
      ∷ opcode 0xf7 1 2 stab_ext 4 "stab  %04x"
      ∷ opcode 0xf8 1 2 eorb_ext 4 "eorb  %04x"
      ∷ opcode 0xf9 1 2 adcb_ext 4 "adcb  %04x"
      ∷ opcode 0xfa 1 2 orab_ext 4 "orab  %04x"
      ∷ opcode 0xfb 1 2 addb_ext 4 "addb  %04x"
      ∷ opcode 0xfc 1 2 ldd_ext 5 "ldd   %04x"
      ∷ opcode 0xfd 1 2 std_ext 5 "std   %04x"
      ∷ opcode 0xfe 1 2 ldx_ext 5 "ldx   %04x"
      ∷ opcode 0xff 1 2 stx_ext 5 "stx   %04x"
      ∷ []
