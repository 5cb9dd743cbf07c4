-- ===== src/M6811/Optab/SecondHigh.antt =====
-- Rows of the opcode table 2 in src/arch/m6811/optab.c.
use mathlib.Core.List.{List, [], ◌∷◌}
use sim68xx.M6811.Optab.Entry.{Opcode, opcode}
use sim68xx.Memory.{Chip}
use sim68xx.M6811.Opfunc.Indexed.{
  adca_ind_y, adcb_ind_y, adda_ind_y, addb_ind_y, anda_ind_y, andb_ind_y, bita_ind_y, bitb_ind_y,
  cmpa_ind_y, cmpb_ind_y, eora_ind_y, eorb_ind_y, jsr_ind_y, ldaa_ind_y, ldab_ind_y, oraa_ind_y,
  orab_ind_y, sbca_ind_y, sbcb_ind_y, staa_ind_y, stab_ind_y, suba_ind_y, subb_ind_y,
}
use sim68xx.M6811.Opfunc.Interrupt.{trap_6811}
use sim68xx.M6811.Opfunc.Words.{
  addd_ind_y, cpy_dir, cpy_ext, cpy_imm, cpy_ind_y, ldd_ind_y, lds_ind_y, ldy_dir, ldy_ext, ldy_imm,
  ldy_ind_y, std_ind_y, sts_ind_y, sty_dir, sty_ext, sty_ind_y, subd_ind_y, xgdy_inh,
}

module _ ⦃chip : Chip⦄ where
  unfoldable pub second_8 : List Opcode
  second_8 =
      opcode 0x80 2 0 trap_6811 0 "-"
      ∷ opcode 0x81 2 0 trap_6811 0 "-"
      ∷ opcode 0x82 2 0 trap_6811 0 "-"
      ∷ opcode 0x83 2 0 trap_6811 0 "-"
      ∷ opcode 0x84 2 0 trap_6811 0 "-"
      ∷ opcode 0x85 2 0 trap_6811 0 "-"
      ∷ opcode 0x86 2 0 trap_6811 0 "-"
      ∷ opcode 0x87 2 0 trap_6811 0 "-"
      ∷ opcode 0x88 2 0 trap_6811 0 "-"
      ∷ opcode 0x89 2 0 trap_6811 0 "-"
      ∷ opcode 0x8a 2 0 trap_6811 0 "-"
      ∷ opcode 0x8b 2 0 trap_6811 0 "-"
      ∷ opcode 0x8c 2 2 cpy_imm 5 "cpy  #%04x"
      ∷ opcode 0x8d 2 0 trap_6811 0 "-"
      ∷ opcode 0x8e 2 0 trap_6811 0 "-"
      ∷ opcode 0x8f 2 0 xgdy_inh 4 "xgdy"
      ∷ []

  unfoldable pub second_9 : List Opcode
  second_9 =
      opcode 0x90 2 0 trap_6811 0 "-"
      ∷ opcode 0x91 2 0 trap_6811 0 "-"
      ∷ opcode 0x92 2 1 trap_6811 0 "-"
      ∷ opcode 0x93 2 0 trap_6811 0 "-"
      ∷ opcode 0x94 2 0 trap_6811 0 "-"
      ∷ opcode 0x95 2 0 trap_6811 0 "-"
      ∷ opcode 0x96 2 0 trap_6811 0 "-"
      ∷ opcode 0x97 2 0 trap_6811 0 "-"
      ∷ opcode 0x98 2 0 trap_6811 0 "-"
      ∷ opcode 0x99 2 0 trap_6811 0 "-"
      ∷ opcode 0x9a 2 0 trap_6811 0 "-"
      ∷ opcode 0x9b 2 0 trap_6811 0 "-"
      ∷ opcode 0x9c 2 0 cpy_dir 7 "cpy   %02x"
      ∷ opcode 0x9d 2 0 trap_6811 0 "-"
      ∷ opcode 0x9e 2 0 trap_6811 0 "-"
      ∷ opcode 0x9f 2 0 trap_6811 0 "-"
      ∷ []

  unfoldable pub second_a : List Opcode
  second_a =
      opcode 0xa0 2 1 suba_ind_y 5 "suba  %02x,y"
      ∷ opcode 0xa1 2 1 cmpa_ind_y 5 "cmpa  %02x,y"
      ∷ opcode 0xa2 2 1 sbca_ind_y 5 "sbca  %02x,y"
      ∷ opcode 0xa3 2 1 subd_ind_y 7 "subd  %02x,y"
      ∷ opcode 0xa4 2 1 anda_ind_y 5 "anda  %02x,y"
      ∷ opcode 0xa5 2 1 bita_ind_y 5 "bita  %02x,y"
      ∷ opcode 0xa6 2 1 ldaa_ind_y 5 "ldaa  %02x,y"
      ∷ opcode 0xa7 2 1 staa_ind_y 5 "staa  %02x,y"
      ∷ opcode 0xa8 2 1 eora_ind_y 5 "eora  %02x,y"
      ∷ opcode 0xa9 2 1 adca_ind_y 5 "adca  %02x,y"
      ∷ opcode 0xaa 2 1 oraa_ind_y 5 "oraa  %02x,y"
      ∷ opcode 0xab 2 1 adda_ind_y 5 "adda  %02x,y"
      ∷ opcode 0xac 2 1 cpy_ind_y 7 "cpy   %02x,y"
      ∷ opcode 0xad 2 1 jsr_ind_y 7 "jsr   %02x,y"
      ∷ opcode 0xae 2 1 lds_ind_y 6 "lds   %02x,y"
      ∷ opcode 0xaf 2 1 sts_ind_y 6 "sts   %02x,y"
      ∷ []

  unfoldable pub second_b : List Opcode
  second_b =
      opcode 0xb0 2 0 trap_6811 0 "-"
      ∷ opcode 0xb1 2 0 trap_6811 0 "-"
      ∷ opcode 0xb2 2 0 trap_6811 0 "-"
      ∷ opcode 0xb3 2 1 trap_6811 0 "-"
      ∷ opcode 0xb4 2 0 trap_6811 0 "-"
      ∷ opcode 0xb5 2 0 trap_6811 0 "-"
      ∷ opcode 0xb6 2 0 trap_6811 0 "-"
      ∷ opcode 0xb7 2 0 trap_6811 0 "-"
      ∷ opcode 0xb8 2 0 trap_6811 0 "-"
      ∷ opcode 0xb9 2 0 trap_6811 0 "-"
      ∷ opcode 0xba 2 0 trap_6811 0 "-"
      ∷ opcode 0xbb 2 0 trap_6811 0 "-"
      ∷ opcode 0xbc 2 2 cpy_ext 7 "cpy   %04x"
      ∷ opcode 0xbd 2 0 trap_6811 0 "-"
      ∷ opcode 0xbe 2 0 trap_6811 0 "-"
      ∷ opcode 0xbf 2 0 trap_6811 0 "-"
      ∷ []

  unfoldable pub second_c : List Opcode
  second_c =
      opcode 0xc0 2 0 trap_6811 0 "-"
      ∷ opcode 0xc1 2 0 trap_6811 0 "-"
      ∷ opcode 0xc2 2 0 trap_6811 0 "-"
      ∷ opcode 0xc3 2 0 trap_6811 0 "-"
      ∷ opcode 0xc4 2 0 trap_6811 0 "-"
      ∷ opcode 0xc5 2 0 trap_6811 0 "-"
      ∷ opcode 0xc6 2 0 trap_6811 0 "-"
      ∷ opcode 0xc7 2 0 trap_6811 0 "-"
      ∷ opcode 0xc8 2 0 trap_6811 0 "-"
      ∷ opcode 0xc9 2 0 trap_6811 0 "-"
      ∷ opcode 0xca 2 0 trap_6811 0 "-"
      ∷ opcode 0xcb 2 0 trap_6811 0 "-"
      ∷ opcode 0xcc 2 0 trap_6811 0 "-"
      ∷ opcode 0xcd 2 0 trap_6811 0 "-"
      ∷ opcode 0xce 2 2 ldy_imm 4 "ldy  #%04x"
      ∷ opcode 0xcf 2 0 trap_6811 0 "-"
      ∷ []

  unfoldable pub second_d : List Opcode
  second_d =
      opcode 0xd0 2 0 trap_6811 0 "-"
      ∷ opcode 0xd1 2 0 trap_6811 0 "-"
      ∷ opcode 0xd2 2 0 trap_6811 0 "-"
      ∷ opcode 0xd3 2 0 trap_6811 0 "-"
      ∷ opcode 0xd4 2 0 trap_6811 0 "-"
      ∷ opcode 0xd5 2 0 trap_6811 0 "-"
      ∷ opcode 0xd6 2 0 trap_6811 0 "-"
      ∷ opcode 0xd7 2 0 trap_6811 0 "-"
      ∷ opcode 0xd8 2 0 trap_6811 0 "-"
      ∷ opcode 0xd9 2 0 trap_6811 0 "-"
      ∷ opcode 0xda 2 0 trap_6811 0 "-"
      ∷ opcode 0xdb 2 0 trap_6811 0 "-"
      ∷ opcode 0xdc 2 0 trap_6811 0 "-"
      ∷ opcode 0xdd 2 0 trap_6811 0 "-"
      ∷ opcode 0xde 2 1 ldy_dir 0 "ldy   %02x"
      ∷ opcode 0xdf 2 1 sty_dir 0 "sty   %02x"
      ∷ []

  unfoldable pub second_e : List Opcode
  second_e =
      opcode 0xe0 2 1 subb_ind_y 5 "subb  %02x,y"
      ∷ opcode 0xe1 2 1 cmpb_ind_y 5 "cmpb  %02x,y"
      ∷ opcode 0xe2 2 1 sbcb_ind_y 5 "sbcb  %02x,y"
      ∷ opcode 0xe3 2 1 addd_ind_y 5 "addd  %02x,y"
      ∷ opcode 0xe4 2 1 andb_ind_y 5 "andb  %02x,y"
      ∷ opcode 0xe5 2 1 bitb_ind_y 5 "bitb  %02x,y"
      ∷ opcode 0xe6 2 1 ldab_ind_y 5 "ldab  %02x,y"
      ∷ opcode 0xe7 2 1 stab_ind_y 5 "stab  %02x,y"
      ∷ opcode 0xe8 2 1 eorb_ind_y 5 "eorb  %02x,y"
      ∷ opcode 0xe9 2 1 adcb_ind_y 5 "adcb  %02x,y"
      ∷ opcode 0xea 2 1 orab_ind_y 5 "orab  %02x,y"
      ∷ opcode 0xeb 2 1 addb_ind_y 5 "addb  %02x,y"
      ∷ opcode 0xec 2 1 ldd_ind_y 6 "ldd   %02x,y"
      ∷ opcode 0xed 2 1 std_ind_y 6 "std   %02x,y"
      ∷ opcode 0xee 2 1 ldy_ind_y 6 "ldy   %02x,y"
      ∷ opcode 0xef 2 1 sty_ind_y 6 "sty   %02x,y"
      ∷ []

  unfoldable pub second_f : List Opcode
  second_f =
      opcode 0xf0 2 0 trap_6811 0 "-"
      ∷ opcode 0xf1 2 0 trap_6811 0 "-"
      ∷ opcode 0xf2 2 0 trap_6811 0 "-"
      ∷ opcode 0xf3 2 0 trap_6811 0 "-"
      ∷ opcode 0xf4 2 0 trap_6811 0 "-"
      ∷ opcode 0xf5 2 0 trap_6811 0 "-"
      ∷ opcode 0xf6 2 0 trap_6811 0 "-"
      ∷ opcode 0xf7 2 0 trap_6811 0 "-"
      ∷ opcode 0xf8 2 0 trap_6811 0 "-"
      ∷ opcode 0xf9 2 0 trap_6811 0 "-"
      ∷ opcode 0xfa 2 0 trap_6811 0 "-"
      ∷ opcode 0xfb 2 0 trap_6811 0 "-"
      ∷ opcode 0xfc 2 0 trap_6811 0 "-"
      ∷ opcode 0xfd 2 0 trap_6811 0 "-"
      ∷ opcode 0xfe 2 2 ldy_ext 6 "ldy   %04x"
      ∷ opcode 0xff 2 2 sty_ext 6 "sty   %04x"
      ∷ []
