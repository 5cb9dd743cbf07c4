-- ===== src/M6811/Optab/Third.antt =====
-- Rows of the opcode table 3 in src/arch/m6811/optab.c.
use mathlib.Core.List.{List, [], ◌∷◌}
use sim68xx.M6811.Optab.Entry.{Opcode, opcode, traps}
use sim68xx.Memory.{Chip}
use sim68xx.M6811.Opfunc.Interrupt.{trap_6811}
use sim68xx.M6811.Opfunc.Words.{
  cpd_dir, cpd_ext, cpd_imm, cpd_ind_x, cpy_ind_x, ldy_ind_x, sty_ind_x,
}

module _ ⦃chip : Chip⦄ where
  unfoldable pub third_0 : List Opcode
  third_0 = traps 16 0x00

  unfoldable pub third_1 : List Opcode
  third_1 = traps 16 0x10

  unfoldable pub third_2 : List Opcode
  third_2 = traps 16 0x20

  unfoldable pub third_3 : List Opcode
  third_3 = traps 16 0x30

  unfoldable pub third_4 : List Opcode
  third_4 = traps 16 0x40

  unfoldable pub third_5 : List Opcode
  third_5 = traps 16 0x50

  unfoldable pub third_6 : List Opcode
  third_6 = traps 16 0x60

  unfoldable pub third_7 : List Opcode
  third_7 = traps 16 0x70

  unfoldable pub third_8 : List Opcode
  third_8 =
      opcode 0x80 2 0 trap_6811 0 "-"
      ∷ opcode 0x81 2 0 trap_6811 0 "-"
      ∷ opcode 0x82 2 0 trap_6811 0 "-"
      ∷ opcode 0x83 2 2 cpd_imm 5 "cpd  #%04x"
      ∷ opcode 0x84 2 0 trap_6811 0 "-"
      ∷ opcode 0x85 2 0 trap_6811 0 "-"
      ∷ opcode 0x86 2 0 trap_6811 0 "-"
      ∷ opcode 0x87 2 0 trap_6811 0 "-"
      ∷ opcode 0x88 2 0 trap_6811 0 "-"
      ∷ opcode 0x89 2 0 trap_6811 0 "-"
      ∷ opcode 0x8a 2 0 trap_6811 0 "-"
      ∷ opcode 0x8b 2 0 trap_6811 0 "-"
      ∷ opcode 0x8c 2 0 trap_6811 0 "-"
      ∷ opcode 0x8d 2 0 trap_6811 0 "-"
      ∷ opcode 0x8e 2 0 trap_6811 0 "-"
      ∷ opcode 0x8f 2 0 trap_6811 0 "-"
      ∷ []

  unfoldable pub third_9 : List Opcode
  third_9 =
      opcode 0x90 2 0 trap_6811 0 "-"
      ∷ opcode 0x91 2 0 trap_6811 0 "-"
      ∷ opcode 0x92 2 0 trap_6811 0 "-"
      ∷ opcode 0x93 2 1 cpd_dir 6 "cpd   %02x"
      ∷ opcode 0x94 2 0 trap_6811 0 "-"
      ∷ opcode 0x95 2 0 trap_6811 0 "-"
      ∷ opcode 0x96 2 0 trap_6811 0 "-"
      ∷ opcode 0x97 2 0 trap_6811 0 "-"
      ∷ opcode 0x98 2 0 trap_6811 0 "-"
      ∷ opcode 0x99 2 0 trap_6811 0 "-"
      ∷ opcode 0x9a 2 0 trap_6811 0 "-"
      ∷ opcode 0x9b 2 0 trap_6811 0 "-"
      ∷ opcode 0x9c 2 0 trap_6811 0 "-"
      ∷ opcode 0x9d 2 0 trap_6811 0 "-"
      ∷ opcode 0x9e 2 0 trap_6811 0 "-"
      ∷ opcode 0x9f 2 0 trap_6811 0 "-"
      ∷ []

  unfoldable pub third_a : List Opcode
  third_a =
      opcode 0xa0 2 0 trap_6811 0 "-"
      ∷ opcode 0xa1 2 0 trap_6811 0 "-"
      ∷ opcode 0xa2 2 0 trap_6811 0 "-"
      ∷ opcode 0xa3 2 1 cpd_ind_x 7 "cpd   %02x,x"
      ∷ opcode 0xa4 2 0 trap_6811 0 "-"
      ∷ opcode 0xa5 2 0 trap_6811 0 "-"
      ∷ opcode 0xa6 2 0 trap_6811 0 "-"
      ∷ opcode 0xa7 2 0 trap_6811 0 "-"
      ∷ opcode 0xa8 2 0 trap_6811 0 "-"
      ∷ opcode 0xa9 2 0 trap_6811 0 "-"
      ∷ opcode 0xaa 2 0 trap_6811 0 "-"
      ∷ opcode 0xab 2 0 trap_6811 0 "-"
      ∷ opcode 0xac 2 1 cpy_ind_x 7 "cpy   %02x,x"
      ∷ opcode 0xad 2 0 trap_6811 0 "-"
      ∷ opcode 0xae 2 0 trap_6811 0 "-"
      ∷ opcode 0xaf 2 0 trap_6811 0 "-"
      ∷ []

  unfoldable pub third_b : List Opcode
  third_b =
      opcode 0xb0 2 0 trap_6811 0 "-"
      ∷ opcode 0xb1 2 0 trap_6811 0 "-"
      ∷ opcode 0xb2 2 0 trap_6811 0 "-"
      ∷ opcode 0xb3 2 2 cpd_ext 7 "cpd   %04x"
      ∷ opcode 0xb4 2 0 trap_6811 0 "-"
      ∷ opcode 0xb5 2 0 trap_6811 0 "-"
      ∷ opcode 0xb6 2 0 trap_6811 0 "-"
      ∷ opcode 0xb7 2 0 trap_6811 0 "-"
      ∷ opcode 0xb8 2 0 trap_6811 0 "-"
      ∷ opcode 0xb9 2 0 trap_6811 0 "-"
      ∷ opcode 0xba 2 0 trap_6811 0 "-"
      ∷ opcode 0xbb 2 0 trap_6811 0 "-"
      ∷ opcode 0xbc 2 0 trap_6811 0 "-"
      ∷ opcode 0xbd 2 0 trap_6811 0 "-"
      ∷ opcode 0xbe 2 0 trap_6811 0 "-"
      ∷ opcode 0xbf 2 0 trap_6811 0 "-"
      ∷ []

  unfoldable pub third_c : List Opcode
  third_c = traps 16 0xc0

  unfoldable pub third_d : List Opcode
  third_d = traps 16 0xd0

  unfoldable pub third_e : List Opcode
  third_e =
      opcode 0xe0 2 0 trap_6811 0 "-"
      ∷ opcode 0xe1 2 0 trap_6811 0 "-"
      ∷ opcode 0xe2 2 0 trap_6811 0 "-"
      ∷ opcode 0xe3 2 0 trap_6811 0 "-"
      ∷ opcode 0xe4 2 0 trap_6811 0 "-"
      ∷ opcode 0xe5 2 0 trap_6811 0 "-"
      ∷ opcode 0xe6 2 0 trap_6811 0 "-"
      ∷ opcode 0xe7 2 0 trap_6811 0 "-"
      ∷ opcode 0xe8 2 0 trap_6811 0 "-"
      ∷ opcode 0xe9 2 0 trap_6811 0 "-"
      ∷ opcode 0xea 2 0 trap_6811 0 "-"
      ∷ opcode 0xeb 2 0 trap_6811 0 "-"
      ∷ opcode 0xec 2 0 trap_6811 0 "-"
      ∷ opcode 0xed 2 0 trap_6811 0 "-"
      ∷ opcode 0xee 2 1 ldy_ind_x 6 "ldy   %02x,x"
      ∷ opcode 0xef 2 1 sty_ind_x 6 "sty   %02x,x"
      ∷ []

  unfoldable pub third_f : List Opcode
  third_f = traps 16 0xf0
