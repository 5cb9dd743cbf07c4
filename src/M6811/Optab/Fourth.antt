-- ===== src/M6811/Optab/Fourth.antt =====
-- Rows of the opcode table 4 in src/arch/m6811/optab.c.
use mathlib.Core.List.{List, [], ◌∷◌}
use sim68xx.M6811.Optab.Entry.{Opcode, opcode, traps}
use sim68xx.Memory.{Chip}
use sim68xx.M6811.Opfunc.Interrupt.{trap_6811}
use sim68xx.M6811.Opfunc.Words.{cpd_ind_y, cpx_ind_y, ldx_ind_y, stx_ind_y}

module _ ⦃chip : Chip⦄ where
  unfoldable pub fourth_0 : List Opcode
  fourth_0 = traps 16 0x00

  unfoldable pub fourth_1 : List Opcode
  fourth_1 = traps 16 0x10

  unfoldable pub fourth_2 : List Opcode
  fourth_2 = traps 16 0x20

  unfoldable pub fourth_3 : List Opcode
  fourth_3 = traps 16 0x30

  unfoldable pub fourth_4 : List Opcode
  fourth_4 = traps 16 0x40

  unfoldable pub fourth_5 : List Opcode
  fourth_5 = traps 16 0x50

  unfoldable pub fourth_6 : List Opcode
  fourth_6 = traps 16 0x60

  unfoldable pub fourth_7 : List Opcode
  fourth_7 = traps 16 0x70

  unfoldable pub fourth_8 : List Opcode
  fourth_8 = traps 16 0x80

  unfoldable pub fourth_9 : List Opcode
  fourth_9 = traps 16 0x90

  unfoldable pub fourth_a : List Opcode
  fourth_a =
      opcode 0xa0 2 0 trap_6811 0 "-"
      ∷ opcode 0xa1 2 0 trap_6811 0 "-"
      ∷ opcode 0xa2 2 0 trap_6811 0 "-"
      ∷ opcode 0xa3 2 1 cpd_ind_y 7 "cpd   %02x,y"
      ∷ opcode 0xa4 2 0 trap_6811 0 "-"
      ∷ opcode 0xa5 2 0 trap_6811 0 "-"
      ∷ opcode 0xa6 2 0 trap_6811 0 "-"
      ∷ opcode 0xa7 2 0 trap_6811 0 "-"
      ∷ opcode 0xa8 2 0 trap_6811 0 "-"
      ∷ opcode 0xa9 2 0 trap_6811 0 "-"
      ∷ opcode 0xaa 2 0 trap_6811 0 "-"
      ∷ opcode 0xab 2 0 trap_6811 0 "-"
      ∷ opcode 0xac 2 1 cpx_ind_y 7 "cpx   %02x,y"
      ∷ opcode 0xad 2 0 trap_6811 0 "-"
      ∷ opcode 0xae 2 0 trap_6811 0 "-"
      ∷ opcode 0xaf 2 0 trap_6811 0 "-"
      ∷ []

  unfoldable pub fourth_b : List Opcode
  fourth_b = traps 16 0xb0

  unfoldable pub fourth_c : List Opcode
  fourth_c = traps 16 0xc0

  unfoldable pub fourth_d : List Opcode
  fourth_d = traps 16 0xd0

  unfoldable pub fourth_e : List Opcode
  fourth_e =
      opcode 0xe0 2 0 trap_6811 0 "-"
      ∷ opcode 0xe1 2 0 trap_6811 0 "-"
      ∷ opcode 0xe2 2 0 trap_6811 0 "-"
      ∷ opcode 0xe3 2 0 trap_6811 0 "-"
      ∷ opcode 0xe4 2 0 trap_6811 0 "-"
      ∷ opcode 0xe5 2 0 trap_6811 0 "-"
      ∷ opcode 0xe6 2 0 trap_6811 0 "-"
      ∷ opcode 0xe7 2 0 trap_6811 0 "-"
      ∷ opcode 0xe8 2 0 trap_6811 0 "-"
      ∷ opcode 0xe9 2 0 trap_6811 0 "-"
      ∷ opcode 0xea 2 0 trap_6811 0 "-"
      ∷ opcode 0xeb 2 0 trap_6811 0 "-"
      ∷ opcode 0xec 2 0 trap_6811 0 "-"
      ∷ opcode 0xed 2 0 trap_6811 0 "-"
      ∷ opcode 0xee 2 1 ldx_ind_y 6 "ldx   %02x,y"
      ∷ opcode 0xef 2 1 stx_ind_y 6 "stx   %02x,y"
      ∷ []

  unfoldable pub fourth_f : List Opcode
  fourth_f = traps 16 0xf0
