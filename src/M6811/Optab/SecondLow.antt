-- ===== src/M6811/Optab/SecondLow.antt =====
-- Rows of the opcode table 2 in src/arch/m6811/optab.c.
use mathlib.Core.List.{List, [], ◌∷◌}
use sim68xx.M6811.Optab.Entry.{Opcode, opcode, traps}
use sim68xx.Memory.{Chip}
use sim68xx.M6811.Opfunc.Bits.{bclr_ind_y, brclr_ind_y, brset_ind_y, bset_ind_y}
use sim68xx.M6811.Opfunc.Indexed.{
  asl_ind_y, asr_ind_y, clr_ind_y, com_ind_y, dec_ind_y, inc_ind_y, jmp_ind_y, lsr_ind_y, neg_ind_y,
  rol_ind_y, ror_ind_y, tst_ind_y,
}
use sim68xx.M6811.Opfunc.Interrupt.{trap_6811}
use sim68xx.M6811.Opfunc.Words.{aby_inh, dey_inh, iny_inh, pshy_inh, puly_inh, tsy_inh, tys_inh}

module _ ⦃chip : Chip⦄ where
  unfoldable pub second_0 : List Opcode
  second_0 =
      opcode 0x00 2 0 trap_6811 0 "-"
      ∷ opcode 0x01 2 0 trap_6811 0 "-"
      ∷ opcode 0x02 2 0 trap_6811 0 "-"
      ∷ opcode 0x03 2 0 trap_6811 0 "-"
      ∷ opcode 0x04 2 0 trap_6811 0 "-"
      ∷ opcode 0x05 2 0 trap_6811 0 "-"
      ∷ opcode 0x06 2 0 trap_6811 0 "-"
      ∷ opcode 0x07 2 0 trap_6811 0 "-"
      ∷ opcode 0x08 2 0 iny_inh 4 "iny"
      ∷ opcode 0x09 2 0 dey_inh 4 "dey"
      ∷ opcode 0x0a 2 0 trap_6811 0 "-"
      ∷ opcode 0x0b 2 0 trap_6811 0 "-"
      ∷ opcode 0x0c 2 0 trap_6811 0 "-"
      ∷ opcode 0x0d 2 0 trap_6811 0 "-"
      ∷ opcode 0x0e 2 0 trap_6811 0 "-"
      ∷ opcode 0x0f 2 0 trap_6811 0 "-"
      ∷ []

  unfoldable pub second_1 : List Opcode
  second_1 =
      opcode 0x10 2 0 trap_6811 0 "-"
      ∷ opcode 0x11 2 0 trap_6811 0 "-"
      ∷ opcode 0x12 2 0 trap_6811 0 "-"
      ∷ opcode 0x13 2 0 trap_6811 0 "-"
      ∷ opcode 0x14 2 0 trap_6811 0 "-"
      ∷ opcode 0x15 2 0 trap_6811 0 "-"
      ∷ opcode 0x16 2 0 trap_6811 0 "-"
      ∷ opcode 0x17 2 0 trap_6811 0 "-"
      ∷ opcode 0x18 2 0 trap_6811 0 "-"
      ∷ opcode 0x19 2 0 trap_6811 0 "-"
      ∷ opcode 0x1a 2 0 trap_6811 0 "-"
      ∷ opcode 0x1b 2 0 trap_6811 0 "-"
      ∷ opcode 0x1c 2 2 bset_ind_y 8 "bset  %02x,y #%02x"
      ∷ opcode 0x1d 2 2 bclr_ind_y 8 "bclr  %02x,y #%02x"
      ∷ opcode 0x1e 2 3 brset_ind_y 8 "brset %02x,y #%02x %02x"
      ∷ opcode 0x1f 2 3 brclr_ind_y 8 "brclr %02x,y #%02x %02x"
      ∷ []

  unfoldable pub second_2 : List Opcode
  second_2 = traps 16 0x20

  unfoldable pub second_3 : List Opcode
  second_3 =
      opcode 0x30 2 0 tsy_inh 4 "tsy"
      ∷ opcode 0x31 2 0 trap_6811 0 "-"
      ∷ opcode 0x32 2 0 trap_6811 0 "-"
      ∷ opcode 0x33 2 0 trap_6811 0 "-"
      ∷ opcode 0x34 2 0 trap_6811 0 "-"
      ∷ opcode 0x35 2 0 tys_inh 4 "tys"
      ∷ opcode 0x36 2 0 trap_6811 0 "-"
      ∷ opcode 0x37 2 0 trap_6811 0 "-"
      ∷ opcode 0x38 2 0 puly_inh 6 "puly"
      ∷ opcode 0x39 2 0 trap_6811 0 "-"
      ∷ opcode 0x3a 2 0 aby_inh 4 "aby"
      ∷ opcode 0x3b 2 0 trap_6811 0 "-"
      ∷ opcode 0x3c 2 0 pshy_inh 5 "pshy"
      ∷ opcode 0x3d 2 0 trap_6811 0 "-"
      ∷ opcode 0x3e 2 0 trap_6811 0 "-"
      ∷ opcode 0x3f 2 0 trap_6811 0 "-"
      ∷ []

  unfoldable pub second_4 : List Opcode
  second_4 = traps 16 0x40

  unfoldable pub second_5 : List Opcode
  second_5 = traps 16 0x50

  unfoldable pub second_6 : List Opcode
  second_6 =
      opcode 0x60 2 1 neg_ind_y 7 "neg   %02x,y"
      ∷ opcode 0x61 2 0 trap_6811 0 "-"
      ∷ opcode 0x62 2 0 trap_6811 0 "-"
      ∷ opcode 0x63 2 1 com_ind_y 7 "com   %02x,y"
      ∷ opcode 0x64 2 1 lsr_ind_y 7 "lsr   %02x,y"
      ∷ opcode 0x65 2 0 trap_6811 0 "-"
      ∷ opcode 0x66 2 1 ror_ind_y 7 "ror   %02x,y"
      ∷ opcode 0x67 2 1 asr_ind_y 7 "asr   %02x,y"
      ∷ opcode 0x68 2 1 asl_ind_y 7 "asl   %02x,y"
      ∷ opcode 0x69 2 1 rol_ind_y 7 "rol   %02x,y"
      ∷ opcode 0x6a 2 1 dec_ind_y 7 "dec   %02x,y"
      ∷ opcode 0x6b 2 0 trap_6811 0 "-"
      ∷ opcode 0x6c 2 1 inc_ind_y 7 "inc   %02x,y"
      ∷ opcode 0x6d 2 1 tst_ind_y 7 "tst   %02x,y"
      ∷ opcode 0x6e 2 1 jmp_ind_y 4 "jmp   %02x,y"
      ∷ opcode 0x6f 2 1 clr_ind_y 7 "clr   %02x,y"
      ∷ []

  unfoldable pub second_7 : List Opcode
  second_7 = traps 16 0x70
