-- ===== src/M6811/Rows/SecondLow.antt =====
-- The instructions of these rows of src/arch/m6811/optab.c preserve the invariant.
use sim68xx.Common.{All}
use sim68xx.Memory.{Chip}
use sim68xx.M6811.Optab.SecondLow.{
  second_0, second_1, second_2, second_3, second_4, second_5, second_6, second_7,
}
use sim68xx.M6811.Opfunc.Bits.{bclr_ind_y, brclr_ind_y, brset_ind_y, bset_ind_y}
use sim68xx.M6811.Opfunc.Indexed.{
  asl_ind_y, asr_ind_y, clr_ind_y, com_ind_y, dec_ind_y, inc_ind_y, jmp_ind_y, lsr_ind_y, neg_ind_y,
  rol_ind_y, ror_ind_y, tst_ind_y, lsl_ind_y,
}
use sim68xx.M6811.Opfunc.Words.{aby_inh, dey_inh, iny_inh, pshy_inh, puly_inh, tsy_inh, tys_inh}
use sim68xx.Invariant.Memory.{Lawful}
use sim68xx.M6811.Rules.{KeepsLater, traps-IsValid, y_rules}

module _ ⦃chip : Chip⦄ ⦃laws : Lawful chip⦄ where
  pub second_0-IsValid : All KeepsLater second_0
  unfolding second_0 iny_inh dey_inh
  second_0-IsValid = search y_rules depth 24

  pub second_1-IsValid : All KeepsLater second_1
  unfolding second_1 bset_ind_y bclr_ind_y brset_ind_y brclr_ind_y
  second_1-IsValid = search y_rules depth 24

  pub second_2-IsValid : All KeepsLater second_2
  unfolding second_2
  second_2-IsValid = traps-IsValid 16 _

  pub second_3-IsValid : All KeepsLater second_3
  unfolding second_3 tsy_inh tys_inh puly_inh aby_inh pshy_inh
  second_3-IsValid = search y_rules depth 24

  pub second_4-IsValid : All KeepsLater second_4
  unfolding second_4
  second_4-IsValid = traps-IsValid 16 _

  pub second_5-IsValid : All KeepsLater second_5
  unfolding second_5
  second_5-IsValid = traps-IsValid 16 _

  pub second_6-IsValid : All KeepsLater second_6
  unfolding second_6 neg_ind_y com_ind_y lsr_ind_y ror_ind_y asr_ind_y asl_ind_y rol_ind_y dec_ind_y
      inc_ind_y tst_ind_y jmp_ind_y clr_ind_y lsl_ind_y
  second_6-IsValid = search y_rules depth 24

  pub second_7-IsValid : All KeepsLater second_7
  unfolding second_7
  second_7-IsValid = traps-IsValid 16 _
