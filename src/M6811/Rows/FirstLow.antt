-- ===== src/M6811/Rows/FirstLow.antt =====
-- The instructions of these rows of src/arch/m6811/optab.c preserve the invariant.
use sim68xx.Common.{All}
use sim68xx.Memory.{Chip}
use sim68xx.M6811.Optab.FirstLow.{first_0, first_1, first_2, first_3, first_4, first_5}
use sim68xx.M6811.Opfunc.Bits.{
  bclr_dir, bclr_ind_x, brclr_dir, brclr_ind_x, brset_dir, brset_ind_x, bset_dir, bset_ind_x,
}
use sim68xx.M6811.Opfunc.Interrupt.{rti_6811, test_inh, tpa_inh}
use sim68xx.Opfunc.Addition.{aba_inh, abx_inh, daa_inh, inca_inh, incb_inh, inx_inh, mul_inh}
use sim68xx.Opfunc.Branch.{
  bcc_rel, bcs_rel, beq_rel, bge_rel, bgt_rel, bhi_rel, ble_rel, bls_rel, blt_rel, bmi_rel, bne_rel,
  bpl_rel, bra_rel, brn_rel, bvc_rel, bvs_rel, leave, nop_inh, rts_inh, wai_inh,
}
use sim68xx.Opfunc.Logic.{clra_inh, clrb_inh, coma_inh, comb_inh, tsta_inh, tstb_inh}
use sim68xx.Opfunc.Shift.{
  asld_inh, asra_inh, asrb_inh, lsla_inh, lslb_inh, lsra_inh, lsrb_inh, lsrd_inh, rola_inh,
  rolb_inh, rora_inh, rorb_inh, lsld_inh,
}
use sim68xx.Opfunc.Subtraction.{cba_inh, deca_inh, decb_inh, dex_inh, nega_inh, negb_inh, sba_inh}
use sim68xx.Opfunc.Transfer.{
  clc_inh, cli_inh, clv_inh, des_inh, ins_inh, psha_inh, pshb_inh, pshx_inh, pula_inh, pulb_inh,
  pulx_inh, sec_inh, sei_inh, sev_inh, tab_inh, tap_inh, tba_inh, tsx_inh, txs_inh,
}
use sim68xx.Invariant.Memory.{Lawful}
use sim68xx.M6811.Rules.{KeepsEntry, y_rules}

module _ ⦃chip : Chip⦄ ⦃laws : Lawful chip⦄ where
  pub first_0-IsValid : All KeepsEntry first_0
  unfolding first_0 test_inh nop_inh lsrd_inh asld_inh tap_inh tpa_inh inx_inh dex_inh clv_inh
      sev_inh clc_inh sec_inh cli_inh sei_inh lsld_inh
  first_0-IsValid = search y_rules depth 24

  pub first_1-IsValid : All KeepsEntry first_1
  unfolding first_1 sba_inh cba_inh brset_dir brclr_dir bset_dir bclr_dir tab_inh tba_inh daa_inh
      aba_inh bset_ind_x bclr_ind_x brset_ind_x brclr_ind_x
  first_1-IsValid = search y_rules depth 24

  pub first_2-IsValid : All KeepsEntry first_2
  unfolding first_2 bra_rel brn_rel bhi_rel bls_rel bcc_rel bcs_rel bne_rel beq_rel bvc_rel bvs_rel
      bpl_rel bmi_rel bge_rel blt_rel bgt_rel ble_rel
  first_2-IsValid = search y_rules depth 24

  pub first_3-IsValid : All KeepsEntry first_3
  unfolding first_3 tsx_inh ins_inh pula_inh pulb_inh des_inh txs_inh psha_inh pshb_inh pulx_inh
      rts_inh abx_inh rti_6811 pshx_inh mul_inh wai_inh leave
  first_3-IsValid = search y_rules depth 24

  pub first_4-IsValid : All KeepsEntry first_4
  unfolding first_4 nega_inh coma_inh lsra_inh rora_inh asra_inh lsla_inh rola_inh deca_inh inca_inh
      tsta_inh clra_inh
  first_4-IsValid = search y_rules depth 24

  pub first_5-IsValid : All KeepsEntry first_5
  unfolding first_5 negb_inh comb_inh lsrb_inh rorb_inh asrb_inh lslb_inh rolb_inh decb_inh incb_inh
      tstb_inh clrb_inh
  first_5-IsValid = search y_rules depth 24
