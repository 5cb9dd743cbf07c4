-- ===== src/Invariant/Rows/Low.antt =====
-- The instructions of rows 0 to 5 of the opcode table preserve the invariant.
use sim68xx.Common.{All}
use sim68xx.Memory.{Chip}
use sim68xx.H6303.Optab.Low.{row_0, row_1, row_2, row_3, row_4, row_5}
use sim68xx.Opfunc.Addition.{aba_inh, abx_inh, daa_inh, inca_inh, incb_inh, inx_inh, mul_inh}
use sim68xx.Opfunc.Branch.{
  bcc_rel, bcs_rel, beq_rel, bge_rel, bgt_rel, bhi_rel, ble_rel, bls_rel, blt_rel, bmi_rel, bne_rel,
  bpl_rel, bra_rel, brn_rel, bvc_rel, bvs_rel, leave, nop_inh, rti_inh, rts_inh, swi_inh, trap,
  wai_inh,
}
use sim68xx.Opfunc.Logic.{clra_inh, clrb_inh, coma_inh, comb_inh, tsta_inh, tstb_inh}
use sim68xx.Opfunc.Shift.{
  asld_inh, asra_inh, asrb_inh, lsla_inh, lslb_inh, lsld_inh, lsra_inh, lsrb_inh, lsrd_inh,
  rola_inh, rolb_inh, rora_inh, rorb_inh,
}
use sim68xx.Opfunc.Subtraction.{cba_inh, deca_inh, decb_inh, dex_inh, nega_inh, negb_inh, sba_inh}
use sim68xx.Opfunc.Transfer.{
  clc_inh, cli_inh, clv_inh, des_inh, ins_inh, psha_inh, pshb_inh, pshx_inh, pula_inh, pulb_inh,
  pulx_inh, sec_inh, sei_inh, sev_inh, slp_inh, tab_inh, tap_inh, tba_inh, tpa_inh, tsx_inh,
  txs_inh, xgdx_inh,
}
use sim68xx.Invariant.{KeepsOpcode}
use sim68xx.Invariant.Memory.{Lawful}
use sim68xx.Invariant.Opfunc.{opfunc_rules}

module _ ⦃chip : Chip⦄ ⦃laws : Lawful chip⦄ where
  pub row_0-IsValid : All KeepsOpcode row_0
  unfolding row_0 trap nop_inh lsrd_inh asld_inh tap_inh tpa_inh inx_inh dex_inh clv_inh sev_inh
      clc_inh sec_inh cli_inh sei_inh lsld_inh
  row_0-IsValid = search opfunc_rules depth 24

  pub row_1-IsValid : All KeepsOpcode row_1
  unfolding row_1 sba_inh cba_inh trap tab_inh tba_inh xgdx_inh daa_inh slp_inh aba_inh
  row_1-IsValid = search opfunc_rules depth 24

  pub row_2-IsValid : All KeepsOpcode row_2
  unfolding row_2 bra_rel brn_rel bhi_rel bls_rel bcc_rel bcs_rel bne_rel beq_rel bvc_rel bvs_rel
      bpl_rel bmi_rel bge_rel blt_rel bgt_rel ble_rel
  row_2-IsValid = search opfunc_rules depth 24

  pub row_3-IsValid : All KeepsOpcode row_3
  unfolding row_3 tsx_inh ins_inh pula_inh pulb_inh des_inh txs_inh psha_inh pshb_inh pulx_inh
      rts_inh abx_inh rti_inh pshx_inh mul_inh wai_inh swi_inh leave
  row_3-IsValid = search opfunc_rules depth 24

  pub row_4-IsValid : All KeepsOpcode row_4
  unfolding row_4 nega_inh trap coma_inh lsra_inh rora_inh asra_inh lsla_inh rola_inh deca_inh
      inca_inh tsta_inh clra_inh
  row_4-IsValid = search opfunc_rules depth 24

  pub row_5-IsValid : All KeepsOpcode row_5
  unfolding row_5 negb_inh trap comb_inh lsrb_inh rorb_inh asrb_inh lslb_inh rolb_inh decb_inh
      incb_inh tstb_inh clrb_inh
  row_5-IsValid = search opfunc_rules depth 24
