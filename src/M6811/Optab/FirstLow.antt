-- ===== src/M6811/Optab/FirstLow.antt =====
-- Rows of the opcode table 1 in src/arch/m6811/optab.c.
use mathlib.Core.List.{List, [], ◌∷◌}
use sim68xx.M6811.Optab.Entry.{Opcode, opcode, page, Page}
use sim68xx.Memory.{Chip}
use sim68xx.M6811.Opfunc.Bits.{
  bclr_dir, bclr_ind_x, brclr_dir, brclr_ind_x, brset_dir, brset_ind_x, bset_dir, bset_ind_x,
}
use sim68xx.M6811.Opfunc.Divide.{fdiv_inh, idiv_inh}
use sim68xx.M6811.Opfunc.Interrupt.{rti_6811, swi_6811, test_inh, tpa_inh, trap_6811}
use sim68xx.Opfunc.Addition.{aba_inh, abx_inh, daa_inh, inca_inh, incb_inh, inx_inh, mul_inh}
use sim68xx.Opfunc.Branch.{
  bcc_rel, bcs_rel, beq_rel, bge_rel, bgt_rel, bhi_rel, ble_rel, bls_rel, blt_rel, bmi_rel, bne_rel,
  bpl_rel, bra_rel, brn_rel, bvc_rel, bvs_rel, nop_inh, rts_inh, wai_inh,
}
use sim68xx.Opfunc.Logic.{clra_inh, clrb_inh, coma_inh, comb_inh, tsta_inh, tstb_inh}
use sim68xx.Opfunc.Shift.{
  asld_inh, asra_inh, asrb_inh, lsla_inh, lslb_inh, lsra_inh, lsrb_inh, lsrd_inh, rola_inh,
  rolb_inh, rora_inh, rorb_inh,
}
use sim68xx.Opfunc.Subtraction.{cba_inh, deca_inh, decb_inh, dex_inh, nega_inh, negb_inh, sba_inh}
use sim68xx.Opfunc.Transfer.{
  clc_inh, cli_inh, clv_inh, des_inh, ins_inh, psha_inh, pshb_inh, pshx_inh, pula_inh, pulb_inh,
  pulx_inh, sec_inh, sei_inh, sev_inh, tab_inh, tap_inh, tba_inh, tsx_inh, txs_inh,
}

module _ ⦃chip : Chip⦄ where
  unfoldable pub first_0 : List Opcode
  first_0 =
      opcode 0x00 1 0 test_inh 0 "test"
      ∷ opcode 0x01 1 0 nop_inh 2 "nop"
      ∷ opcode 0x02 1 0 idiv_inh 41 "idiv"
      ∷ opcode 0x03 1 0 fdiv_inh 41 "fdiv"
      ∷ opcode 0x04 1 0 lsrd_inh 3 "lsrd"
      ∷ opcode 0x05 1 0 asld_inh 3 "asld"
      ∷ opcode 0x06 1 0 tap_inh 2 "tap"
      ∷ opcode 0x07 1 0 tpa_inh 2 "tpa"
      ∷ opcode 0x08 1 0 inx_inh 3 "inx"
      ∷ opcode 0x09 1 0 dex_inh 3 "dex"
      ∷ opcode 0x0a 1 0 clv_inh 2 "clv"
      ∷ opcode 0x0b 1 0 sev_inh 2 "sev"
      ∷ opcode 0x0c 1 0 clc_inh 2 "clc"
      ∷ opcode 0x0d 1 0 sec_inh 2 "sec"
      ∷ opcode 0x0e 1 0 cli_inh 2 "cli"
      ∷ opcode 0x0f 1 0 sei_inh 2 "sei"
      ∷ []

  unfoldable pub first_1 : List Opcode
  first_1 =
      opcode 0x10 1 0 sba_inh 2 "sba"
      ∷ opcode 0x11 1 0 cba_inh 2 "cba"
      ∷ opcode 0x12 1 3 brset_dir 6 "brset %02x #%02x %02x"
      ∷ opcode 0x13 1 3 brclr_dir 6 "brclr %02x #%02x %02x"
      ∷ opcode 0x14 1 2 bset_dir 6 "bset  %02x #%02x"
      ∷ opcode 0x15 1 2 bclr_dir 6 "bclr  %02x #%02x"
      ∷ opcode 0x16 1 0 tab_inh 2 "tab"
      ∷ opcode 0x17 1 0 tba_inh 2 "tba"
      ∷ page 0x18 0 0 0 "page2" Page.opcodetab2
      ∷ opcode 0x19 1 0 daa_inh 2 "daa"
      ∷ page 0x1a 0 0 0 "page3" Page.opcodetab3
      ∷ opcode 0x1b 1 0 aba_inh 2 "aba"
      ∷ opcode 0x1c 1 2 bset_ind_x 7 "bset  %02x,x #%02x"
      ∷ opcode 0x1d 1 2 bclr_ind_x 7 "bclr  %02x,x #%02x"
      ∷ opcode 0x1e 1 3 brset_ind_x 7 "brset %02x,x #%02x %02x"
      ∷ opcode 0x1f 1 3 brclr_ind_x 7 "brclr %02x,x #%02x %02x"
      ∷ []

  unfoldable pub first_2 : List Opcode
  first_2 =
      opcode 0x20 1 1 bra_rel 3 "bra   %02x"
      ∷ opcode 0x21 1 1 brn_rel 3 "brn   %02x"
      ∷ opcode 0x22 1 1 bhi_rel 3 "bhi   %02x"
      ∷ opcode 0x23 1 1 bls_rel 3 "bls   %02x"
      ∷ opcode 0x24 1 1 bcc_rel 3 "bcc   %02x"
      ∷ opcode 0x25 1 1 bcs_rel 3 "bcs   %02x"
      ∷ opcode 0x26 1 1 bne_rel 3 "bne   %02x"
      ∷ opcode 0x27 1 1 beq_rel 3 "beq   %02x"
      ∷ opcode 0x28 1 1 bvc_rel 3 "bvc   %02x"
      ∷ opcode 0x29 1 1 bvs_rel 3 "bvs   %02x"
      ∷ opcode 0x2a 1 1 bpl_rel 3 "bpl   %02x"
      ∷ opcode 0x2b 1 1 bmi_rel 3 "bmi   %02x"
      ∷ opcode 0x2c 1 1 bge_rel 3 "bge   %02x"
      ∷ opcode 0x2d 1 1 blt_rel 3 "blt   %02x"
      ∷ opcode 0x2e 1 1 bgt_rel 3 "bgt   %02x"
      ∷ opcode 0x2f 1 1 ble_rel 3 "ble   %02x"
      ∷ []

  unfoldable pub first_3 : List Opcode
  first_3 =
      opcode 0x30 1 0 tsx_inh 3 "tsx"
      ∷ opcode 0x31 1 0 ins_inh 3 "ins"
      ∷ opcode 0x32 1 0 pula_inh 4 "pula"
      ∷ opcode 0x33 1 0 pulb_inh 4 "pulb"
      ∷ opcode 0x34 1 0 des_inh 3 "des"
      ∷ opcode 0x35 1 0 txs_inh 3 "txs"
      ∷ opcode 0x36 1 0 psha_inh 3 "psha"
      ∷ opcode 0x37 1 0 pshb_inh 3 "pshb"
      ∷ opcode 0x38 1 0 pulx_inh 5 "pulx"
      ∷ opcode 0x39 1 0 rts_inh 5 "rts"
      ∷ opcode 0x3a 1 0 abx_inh 3 "abx"
      ∷ opcode 0x3b 1 0 rti_6811 12 "rti"
      ∷ opcode 0x3c 1 0 pshx_inh 4 "pshx"
      ∷ opcode 0x3d 1 0 mul_inh 10 "mul"
      ∷ opcode 0x3e 1 0 wai_inh 14 "wai"
      ∷ opcode 0x3f 1 0 swi_6811 14 "swi"
      ∷ []

  unfoldable pub first_4 : List Opcode
  first_4 =
      opcode 0x40 1 0 nega_inh 2 "nega"
      ∷ opcode 0x41 1 0 trap_6811 0 "-"
      ∷ opcode 0x42 1 0 trap_6811 0 "-"
      ∷ opcode 0x43 1 0 coma_inh 2 "coma"
      ∷ opcode 0x44 1 0 lsra_inh 2 "lsra"
      ∷ opcode 0x45 1 0 trap_6811 0 "-"
      ∷ opcode 0x46 1 0 rora_inh 2 "rora"
      ∷ opcode 0x47 1 0 asra_inh 2 "asra"
      ∷ opcode 0x48 1 0 lsla_inh 2 "lsla"
      ∷ opcode 0x49 1 0 rola_inh 2 "rola"
      ∷ opcode 0x4a 1 0 deca_inh 2 "deca"
      ∷ opcode 0x4b 1 0 trap_6811 0 "-"
      ∷ opcode 0x4c 1 0 inca_inh 2 "inca"
      ∷ opcode 0x4d 1 0 tsta_inh 2 "tsta"
      ∷ opcode 0x4e 1 0 trap_6811 0 "-"
      ∷ opcode 0x4f 1 0 clra_inh 2 "clra"
      ∷ []

  unfoldable pub first_5 : List Opcode
  first_5 =
      opcode 0x50 1 0 negb_inh 2 "negb"
      ∷ opcode 0x51 1 0 trap_6811 0 "-"
      ∷ opcode 0x52 1 0 trap_6811 0 "-"
      ∷ opcode 0x53 1 0 comb_inh 2 "comb"
      ∷ opcode 0x54 1 0 lsrb_inh 2 "lsrb"
      ∷ opcode 0x55 1 0 trap_6811 0 "-"
      ∷ opcode 0x56 1 0 rorb_inh 2 "rorb"
      ∷ opcode 0x57 1 0 asrb_inh 2 "asrb"
      ∷ opcode 0x58 1 0 lslb_inh 2 "lslb"
      ∷ opcode 0x59 1 0 rolb_inh 2 "rolb"
      ∷ opcode 0x5a 1 0 decb_inh 2 "decb"
      ∷ opcode 0x5b 1 0 trap_6811 0 "-"
      ∷ opcode 0x5c 1 0 incb_inh 2 "incb"
      ∷ opcode 0x5d 1 0 tstb_inh 2 "tstb"
      ∷ opcode 0x5e 1 0 trap_6811 0 "-"
      ∷ opcode 0x5f 1 0 clrb_inh 2 "clrb"
      ∷ []
