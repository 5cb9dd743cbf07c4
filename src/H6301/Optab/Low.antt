-- ===== src/H6301/Optab/Low.antt =====
-- Rows 0 to 5 of `opcodetab` in src/arch/h6301/optab.c.
use mathlib.Core.List.{List, [], ◌∷◌}
use sim68xx.H6301.Optab.Entry.{Opcode, opcode}
use sim68xx.Memory.{Chip}
use sim68xx.Opfunc.Addition.{aba_inh, abx_inh, daa_inh, inca_inh, incb_inh, inx_inh, mul_inh}
use sim68xx.Opfunc.Branch.{
  bcc_rel, bcs_rel, beq_rel, bge_rel, bgt_rel, bhi_rel, ble_rel, bls_rel, blt_rel, bmi_rel, bne_rel,
  bpl_rel, bra_rel, brn_rel, bvc_rel, bvs_rel, nop_inh, rti_inh, rts_inh, swi_inh, trap, wai_inh,
}
use sim68xx.Opfunc.Logic.{clra_inh, clrb_inh, coma_inh, comb_inh, tsta_inh, tstb_inh}
use sim68xx.Opfunc.Shift.{
  asld_inh, asra_inh, asrb_inh, lsla_inh, lslb_inh, lsra_inh, lsrb_inh, lsrd_inh, rola_inh,
  rolb_inh, rora_inh, rorb_inh,
}
use sim68xx.Opfunc.Subtraction.{cba_inh, deca_inh, decb_inh, dex_inh, nega_inh, negb_inh, sba_inh}
use sim68xx.Opfunc.Transfer.{
  clc_inh, cli_inh, clv_inh, des_inh, ins_inh, psha_inh, pshb_inh, pshx_inh, pula_inh, pulb_inh,
  pulx_inh, sec_inh, sei_inh, sev_inh, slp_inh, tab_inh, tap_inh, tba_inh, tpa_inh, tsx_inh,
  txs_inh, xgdx_inh,
}

module _ ⦃chip : Chip⦄ where
  unfoldable pub row_0 : List Opcode
  row_0 =
      opcode 0x00 0 trap 0 "---"
      ∷ opcode 0x01 0 nop_inh 1 "nop"
      ∷ opcode 0x02 0 trap 0 "---"
      ∷ opcode 0x03 0 trap 0 "---"
      ∷ opcode 0x04 0 lsrd_inh 1 "lsrd"
      ∷ opcode 0x05 0 asld_inh 1 "asld"
      ∷ opcode 0x06 0 tap_inh 1 "tap"
      ∷ opcode 0x07 0 tpa_inh 1 "tpa"
      ∷ opcode 0x08 0 inx_inh 1 "inx"
      ∷ opcode 0x09 0 dex_inh 1 "dex"
      ∷ opcode 0x0a 0 clv_inh 1 "clv"
      ∷ opcode 0x0b 0 sev_inh 1 "sev"
      ∷ opcode 0x0c 0 clc_inh 1 "clc"
      ∷ opcode 0x0d 0 sec_inh 1 "sec"
      ∷ opcode 0x0e 0 cli_inh 1 "cli"
      ∷ opcode 0x0f 0 sei_inh 1 "sei"
      ∷ []

  unfoldable pub row_1 : List Opcode
  row_1 =
      opcode 0x10 0 sba_inh 1 "sba"
      ∷ opcode 0x11 0 cba_inh 1 "cba"
      ∷ opcode 0x12 0 trap 0 "---"
      ∷ opcode 0x13 0 trap 0 "---"
      ∷ opcode 0x14 0 trap 0 "---"
      ∷ opcode 0x15 0 trap 0 "---"
      ∷ opcode 0x16 0 tab_inh 1 "tab"
      ∷ opcode 0x17 0 tba_inh 1 "tba"
      ∷ opcode 0x18 0 xgdx_inh 2 "xgdx"
      ∷ opcode 0x19 0 daa_inh 2 "daa"
      ∷ opcode 0x1a 0 slp_inh 4 "slp"
      ∷ opcode 0x1b 0 aba_inh 1 "aba"
      ∷ opcode 0x1c 0 trap 0 "---"
      ∷ opcode 0x1d 0 trap 0 "---"
      ∷ opcode 0x1e 0 trap 0 "---"
      ∷ opcode 0x1f 0 trap 0 "---"
      ∷ []

  unfoldable pub row_2 : List Opcode
  row_2 =
      opcode 0x20 1 bra_rel 3 "bra  %02x"
      ∷ opcode 0x21 1 brn_rel 3 "brn  %02x"
      ∷ opcode 0x22 1 bhi_rel 3 "bhi  %02x"
      ∷ opcode 0x23 1 bls_rel 3 "bls  %02x"
      ∷ opcode 0x24 1 bcc_rel 3 "bcc  %02x"
      ∷ opcode 0x25 1 bcs_rel 3 "bcs  %02x"
      ∷ opcode 0x26 1 bne_rel 3 "bne  %02x"
      ∷ opcode 0x27 1 beq_rel 3 "beq  %02x"
      ∷ opcode 0x28 1 bvc_rel 3 "bvc  %02x"
      ∷ opcode 0x29 1 bvs_rel 3 "bvs  %02x"
      ∷ opcode 0x2a 1 bpl_rel 3 "bpl  %02x"
      ∷ opcode 0x2b 1 bmi_rel 3 "bmi  %02x"
      ∷ opcode 0x2c 1 bge_rel 3 "bge  %02x"
      ∷ opcode 0x2d 1 blt_rel 3 "blt  %02x"
      ∷ opcode 0x2e 1 bgt_rel 3 "bgt  %02x"
      ∷ opcode 0x2f 1 ble_rel 3 "ble  %02x"
      ∷ []

  unfoldable pub row_3 : List Opcode
  row_3 =
      opcode 0x30 0 tsx_inh 1 "tsx"
      ∷ opcode 0x31 0 ins_inh 1 "ins"
      ∷ opcode 0x32 0 pula_inh 3 "pula"
      ∷ opcode 0x33 0 pulb_inh 3 "pulb"
      ∷ opcode 0x34 0 des_inh 1 "des"
      ∷ opcode 0x35 0 txs_inh 1 "txs"
      ∷ opcode 0x36 0 psha_inh 4 "psha"
      ∷ opcode 0x37 0 pshb_inh 4 "pshb"
      ∷ opcode 0x38 0 pulx_inh 4 "pulx"
      ∷ opcode 0x39 0 rts_inh 5 "rts\n"
      ∷ opcode 0x3a 0 abx_inh 1 "abx"
      ∷ opcode 0x3b 0 rti_inh 10 "rti"
      ∷ opcode 0x3c 0 pshx_inh 5 "pshx"
      ∷ opcode 0x3d 0 mul_inh 7 "mul"
      ∷ opcode 0x3e 0 wai_inh 9 "wai"
      ∷ opcode 0x3f 0 swi_inh 12 "swi"
      ∷ []

  unfoldable pub row_4 : List Opcode
  row_4 =
      opcode 0x40 0 nega_inh 1 "nega"
      ∷ opcode 0x41 0 trap 0 "---"
      ∷ opcode 0x42 0 trap 0 "---"
      ∷ opcode 0x43 0 coma_inh 1 "coma"
      ∷ opcode 0x44 0 lsra_inh 1 "lsra"
      ∷ opcode 0x45 0 trap 0 "---"
      ∷ opcode 0x46 0 rora_inh 1 "rora"
      ∷ opcode 0x47 0 asra_inh 1 "asra"
      ∷ opcode 0x48 0 lsla_inh 1 "lsla"
      ∷ opcode 0x49 0 rola_inh 1 "rola"
      ∷ opcode 0x4a 0 deca_inh 1 "deca"
      ∷ opcode 0x4b 0 trap 0 "---"
      ∷ opcode 0x4c 0 inca_inh 1 "inca"
      ∷ opcode 0x4d 0 tsta_inh 1 "tsta"
      ∷ opcode 0x4e 0 trap 0 "---"
      ∷ opcode 0x4f 0 clra_inh 1 "clra"
      ∷ []

  unfoldable pub row_5 : List Opcode
  row_5 =
      opcode 0x50 0 negb_inh 1 "negb"
      ∷ opcode 0x51 0 trap 0 "---"
      ∷ opcode 0x52 0 trap 0 "---"
      ∷ opcode 0x53 0 comb_inh 1 "comb"
      ∷ opcode 0x54 0 lsrb_inh 1 "lsrb"
      ∷ opcode 0x55 0 trap 0 "---"
      ∷ opcode 0x56 0 rorb_inh 1 "rorb"
      ∷ opcode 0x57 0 asrb_inh 1 "asrb"
      ∷ opcode 0x58 0 lslb_inh 1 "lslb"
      ∷ opcode 0x59 0 rolb_inh 1 "rolb"
      ∷ opcode 0x5a 0 decb_inh 1 "decb"
      ∷ opcode 0x5b 0 trap 0 "---"
      ∷ opcode 0x5c 0 incb_inh 1 "incb"
      ∷ opcode 0x5d 0 tstb_inh 1 "tstb"
      ∷ opcode 0x5e 0 trap 0 "---"
      ∷ opcode 0x5f 0 clrb_inh 1 "clrb"
      ∷ []
