-- ===== src/H6303/Optab/Low.antt =====
-- Rows 0 to 5 of `opcodetab` in src/arch/h6303/optab.c.
use mathlib.Core.List.{List, [], ◌∷◌}
use sim68xx.H6303.Optab.Entry.{Opcode, opcode}
use sim68xx.Memory.{Chip}
use sim68xx.Opfunc.Addition.{aba_inh, abx_inh, daa_inh, inca_inh, incb_inh, inx_inh, mul_inh}
use sim68xx.Opfunc.Branch.{
  bcc_rel, bcs_rel, beq_rel, bge_rel, bgt_rel, bhi_rel, ble_rel, bls_rel, blt_rel, bmi_rel, bne_rel,
  bpl_rel, bra_rel, brn_rel, bvc_rel, bvs_rel, nop_inh, rti_inh, rts_inh, swi_inh, trap, wai_inh,
}
use sim68xx.Opfunc.Logic.{clra_inh, clrb_inh, coma_inh, comb_inh, tsta_inh, tstb_inh}
use sim68xx.Opfunc.Shift.{
  asld_inh, asra_inh, asrb_inh, lsla_inh, lslb_inh, lsra_inh, lsrb_inh, lsrd_inh, rola_inh,
  rolb_inh, rora_inh, rorb_inh,
}
use sim68xx.Opfunc.Subtraction.{cba_inh, deca_inh, decb_inh, dex_inh, nega_inh, negb_inh, sba_inh}
use sim68xx.Opfunc.Transfer.{
  clc_inh, cli_inh, clv_inh, des_inh, ins_inh, psha_inh, pshb_inh, pshx_inh, pula_inh, pulb_inh,
  pulx_inh, sec_inh, sei_inh, sev_inh, slp_inh, tab_inh, tap_inh, tba_inh, tpa_inh, tsx_inh,
  txs_inh, xgdx_inh,
}

module _ ⦃chip : Chip⦄ where
  unfoldable pub row_0 : List Opcode
  row_0 =
      opcode 0x00 0 trap 0 "---" 4
      ∷ opcode 0x01 0 nop_inh 1 "nop" 4
      ∷ opcode 0x02 0 trap 0 "---" 4
      ∷ opcode 0x03 0 trap 0 "---" 4
      ∷ opcode 0x04 0 lsrd_inh 1 "lsrd" 4
      ∷ opcode 0x05 0 asld_inh 1 "asld" 4
      ∷ opcode 0x06 0 tap_inh 1 "tap" 4
      ∷ opcode 0x07 0 tpa_inh 1 "tpa" 4
      ∷ opcode 0x08 0 inx_inh 1 "inx" 4
      ∷ opcode 0x09 0 dex_inh 1 "dex" 4
      ∷ opcode 0x0a 0 clv_inh 1 "clv" 4
      ∷ opcode 0x0b 0 sev_inh 1 "sev" 4
      ∷ opcode 0x0c 0 clc_inh 1 "clc" 4
      ∷ opcode 0x0d 0 sec_inh 1 "sec" 4
      ∷ opcode 0x0e 0 cli_inh 1 "cli" 4
      ∷ opcode 0x0f 0 sei_inh 1 "sei" 4
      ∷ []

  unfoldable pub row_1 : List Opcode
  row_1 =
      opcode 0x10 0 sba_inh 1 "sba" 4
      ∷ opcode 0x11 0 cba_inh 1 "cba" 4
      ∷ opcode 0x12 0 trap 0 "---" 4
      ∷ opcode 0x13 0 trap 0 "---" 4
      ∷ opcode 0x14 0 trap 0 "---" 4
      ∷ opcode 0x15 0 trap 0 "---" 4
      ∷ opcode 0x16 0 tab_inh 1 "tab" 4
      ∷ opcode 0x17 0 tba_inh 1 "tba" 4
      ∷ opcode 0x18 0 xgdx_inh 2 "xgdx" 4
      ∷ opcode 0x19 0 daa_inh 2 "daa" 4
      ∷ opcode 0x1a 0 slp_inh 4 "slp" 4
      ∷ opcode 0x1b 0 aba_inh 1 "aba" 4
      ∷ opcode 0x1c 0 trap 0 "---" 4
      ∷ opcode 0x1d 0 trap 0 "---" 4
      ∷ opcode 0x1e 0 trap 0 "---" 4
      ∷ opcode 0x1f 0 trap 0 "---" 4
      ∷ []

  unfoldable pub row_2 : List Opcode
  row_2 =
      opcode 0x20 1 bra_rel 3 "bra  %02x" 5
      ∷ opcode 0x21 1 brn_rel 3 "brn  %02x" 5
      ∷ opcode 0x22 1 bhi_rel 3 "bhi  %02x" 5
      ∷ opcode 0x23 1 bls_rel 3 "bls  %02x" 5
      ∷ opcode 0x24 1 bcc_rel 3 "bcc  %02x" 5
      ∷ opcode 0x25 1 bcs_rel 3 "bcs  %02x" 5
      ∷ opcode 0x26 1 bne_rel 3 "bne  %02x" 5
      ∷ opcode 0x27 1 beq_rel 3 "beq  %02x" 5
      ∷ opcode 0x28 1 bvc_rel 3 "bvc  %02x" 5
      ∷ opcode 0x29 1 bvs_rel 3 "bvs  %02x" 5
      ∷ opcode 0x2a 1 bpl_rel 3 "bpl  %02x" 5
      ∷ opcode 0x2b 1 bmi_rel 3 "bmi  %02x" 5
      ∷ opcode 0x2c 1 bge_rel 3 "bge  %02x" 5
      ∷ opcode 0x2d 1 blt_rel 3 "blt  %02x" 5
      ∷ opcode 0x2e 1 bgt_rel 3 "bgt  %02x" 5
      ∷ opcode 0x2f 1 ble_rel 3 "ble  %02x" 5
      ∷ []

  unfoldable pub row_3 : List Opcode
  row_3 =
      opcode 0x30 0 tsx_inh 1 "tsx" 4
      ∷ opcode 0x31 0 ins_inh 1 "ins" 4
      ∷ opcode 0x32 0 pula_inh 3 "pula" 4
      ∷ opcode 0x33 0 pulb_inh 3 "pulb" 4
      ∷ opcode 0x34 0 des_inh 1 "des" 4
      ∷ opcode 0x35 0 txs_inh 1 "txs" 4
      ∷ opcode 0x36 0 psha_inh 4 "psha" 4
      ∷ opcode 0x37 0 pshb_inh 4 "pshb" 4
      ∷ opcode 0x38 0 pulx_inh 4 "pulx" 4
      ∷ opcode 0x39 0 rts_inh 5 "rts\n" 4
      ∷ opcode 0x3a 0 abx_inh 1 "abx" 4
      ∷ opcode 0x3b 0 rti_inh 10 "rti" 4
      ∷ opcode 0x3c 0 pshx_inh 5 "pshx" 4
      ∷ opcode 0x3d 0 mul_inh 7 "mul" 4
      ∷ opcode 0x3e 0 wai_inh 9 "wai" 4
      ∷ opcode 0x3f 0 swi_inh 12 "swi" 4
      ∷ []

  unfoldable pub row_4 : List Opcode
  row_4 =
      opcode 0x40 0 nega_inh 1 "nega" 4
      ∷ opcode 0x41 0 trap 0 "---" 4
      ∷ opcode 0x42 0 trap 0 "---" 4
      ∷ opcode 0x43 0 coma_inh 1 "coma" 4
      ∷ opcode 0x44 0 lsra_inh 1 "lsra" 4
      ∷ opcode 0x45 0 trap 0 "---" 4
      ∷ opcode 0x46 0 rora_inh 1 "rora" 4
      ∷ opcode 0x47 0 asra_inh 1 "asra" 4
      ∷ opcode 0x48 0 lsla_inh 1 "lsla" 4
      ∷ opcode 0x49 0 rola_inh 1 "rola" 4
      ∷ opcode 0x4a 0 deca_inh 1 "deca" 4
      ∷ opcode 0x4b 0 trap 0 "---" 4
      ∷ opcode 0x4c 0 inca_inh 1 "inca" 4
      ∷ opcode 0x4d 0 tsta_inh 1 "tsta" 4
      ∷ opcode 0x4e 0 trap 0 "---" 4
      ∷ opcode 0x4f 0 clra_inh 1 "clra" 4
      ∷ []

  unfoldable pub row_5 : List Opcode
  row_5 =
      opcode 0x50 0 negb_inh 1 "negb" 4
      ∷ opcode 0x51 0 trap 0 "---" 4
      ∷ opcode 0x52 0 trap 0 "---" 4
      ∷ opcode 0x53 0 comb_inh 1 "comb" 4
      ∷ opcode 0x54 0 lsrb_inh 1 "lsrb" 4
      ∷ opcode 0x55 0 trap 0 "---" 4
      ∷ opcode 0x56 0 rorb_inh 1 "rorb" 4
      ∷ opcode 0x57 0 asrb_inh 1 "asrb" 4
      ∷ opcode 0x58 0 lslb_inh 1 "lslb" 4
      ∷ opcode 0x59 0 rolb_inh 1 "rolb" 4
      ∷ opcode 0x5a 0 decb_inh 1 "decb" 4
      ∷ opcode 0x5b 0 trap 0 "---" 4
      ∷ opcode 0x5c 0 incb_inh 1 "incb" 4
      ∷ opcode 0x5d 0 tstb_inh 1 "tstb" 4
      ∷ opcode 0x5e 0 trap 0 "---" 4
      ∷ opcode 0x5f 0 clrb_inh 1 "clrb" 4
      ∷ []
