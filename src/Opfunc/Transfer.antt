-- ===== src/Opfunc/Transfer.antt =====
-- opfunc.c: transfers between registers, pushes and pulls, and single flags.
use sim68xx.Common.{◌+◌, true, false, u32, sub32}
use sim68xx.Machine.{M, pure, ◌>>=◌, ◌>>◌, drop_value}
use sim68xx.Machine.Reg.{
  reg_setcflag, reg_setvflag, reg_setiflag, reg_getacca, reg_getaccb, reg_getaccd, reg_getix,
  reg_getsp, reg_getccr, reg_setacca, reg_setaccb, reg_setaccd, reg_setix, reg_setccr,
}
use sim68xx.Callstack.{reg_setsp, reg_incsp}
use sim68xx.Alu.{alu_bittestbyte}
use sim68xx.Memory.{Chip}
use sim68xx.Opfunc.Address.{pushbyte, pushword, popbyte, popword}

module _ ⦃chip : Chip⦄ where
  unfoldable pub clc_inh : M (Unit {0})
  clc_inh = reg_setcflag false

  unfoldable pub cli_inh : M (Unit {0})
  cli_inh = reg_setiflag false

  unfoldable pub clv_inh : M (Unit {0})
  clv_inh = reg_setvflag false

  unfoldable pub des_inh : M (Unit {0})
  des_inh = drop_value (reg_incsp (sub32 0 1))

  unfoldable pub ins_inh : M (Unit {0})
  ins_inh = drop_value (reg_incsp 1)

  unfoldable pub psha_inh : M (Unit {0})
  psha_inh = do pushbyte (← reg_getacca)

  unfoldable pub pshb_inh : M (Unit {0})
  pshb_inh = do pushbyte (← reg_getaccb)

  unfoldable pub pula_inh : M (Unit {0})
  pula_inh = do reg_setacca (← popbyte)

  unfoldable pub pulb_inh : M (Unit {0})
  pulb_inh = do reg_setaccb (← popbyte)

  unfoldable pub sec_inh : M (Unit {0})
  sec_inh = reg_setcflag true

  unfoldable pub sei_inh : M (Unit {0})
  sei_inh = reg_setiflag true

  unfoldable pub sev_inh : M (Unit {0})
  sev_inh = reg_setvflag true

  unfoldable pub tab_inh : M (Unit {0})
  tab_inh = do reg_setaccb (← alu_bittestbyte (← reg_getacca))

  unfoldable pub tap_inh : M (Unit {0})
  tap_inh = do reg_setccr (← reg_getacca)

  unfoldable pub tba_inh : M (Unit {0})
  tba_inh = do reg_setacca (← alu_bittestbyte (← reg_getaccb))

  unfoldable pub tpa_inh : M (Unit {0})
  tpa_inh = do reg_setacca (← reg_getccr)

  unfoldable pub tsx_inh : M (Unit {0})
  tsx_inh = do reg_setix (u32 ((← reg_getsp) + 1))

  unfoldable pub txs_inh : M (Unit {0})
  txs_inh = drop_value (do reg_setsp (sub32 (← reg_getix) 1))

  unfoldable pub pshx_inh : M (Unit {0})
  pshx_inh = do pushword (← reg_getix)

  unfoldable pub pulx_inh : M (Unit {0})
  pulx_inh = do reg_setix (← popword)

  unfoldable pub xgdx_inh : M (Unit {0})
  xgdx_inh = do old_x ← reg_getix; reg_setix (← reg_getaccd); reg_setaccd old_x

  unfoldable pub slp_inh : M (Unit {0})
  slp_inh = pure tt
