-- ===== src/Opfunc/Shift.antt =====
-- opfunc.c: shifts and rotations.
use sim68xx.Common.{bit_and}
use sim68xx.Machine.{M, ◌>>=◌}
use sim68xx.Machine.Reg.{
  reg_getcflag, reg_getacca, reg_getaccb, reg_getaccd, reg_setacca, reg_setaccb, reg_setaccd,
}
use sim68xx.Alu.{alu_shlbyte, alu_shrbyte, alu_shlword, alu_shrword}
use sim68xx.Memory.{Chip}
use sim68xx.Opfunc.Address.{getaddr_ext, getaddr_ix}
use sim68xx.Opfunc.Modify.{asr_addr, lsl_addr, lsr_addr, rol_addr, ror_addr}

module _ ⦃chip : Chip⦄ where
  unfoldable pub asr_ext : M (Unit {0})
  asr_ext = do asr_addr (← getaddr_ext)

  unfoldable pub asr_ind_x : M (Unit {0})
  asr_ind_x = do asr_addr (← getaddr_ix)

  unfoldable pub asra_inh : M (Unit {0})
  asra_inh = do reg_setacca (← alu_shrbyte (← reg_getacca) (bit_and (← reg_getacca) 0x80))

  unfoldable pub asrb_inh : M (Unit {0})
  asrb_inh = do reg_setaccb (← alu_shrbyte (← reg_getaccb) (bit_and (← reg_getaccb) 0x80))

  unfoldable pub lsl_ext : M (Unit {0})
  lsl_ext = do lsl_addr (← getaddr_ext)

  unfoldable pub lsl_ind_x : M (Unit {0})
  lsl_ind_x = do lsl_addr (← getaddr_ix)

  unfoldable pub lsla_inh : M (Unit {0})
  lsla_inh = do reg_setacca (← alu_shlbyte (← reg_getacca) 0)

  unfoldable pub lslb_inh : M (Unit {0})
  lslb_inh = do reg_setaccb (← alu_shlbyte (← reg_getaccb) 0)

  unfoldable pub lsr_ext : M (Unit {0})
  lsr_ext = do lsr_addr (← getaddr_ext)

  unfoldable pub lsr_ind_x : M (Unit {0})
  lsr_ind_x = do lsr_addr (← getaddr_ix)

  unfoldable pub lsra_inh : M (Unit {0})
  lsra_inh = do reg_setacca (← alu_shrbyte (← reg_getacca) 0)

  unfoldable pub lsrb_inh : M (Unit {0})
  lsrb_inh = do reg_setaccb (← alu_shrbyte (← reg_getaccb) 0)

  unfoldable pub rol_ext : M (Unit {0})
  rol_ext = do rol_addr (← getaddr_ext)

  unfoldable pub rol_ind_x : M (Unit {0})
  rol_ind_x = do rol_addr (← getaddr_ix)

  unfoldable pub rola_inh : M (Unit {0})
  rola_inh = do reg_setacca (← alu_shlbyte (← reg_getacca) (← reg_getcflag))

  unfoldable pub rolb_inh : M (Unit {0})
  rolb_inh = do reg_setaccb (← alu_shlbyte (← reg_getaccb) (← reg_getcflag))

  unfoldable pub ror_ext : M (Unit {0})
  ror_ext = do ror_addr (← getaddr_ext)

  unfoldable pub ror_ind_x : M (Unit {0})
  ror_ind_x = do ror_addr (← getaddr_ix)

  unfoldable pub rora_inh : M (Unit {0})
  rora_inh = do reg_setacca (← alu_shrbyte (← reg_getacca) (← reg_getcflag))

  unfoldable pub rorb_inh : M (Unit {0})
  rorb_inh = do reg_setaccb (← alu_shrbyte (← reg_getaccb) (← reg_getcflag))

  unfoldable pub lsld_inh : M (Unit {0})
  lsld_inh = do reg_setaccd (← alu_shlword (← reg_getaccd) 0)

  unfoldable pub lsrd_inh : M (Unit {0})
  lsrd_inh = do reg_setaccd (← alu_shrword (← reg_getaccd) 0)

  unfoldable pub asld_inh : M (Unit {0})
  asld_inh = lsld_inh
