-- ===== src/Opfunc/Addition.antt =====
-- opfunc.c: additions, increments, the decimal adjustment and the product.
use sim68xx.Common.{ℕ, ◌+◌, ◌*◌, bit_and, Bool, true, ltb, if◌then◌else◌, u32}
use sim68xx.Machine.{M, ◌>>=◌, ◌>>◌, when}
use sim68xx.Machine.Reg.{
  nonzero, reg_setcflag, reg_getcflag, reg_gethflag, reg_getacca, reg_getaccb, reg_getaccd,
  reg_getix, reg_setacca, reg_setaccb, reg_setaccd, reg_setix,
}
use sim68xx.Alu.{alu_addbyte, alu_addword, alu_bittestbyte, alu_incbyte, alu_incword}
use sim68xx.Memory.{Chip}
use sim68xx.Opfunc.Address.{
  getaddr_ext, getaddr_ix, getbyte_imm, getbyte_dir, getbyte_ext, getbyte_ix, getword_imm,
  getword_dir, getword_ext, getword_ix,
}
use sim68xx.Opfunc.Modify.{inc_addr}

-- The adjusted sum of `daa_inh`, from H, C and the accumulator.
abbrev pub adjust : Bool → Bool → ℕ → ℕ
adjust h c a =
    let r1 = if h then a + 0x06 else a in
    let r2 = if ltb 9 (bit_and r1 0x0f) then r1 + 6 else r1 in
    let r3 = if c then r2 + 0x60 else r2 in if ltb 0x90 (bit_and r3 0xf0) then r3 + 0x60 else r3

module _ ⦃chip : Chip⦄ where
  unfoldable pub aba_inh : M (Unit {0})
  aba_inh = do reg_setacca (← alu_addbyte (← reg_getacca) (← reg_getaccb) 0)

  unfoldable pub adca_imm : M (Unit {0})
  adca_imm = do reg_setacca (← alu_addbyte (← reg_getacca) (← getbyte_imm) (← reg_getcflag))

  unfoldable pub adca_dir : M (Unit {0})
  adca_dir = do reg_setacca (← alu_addbyte (← reg_getacca) (← getbyte_dir) (← reg_getcflag))

  unfoldable pub adca_ext : M (Unit {0})
  adca_ext = do reg_setacca (← alu_addbyte (← reg_getacca) (← getbyte_ext) (← reg_getcflag))

  unfoldable pub adca_ind_x : M (Unit {0})
  adca_ind_x = do reg_setacca (← alu_addbyte (← reg_getacca) (← getbyte_ix) (← reg_getcflag))

  unfoldable pub adcb_imm : M (Unit {0})
  adcb_imm = do reg_setaccb (← alu_addbyte (← reg_getaccb) (← getbyte_imm) (← reg_getcflag))

  unfoldable pub adcb_dir : M (Unit {0})
  adcb_dir = do reg_setaccb (← alu_addbyte (← reg_getaccb) (← getbyte_dir) (← reg_getcflag))

  unfoldable pub adcb_ext : M (Unit {0})
  adcb_ext = do reg_setaccb (← alu_addbyte (← reg_getaccb) (← getbyte_ext) (← reg_getcflag))

  unfoldable pub adcb_ind_x : M (Unit {0})
  adcb_ind_x = do reg_setaccb (← alu_addbyte (← reg_getaccb) (← getbyte_ix) (← reg_getcflag))

  unfoldable pub adda_imm : M (Unit {0})
  adda_imm = do reg_setacca (← alu_addbyte (← reg_getacca) (← getbyte_imm) 0)

  unfoldable pub adda_dir : M (Unit {0})
  adda_dir = do reg_setacca (← alu_addbyte (← reg_getacca) (← getbyte_dir) 0)

  unfoldable pub adda_ext : M (Unit {0})
  adda_ext = do reg_setacca (← alu_addbyte (← reg_getacca) (← getbyte_ext) 0)

  unfoldable pub adda_ind_x : M (Unit {0})
  adda_ind_x = do reg_setacca (← alu_addbyte (← reg_getacca) (← getbyte_ix) 0)

  unfoldable pub addb_imm : M (Unit {0})
  addb_imm = do reg_setaccb (← alu_addbyte (← reg_getaccb) (← getbyte_imm) 0)

  unfoldable pub addb_dir : M (Unit {0})
  addb_dir = do reg_setaccb (← alu_addbyte (← reg_getaccb) (← getbyte_dir) 0)

  unfoldable pub addb_ext : M (Unit {0})
  addb_ext = do reg_setaccb (← alu_addbyte (← reg_getaccb) (← getbyte_ext) 0)

  unfoldable pub addb_ind_x : M (Unit {0})
  addb_ind_x = do reg_setaccb (← alu_addbyte (← reg_getaccb) (← getbyte_ix) 0)

  unfoldable pub inc_ext : M (Unit {0})
  inc_ext = do inc_addr (← getaddr_ext)

  unfoldable pub inc_ind_x : M (Unit {0})
  inc_ind_x = do inc_addr (← getaddr_ix)

  unfoldable pub inca_inh : M (Unit {0})
  inca_inh = do reg_setacca (← alu_incbyte (← reg_getacca))

  unfoldable pub incb_inh : M (Unit {0})
  incb_inh = do reg_setaccb (← alu_incbyte (← reg_getaccb))

  unfoldable pub inx_inh : M (Unit {0})
  inx_inh = do reg_setix (← alu_incword (← reg_getix))

  unfoldable pub abx_inh : M (Unit {0})
  abx_inh = do reg_setix (u32 ((← reg_getix) + (← reg_getaccb)))

  unfoldable pub addd_imm : M (Unit {0})
  addd_imm = do reg_setaccd (← alu_addword (← reg_getaccd) (← getword_imm) 0)

  unfoldable pub addd_dir : M (Unit {0})
  addd_dir = do reg_setaccd (← alu_addword (← reg_getaccd) (← getword_dir) 0)

  unfoldable pub addd_ext : M (Unit {0})
  addd_ext = do reg_setaccd (← alu_addword (← reg_getaccd) (← getword_ext) 0)

  unfoldable pub addd_ind_x : M (Unit {0})
  addd_ind_x = do reg_setaccd (← alu_addword (← reg_getaccd) (← getword_ix) 0)

  unfoldable pub daa_inh : M (Unit {0})
  daa_inh = do
    h ← reg_gethflag
    c ← reg_getcflag
    a ← reg_getacca
    let result = adjust (nonzero h) (nonzero c) a
    reg_setacca (← alu_bittestbyte result)
    when (nonzero (bit_and result 0x100)) (reg_setcflag true)

  unfoldable pub mul_inh : M (Unit {0})
  mul_inh = do
    reg_setaccd ((← reg_getacca) * (← reg_getaccb))
    reg_setcflag (nonzero (bit_and (← reg_getaccb) 0x80))
