-- ===== src/Opfunc/Subtraction.antt =====
-- opfunc.c: subtractions, comparisons, decrements and negations.
use sim68xx.Machine.{M, ◌>>=◌, drop_value}
use sim68xx.Machine.Reg.{
  reg_getcflag, reg_getacca, reg_getaccb, reg_getaccd, reg_getix, reg_setacca, reg_setaccb,
  reg_setaccd, reg_setix,
}
use sim68xx.Alu.{alu_decbyte, alu_decword, alu_negbyte, alu_subbyte, alu_subword, alu_cmpword}
use sim68xx.Memory.{Chip}
use sim68xx.Opfunc.Address.{
  getaddr_ext, getaddr_ix, getbyte_imm, getbyte_dir, getbyte_ext, getbyte_ix, getword_imm,
  getword_dir, getword_ext, getword_ix,
}
use sim68xx.Opfunc.Modify.{dec_addr, neg_addr}

module _ ⦃chip : Chip⦄ where
  unfoldable pub cba_inh : M (Unit {0})
  cba_inh = drop_value (do alu_subbyte (← reg_getacca) (← reg_getaccb) 0)

  unfoldable pub cmpa_imm : M (Unit {0})
  cmpa_imm = drop_value (do alu_subbyte (← reg_getacca) (← getbyte_imm) 0)

  unfoldable pub cmpa_dir : M (Unit {0})
  cmpa_dir = drop_value (do alu_subbyte (← reg_getacca) (← getbyte_dir) 0)

  unfoldable pub cmpa_ext : M (Unit {0})
  cmpa_ext = drop_value (do alu_subbyte (← reg_getacca) (← getbyte_ext) 0)

  unfoldable pub cmpa_ind_x : M (Unit {0})
  cmpa_ind_x = drop_value (do alu_subbyte (← reg_getacca) (← getbyte_ix) 0)

  unfoldable pub cmpb_imm : M (Unit {0})
  cmpb_imm = drop_value (do alu_subbyte (← reg_getaccb) (← getbyte_imm) 0)

  unfoldable pub cmpb_dir : M (Unit {0})
  cmpb_dir = drop_value (do alu_subbyte (← reg_getaccb) (← getbyte_dir) 0)

  unfoldable pub cmpb_ext : M (Unit {0})
  cmpb_ext = drop_value (do alu_subbyte (← reg_getaccb) (← getbyte_ext) 0)

  unfoldable pub cmpb_ind_x : M (Unit {0})
  cmpb_ind_x = drop_value (do alu_subbyte (← reg_getaccb) (← getbyte_ix) 0)

  unfoldable pub cpx_imm : M (Unit {0})
  cpx_imm = drop_value (do alu_cmpword (← reg_getix) (← getword_imm) 0)

  unfoldable pub cpx_dir : M (Unit {0})
  cpx_dir = drop_value (do alu_cmpword (← reg_getix) (← getword_dir) 0)

  unfoldable pub cpx_ext : M (Unit {0})
  cpx_ext = drop_value (do alu_cmpword (← reg_getix) (← getword_ext) 0)

  unfoldable pub cpx_ind_x : M (Unit {0})
  cpx_ind_x = drop_value (do alu_cmpword (← reg_getix) (← getword_ix) 0)

  unfoldable pub dec_ext : M (Unit {0})
  dec_ext = do dec_addr (← getaddr_ext)

  unfoldable pub dec_ind_x : M (Unit {0})
  dec_ind_x = do dec_addr (← getaddr_ix)

  unfoldable pub deca_inh : M (Unit {0})
  deca_inh = do reg_setacca (← alu_decbyte (← reg_getacca))

  unfoldable pub decb_inh : M (Unit {0})
  decb_inh = do reg_setaccb (← alu_decbyte (← reg_getaccb))

  unfoldable pub dex_inh : M (Unit {0})
  dex_inh = do reg_setix (← alu_decword (← reg_getix))

  unfoldable pub neg_ext : M (Unit {0})
  neg_ext = do neg_addr (← getaddr_ext)

  unfoldable pub neg_ind_x : M (Unit {0})
  neg_ind_x = do neg_addr (← getaddr_ix)

  unfoldable pub nega_inh : M (Unit {0})
  nega_inh = do reg_setacca (← alu_negbyte (← reg_getacca))

  unfoldable pub negb_inh : M (Unit {0})
  negb_inh = do reg_setaccb (← alu_negbyte (← reg_getaccb))

  unfoldable pub sba_inh : M (Unit {0})
  sba_inh = do reg_setacca (← alu_subbyte (← reg_getacca) (← reg_getaccb) 0)

  unfoldable pub sbca_imm : M (Unit {0})
  sbca_imm = do reg_setacca (← alu_subbyte (← reg_getacca) (← getbyte_imm) (← reg_getcflag))

  unfoldable pub sbca_dir : M (Unit {0})
  sbca_dir = do reg_setacca (← alu_subbyte (← reg_getacca) (← getbyte_dir) (← reg_getcflag))

  unfoldable pub sbca_ext : M (Unit {0})
  sbca_ext = do reg_setacca (← alu_subbyte (← reg_getacca) (← getbyte_ext) (← reg_getcflag))

  unfoldable pub sbca_ind_x : M (Unit {0})
  sbca_ind_x = do reg_setacca (← alu_subbyte (← reg_getacca) (← getbyte_ix) (← reg_getcflag))

  unfoldable pub sbcb_imm : M (Unit {0})
  sbcb_imm = do reg_setaccb (← alu_subbyte (← reg_getaccb) (← getbyte_imm) (← reg_getcflag))

  unfoldable pub sbcb_dir : M (Unit {0})
  sbcb_dir = do reg_setaccb (← alu_subbyte (← reg_getaccb) (← getbyte_dir) (← reg_getcflag))

  unfoldable pub sbcb_ext : M (Unit {0})
  sbcb_ext = do reg_setaccb (← alu_subbyte (← reg_getaccb) (← getbyte_ext) (← reg_getcflag))

  unfoldable pub sbcb_ind_x : M (Unit {0})
  sbcb_ind_x = do reg_setaccb (← alu_subbyte (← reg_getaccb) (← getbyte_ix) (← reg_getcflag))

  unfoldable pub suba_imm : M (Unit {0})
  suba_imm = do reg_setacca (← alu_subbyte (← reg_getacca) (← getbyte_imm) 0)

  unfoldable pub suba_dir : M (Unit {0})
  suba_dir = do reg_setacca (← alu_subbyte (← reg_getacca) (← getbyte_dir) 0)

  unfoldable pub suba_ext : M (Unit {0})
  suba_ext = do reg_setacca (← alu_subbyte (← reg_getacca) (← getbyte_ext) 0)

  unfoldable pub suba_ind_x : M (Unit {0})
  suba_ind_x = do reg_setacca (← alu_subbyte (← reg_getacca) (← getbyte_ix) 0)

  unfoldable pub subb_imm : M (Unit {0})
  subb_imm = do reg_setaccb (← alu_subbyte (← reg_getaccb) (← getbyte_imm) 0)

  unfoldable pub subb_dir : M (Unit {0})
  subb_dir = do reg_setaccb (← alu_subbyte (← reg_getaccb) (← getbyte_dir) 0)

  unfoldable pub subb_ext : M (Unit {0})
  subb_ext = do reg_setaccb (← alu_subbyte (← reg_getaccb) (← getbyte_ext) 0)

  unfoldable pub subb_ind_x : M (Unit {0})
  subb_ind_x = do reg_setaccb (← alu_subbyte (← reg_getaccb) (← getbyte_ix) 0)

  unfoldable pub subd_imm : M (Unit {0})
  subd_imm = do reg_setaccd (← alu_subword (← reg_getaccd) (← getword_imm) 0)

  unfoldable pub subd_dir : M (Unit {0})
  subd_dir = do reg_setaccd (← alu_subword (← reg_getaccd) (← getword_dir) 0)

  unfoldable pub subd_ext : M (Unit {0})
  subd_ext = do reg_setaccd (← alu_subword (← reg_getaccd) (← getword_ext) 0)

  unfoldable pub subd_ind_x : M (Unit {0})
  subd_ind_x = do reg_setaccd (← alu_subword (← reg_getaccd) (← getword_ix) 0)
