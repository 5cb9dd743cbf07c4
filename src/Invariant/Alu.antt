-- ===== src/Invariant/Alu.antt =====
-- The operations of the arithmetic/logic unit preserve the invariant: they write flags alone.
use sim68xx.Common.{ℕ}
use sim68xx.Alu.{
  alu_addbyte, alu_addword, alu_bittestbyte, alu_bittestword, alu_andbyte, alu_clrbyte, alu_combyte,
  alu_decbyte, alu_decword, alu_incbyte, alu_incword, alu_orbyte, alu_xorbyte, alu_shlbyte,
  alu_shrbyte, alu_shlword, alu_shrword, alu_subbyte, alu_negbyte, alu_subword, alu_cmpword,
  alu_testbyte,
}
use sim68xx.Invariant.{Keeps}
use sim68xx.Invariant.Registers.{set_flag-IsValid}

pub alu_addbyte-IsValid : (a b c : ℕ) → Keeps (alu_addbyte a b c)
unfolding alu_addbyte
alu_addbyte-IsValid a b c m v = search (set_flag-IsValid) depth 8

pub alu_addword-IsValid : (a b c : ℕ) → Keeps (alu_addword a b c)
unfolding alu_addword
alu_addword-IsValid a b c m v = search (set_flag-IsValid) depth 8

pub alu_bittestbyte-IsValid : (a : ℕ) → Keeps (alu_bittestbyte a)
unfolding alu_bittestbyte
alu_bittestbyte-IsValid a m v = search (set_flag-IsValid) depth 8

pub alu_bittestword-IsValid : (a : ℕ) → Keeps (alu_bittestword a)
unfolding alu_bittestword
alu_bittestword-IsValid a m v = search (set_flag-IsValid) depth 8

pub alu_andbyte-IsValid : (a b : ℕ) → Keeps (alu_andbyte a b)
unfolding alu_andbyte
alu_andbyte-IsValid a b m v = search (set_flag-IsValid, alu_bittestbyte-IsValid) depth 8

pub alu_clrbyte-IsValid : (a : ℕ) → Keeps (alu_clrbyte a)
unfolding alu_clrbyte
alu_clrbyte-IsValid a m v = search (set_flag-IsValid) depth 8

pub alu_combyte-IsValid : (a : ℕ) → Keeps (alu_combyte a)
unfolding alu_combyte
alu_combyte-IsValid a m v = search (set_flag-IsValid) depth 8

pub alu_decbyte-IsValid : (a : ℕ) → Keeps (alu_decbyte a)
unfolding alu_decbyte
alu_decbyte-IsValid a m v = search (set_flag-IsValid) depth 8

pub alu_decword-IsValid : (a : ℕ) → Keeps (alu_decword a)
unfolding alu_decword
alu_decword-IsValid a m v = search (set_flag-IsValid) depth 8

pub alu_incbyte-IsValid : (a : ℕ) → Keeps (alu_incbyte a)
unfolding alu_incbyte
alu_incbyte-IsValid a m v = search (set_flag-IsValid) depth 8

pub alu_incword-IsValid : (a : ℕ) → Keeps (alu_incword a)
unfolding alu_incword
alu_incword-IsValid a m v = search (set_flag-IsValid) depth 8

pub alu_orbyte-IsValid : (a b : ℕ) → Keeps (alu_orbyte a b)
unfolding alu_orbyte
alu_orbyte-IsValid a b m v = search (set_flag-IsValid, alu_bittestbyte-IsValid) depth 8

pub alu_xorbyte-IsValid : (a b : ℕ) → Keeps (alu_xorbyte a b)
unfolding alu_xorbyte
alu_xorbyte-IsValid a b m v = search (set_flag-IsValid, alu_bittestbyte-IsValid) depth 8

pub alu_shlbyte-IsValid : (a b : ℕ) → Keeps (alu_shlbyte a b)
unfolding alu_shlbyte
alu_shlbyte-IsValid a b m v = search (set_flag-IsValid) depth 8

pub alu_shrbyte-IsValid : (a b : ℕ) → Keeps (alu_shrbyte a b)
unfolding alu_shrbyte
alu_shrbyte-IsValid a b m v = search (set_flag-IsValid) depth 8

pub alu_shlword-IsValid : (a b : ℕ) → Keeps (alu_shlword a b)
unfolding alu_shlword
alu_shlword-IsValid a b m v = search (set_flag-IsValid) depth 8

pub alu_shrword-IsValid : (a b : ℕ) → Keeps (alu_shrword a b)
unfolding alu_shrword
alu_shrword-IsValid a b m v = search (set_flag-IsValid) depth 8

pub alu_subbyte-IsValid : (a b c : ℕ) → Keeps (alu_subbyte a b c)
unfolding alu_subbyte
alu_subbyte-IsValid a b c m v = search (set_flag-IsValid) depth 8

pub alu_negbyte-IsValid : (a : ℕ) → Keeps (alu_negbyte a)
unfolding alu_negbyte
alu_negbyte-IsValid a m v = search (set_flag-IsValid, alu_subbyte-IsValid) depth 8

pub alu_subword-IsValid : (a b c : ℕ) → Keeps (alu_subword a b c)
unfolding alu_subword
alu_subword-IsValid a b c m v = search (set_flag-IsValid) depth 8

pub alu_cmpword-IsValid : (a b c : ℕ) → Keeps (alu_cmpword a b c)
unfolding alu_cmpword
alu_cmpword-IsValid a b c m v = search (set_flag-IsValid) depth 8

pub alu_testbyte-IsValid : (a : ℕ) → Keeps (alu_testbyte a)
unfolding alu_testbyte
alu_testbyte-IsValid a m v = search (set_flag-IsValid, alu_subbyte-IsValid) depth 8

pub ruleset alu_rules = (
  alu_addbyte-IsValid, alu_addword-IsValid, alu_bittestbyte-IsValid, alu_bittestword-IsValid,
  alu_andbyte-IsValid, alu_clrbyte-IsValid, alu_combyte-IsValid, alu_decbyte-IsValid,
  alu_decword-IsValid, alu_incbyte-IsValid, alu_incword-IsValid, alu_orbyte-IsValid,
  alu_xorbyte-IsValid, alu_shlbyte-IsValid, alu_shrbyte-IsValid, alu_shlword-IsValid,
  alu_shrword-IsValid, alu_subbyte-IsValid, alu_negbyte-IsValid, alu_subword-IsValid,
  alu_cmpword-IsValid, alu_testbyte-IsValid,
)
