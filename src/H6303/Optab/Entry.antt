-- ===== src/H6303/Optab/Entry.antt =====
-- `struct opcode` of inc/arch/m68xx/optab.h, in the H6303 build.
use Prim.Native.String.{String}
use sim68xx.Common.{ℕ}
use sim68xx.Machine.{M}

pub record Opcode : Type 0 where
  pub op_value : ℕ
  pub op_n_operands : ℕ
  pub op_func : M (Unit {0})
  pub op_n_cycles : ℕ
  pub op_mnemonic : String
  pub op_addrmode : ℕ

abbrev pub opcode : ℕ → ℕ → M (Unit {0}) → ℕ → String → ℕ → Opcode
opcode value n_operands func n_cycles mnemonic addrmode = record {
  op_value = value;
  op_n_operands = n_operands;
  op_func = func;
  op_n_cycles = n_cycles;
  op_mnemonic = mnemonic;
  op_addrmode = addrmode;
}
