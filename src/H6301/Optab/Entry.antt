-- ===== src/H6301/Optab/Entry.antt =====
-- `struct opcode` of inc/arch/m68xx/optab.h, in the H6301 build, which has no address mode.
use Prim.Native.String.{String}
use sim68xx.Common.{ℕ}
use sim68xx.Machine.{M}

pub record Opcode : Type 0 where
  pub op_value : ℕ
  pub op_n_operands : ℕ
  pub op_func : M (Unit {0})
  pub op_n_cycles : ℕ
  pub op_mnemonic : String

abbrev pub opcode : ℕ → ℕ → M (Unit {0}) → ℕ → String → Opcode
opcode value n_operands func n_cycles mnemonic = record {
  op_value = value;
  op_n_operands = n_operands;
  op_func = func;
  op_n_cycles = n_cycles;
  op_mnemonic = mnemonic;
}
