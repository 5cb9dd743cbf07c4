-- ===== src/M6811/Optab/Entry.antt =====
-- `struct opcode` of inc/arch/m68xx/optab.h in the M6811 build.
use Prim.Native.String.{String}
use sim68xx.Common.{ℕ, zero, suc, ◌+◌, Option, none, some, List, [], ◌∷◌}
use sim68xx.Machine.{M}
use sim68xx.Memory.{Chip}
use sim68xx.M6811.Opfunc.Interrupt.{trap_6811}

-- The tables that an entry names by `op_nexttab`.
pub data Page : Type 0 where
  opcodetab2 opcodetab3 opcodetab4 : Page

-- `none` is NULL.
pub record Opcode : Type 0 where
  pub op_value : ℕ
  pub op_n_opcodes : ℕ
  pub op_n_operands : ℕ
  pub op_func : Option (M (Unit {0}))
  pub op_n_cycles : ℕ
  pub op_mnemonic : String
  pub op_nexttab : Option Page

abbrev pub opcode : ℕ → ℕ → ℕ → M (Unit {0}) → ℕ → String → Opcode
opcode value n_opcodes n_operands func n_cycles mnemonic = record {
  op_value = value;
  op_n_opcodes = n_opcodes;
  op_n_operands = n_operands;
  op_func = some func;
  op_n_cycles = n_cycles;
  op_mnemonic = mnemonic;
  op_nexttab = none;
}

-- An entry without a function.
abbrev pub page : ℕ → ℕ → ℕ → ℕ → String → Page → Opcode
page value n_opcodes n_operands n_cycles mnemonic nexttab = record {
  op_value = value;
  op_n_opcodes = n_opcodes;
  op_n_operands = n_operands;
  op_func = none;
  op_n_cycles = n_cycles;
  op_mnemonic = mnemonic;
  op_nexttab = some nexttab;
}

module _ ⦃chip : Chip⦄ where
  -- Entries `{value, 2, 0, trap_6811, 0, "-"}` of a later table, from a value on: the rows that hold
  -- nothing else.
  unfoldable pub traps : ℕ → ℕ → List Opcode
  traps zero value = []
  traps (suc n) value = opcode value 2 0 trap_6811 0 "-" ∷ traps n (value + 1)
