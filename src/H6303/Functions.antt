-- ===== src/H6303/Functions.antt =====
-- The functions of src/arch/h6303/optab.c and the invariant, for any chip.
use sim68xx.Common.{ℕ, [], All, ◌/◌, ◌%◌}
use sim68xx.Common.Lists.{get_or, get_or-All}
use sim68xx.Memory.{Chip}
use sim68xx.Opfunc.Branch.{trap}
use sim68xx.Invariant.{Keeps, KeepsOpcode}
use sim68xx.Invariant.Opfunc.{opfunc_rules}
use sim68xx.Invariant.Memory.{Lawful}
use sim68xx.Invariant.Rows.Low.{
  row_0-IsValid, row_1-IsValid, row_2-IsValid, row_3-IsValid, row_4-IsValid, row_5-IsValid,
}
use sim68xx.Invariant.Rows.Middle.{
  row_6-IsValid, row_7-IsValid, row_8-IsValid, row_9-IsValid, row_a-IsValid,
}
use sim68xx.Invariant.Rows.High.{
  row_b-IsValid, row_c-IsValid, row_d-IsValid, row_e-IsValid, row_f-IsValid,
}
use sim68xx.H6303.Optab.{lookup_opcode, opcodetab}
use sim68xx.H6303.Optab.Entry.{opcode}

module _ ⦃chip : Chip⦄ ⦃laws : Lawful chip⦄ where
  rows-IsValid : All (All KeepsOpcode) opcodetab
  rows-IsValid =
      search
        (
          row_0-IsValid, row_1-IsValid, row_2-IsValid, row_3-IsValid, row_4-IsValid, row_5-IsValid,
          row_6-IsValid, row_7-IsValid, row_8-IsValid, row_9-IsValid, row_a-IsValid, row_b-IsValid,
          row_c-IsValid, row_d-IsValid, row_e-IsValid, row_f-IsValid,
        )
        depth 24

  pub trap-IsValid : Keeps trap
  unfolding trap
  trap-IsValid m v = search opfunc_rules depth 24

  -- The function of every opcode preserves the invariant.
  pub lookup_opcode-IsValid : (op : ℕ) → Keeps (lookup_opcode op).op_func
  unfolding lookup_opcode
  lookup_opcode-IsValid op =
      let row = get_or-All (All KeepsOpcode) opcodetab (op / 16) [] rows-IsValid tt in
      get_or-All KeepsOpcode (get_or opcodetab (op / 16) []) (op % 16) (opcode op 0 trap 0 "---" 4)
        row trap-IsValid
