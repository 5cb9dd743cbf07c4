-- ===== src/M6800/Optab.antt =====
-- src/arch/m6800/optab.c: the opcode table, in rows of sixteen.
pub mod Low
pub mod Middle
pub mod High
use sim68xx.Common.{ℕ, List, [], ◌∷◌, ◌/◌, ◌%◌}
use sim68xx.Common.Lists.{get_or}
use sim68xx.Memory.{Chip}
use sim68xx.H6301.Optab.Entry.{Opcode, opcode}
use sim68xx.M6800.Optab.Low.{row_0, row_1, row_2, row_3, row_4, row_5}
use sim68xx.M6800.Optab.Middle.{row_6, row_7, row_8, row_9, row_a}
use sim68xx.M6800.Optab.High.{row_b, row_c, row_d, row_e, row_f}
use sim68xx.Opfunc.Branch.{trap}

module _ ⦃chip : Chip⦄ where
  abbrev pub opcodetab : List (List Opcode)
  opcodetab =
      row_0 ∷ row_1 ∷ row_2 ∷ row_3 ∷ row_4 ∷ row_5 ∷ row_6 ∷ row_7 ∷ row_8 ∷ row_9 ∷ row_a ∷ row_b
      ∷ row_c ∷ row_d ∷ row_e ∷ row_f ∷ []

  -- `opcodetab[op]`. An index past the table does not occur: `op` is a byte.
  unfoldable pub lookup_opcode : ℕ → Opcode
  lookup_opcode op = get_or (get_or opcodetab (op / 16) []) (op % 16) (opcode op 0 trap 0 "---")
