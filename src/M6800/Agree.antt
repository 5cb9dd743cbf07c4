-- ===== src/M6800/Agree.antt =====
-- The opcode table of the 6800 beside that of the HD6301.
use sim68xx.Common.{ℕ, [], ◌/◌, ◌%◌, ◌≡◌, ◌==◌, ◌⊎◌, inl, inr, refl, if◌then◌else◌}
use sim68xx.Common.Lists.{Paired, get_or-Paired}
use sim68xx.Memory.{Chip}
use sim68xx.Opfunc.Branch.{trap}
use sim68xx.H6301.Optab.Entry.{Opcode}
use sim68xx.H6301
use sim68xx.M6800

module _ ⦃chip : Chip⦄ where
  -- The entry `o` traps, or it is the entry `p` but for the cycles of 0xe7.
  abbrev Subset : Opcode → Opcode → Type 0
  Subset o p =
      (o.op_value ≡ p.op_value)
      × ((o.op_func ≡ trap)
          ⊎ ((o.op_func ≡ p.op_func)
              × (o.op_n_operands ≡ p.op_n_operands)
              × (o.op_n_cycles ≡ (if o.op_value == 0xe7 then 0 else p.op_n_cycles))))

  row_0-Subset : Paired Subset M6800.Optab.Low.row_0 H6301.Optab.Low.row_0
  unfolding M6800.Optab.Low.row_0 H6301.Optab.Low.row_0
  row_0-Subset = search (inl, inr) depth 40

  row_1-Subset : Paired Subset M6800.Optab.Low.row_1 H6301.Optab.Low.row_1
  unfolding M6800.Optab.Low.row_1 H6301.Optab.Low.row_1
  row_1-Subset = search (inl, inr) depth 40

  row_2-Subset : Paired Subset M6800.Optab.Low.row_2 H6301.Optab.Low.row_2
  unfolding M6800.Optab.Low.row_2 H6301.Optab.Low.row_2
  row_2-Subset = search (inl, inr) depth 40

  row_3-Subset : Paired Subset M6800.Optab.Low.row_3 H6301.Optab.Low.row_3
  unfolding M6800.Optab.Low.row_3 H6301.Optab.Low.row_3
  row_3-Subset = search (inl, inr) depth 40

  row_4-Subset : Paired Subset M6800.Optab.Low.row_4 H6301.Optab.Low.row_4
  unfolding M6800.Optab.Low.row_4 H6301.Optab.Low.row_4
  row_4-Subset = search (inl, inr) depth 40

  row_5-Subset : Paired Subset M6800.Optab.Low.row_5 H6301.Optab.Low.row_5
  unfolding M6800.Optab.Low.row_5 H6301.Optab.Low.row_5
  row_5-Subset = search (inl, inr) depth 40

  row_6-Subset : Paired Subset M6800.Optab.Middle.row_6 H6301.Optab.Middle.row_6
  unfolding M6800.Optab.Middle.row_6 H6301.Optab.Middle.row_6
  row_6-Subset = search (inl, inr) depth 40

  row_7-Subset : Paired Subset M6800.Optab.Middle.row_7 H6301.Optab.Middle.row_7
  unfolding M6800.Optab.Middle.row_7 H6301.Optab.Middle.row_7
  row_7-Subset = search (inl, inr) depth 40

  row_8-Subset : Paired Subset M6800.Optab.Middle.row_8 H6301.Optab.Middle.row_8
  unfolding M6800.Optab.Middle.row_8 H6301.Optab.Middle.row_8
  row_8-Subset = search (inl, inr) depth 40

  row_9-Subset : Paired Subset M6800.Optab.Middle.row_9 H6301.Optab.Middle.row_9
  unfolding M6800.Optab.Middle.row_9 H6301.Optab.Middle.row_9
  row_9-Subset = search (inl, inr) depth 40

  row_a-Subset : Paired Subset M6800.Optab.Middle.row_a H6301.Optab.Middle.row_a
  unfolding M6800.Optab.Middle.row_a H6301.Optab.Middle.row_a
  row_a-Subset = search (inl, inr) depth 40

  row_b-Subset : Paired Subset M6800.Optab.High.row_b H6301.Optab.High.row_b
  unfolding M6800.Optab.High.row_b H6301.Optab.High.row_b
  row_b-Subset = search (inl, inr) depth 40

  row_c-Subset : Paired Subset M6800.Optab.High.row_c H6301.Optab.High.row_c
  unfolding M6800.Optab.High.row_c H6301.Optab.High.row_c
  row_c-Subset = search (inl, inr) depth 40

  row_d-Subset : Paired Subset M6800.Optab.High.row_d H6301.Optab.High.row_d
  unfolding M6800.Optab.High.row_d H6301.Optab.High.row_d
  row_d-Subset = search (inl, inr) depth 40

  row_e-Subset : Paired Subset M6800.Optab.High.row_e H6301.Optab.High.row_e
  unfolding M6800.Optab.High.row_e H6301.Optab.High.row_e
  row_e-Subset = search (inl, inr) depth 40

  row_f-Subset : Paired Subset M6800.Optab.High.row_f H6301.Optab.High.row_f
  unfolding M6800.Optab.High.row_f H6301.Optab.High.row_f
  row_f-Subset = search (inl, inr) depth 40

  rows-Subset : Paired (Paired Subset) M6800.Optab.opcodetab H6301.Optab.opcodetab
  rows-Subset =
      search
        (
          row_0-Subset, row_1-Subset, row_2-Subset, row_3-Subset, row_4-Subset, row_5-Subset,
          row_6-Subset, row_7-Subset, row_8-Subset, row_9-Subset, row_a-Subset, row_b-Subset,
          row_c-Subset, row_d-Subset, row_e-Subset, row_f-Subset,
        )
        depth 20

  -- Every opcode of the 6800 either traps or has the function and the operand count that it has on the
  -- HD6301. Its cycles are the same too, but for 0xe7, which takes none.
  pub lookup_opcode-subset :
      (op : ℕ)
      → let o = M6800.Optab.lookup_opcode op in
        let p = H6301.Optab.lookup_opcode op in
        (o.op_value ≡ p.op_value)
        × ((o.op_func ≡ trap)
            ⊎ ((o.op_func ≡ p.op_func)
                × (o.op_n_operands ≡ p.op_n_operands)
                × (o.op_n_cycles ≡ (if o.op_value == 0xe7 then 0 else p.op_n_cycles))))
  unfolding M6800.Optab.lookup_opcode H6301.Optab.lookup_opcode
  lookup_opcode-subset op =
      get_or-Paired Subset _ _ (op % 16) _ _
        (get_or-Paired (Paired Subset) M6800.Optab.opcodetab H6301.Optab.opcodetab (op / 16) [] []
          rows-Subset tt)
        (refl, inl refl)
