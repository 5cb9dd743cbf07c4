-- ===== src/H6301/Agree.antt =====
-- The opcode tables of the HD6301 and the HD6303.
use sim68xx.Common.{ℕ, [], ◌/◌, ◌%◌, ◌≡◌, refl}
use sim68xx.Common.Lists.{Paired, get_or-Paired}
use sim68xx.Memory.{Chip}
use sim68xx.H6301
use sim68xx.H6303

-- Two entries of the same opcode, function and cycles.
abbrev Same : H6301.Optab.Entry.Opcode → H6303.Optab.Entry.Opcode → Type 0
Same o p = (o.op_value ≡ p.op_value) × (o.op_func ≡ p.op_func) × (o.op_n_cycles ≡ p.op_n_cycles)

module _ ⦃chip : Chip⦄ where
  row_0-Same : Paired Same H6301.Optab.Low.row_0 H6303.Optab.Low.row_0
  unfolding H6301.Optab.Low.row_0 H6303.Optab.Low.row_0
  row_0-Same = search depth 40

  row_1-Same : Paired Same H6301.Optab.Low.row_1 H6303.Optab.Low.row_1
  unfolding H6301.Optab.Low.row_1 H6303.Optab.Low.row_1
  row_1-Same = search depth 40

  row_2-Same : Paired Same H6301.Optab.Low.row_2 H6303.Optab.Low.row_2
  unfolding H6301.Optab.Low.row_2 H6303.Optab.Low.row_2
  row_2-Same = search depth 40

  row_3-Same : Paired Same H6301.Optab.Low.row_3 H6303.Optab.Low.row_3
  unfolding H6301.Optab.Low.row_3 H6303.Optab.Low.row_3
  row_3-Same = search depth 40

  row_4-Same : Paired Same H6301.Optab.Low.row_4 H6303.Optab.Low.row_4
  unfolding H6301.Optab.Low.row_4 H6303.Optab.Low.row_4
  row_4-Same = search depth 40

  row_5-Same : Paired Same H6301.Optab.Low.row_5 H6303.Optab.Low.row_5
  unfolding H6301.Optab.Low.row_5 H6303.Optab.Low.row_5
  row_5-Same = search depth 40

  row_6-Same : Paired Same H6301.Optab.Middle.row_6 H6303.Optab.Middle.row_6
  unfolding H6301.Optab.Middle.row_6 H6303.Optab.Middle.row_6
  row_6-Same = search depth 40

  row_7-Same : Paired Same H6301.Optab.Middle.row_7 H6303.Optab.Middle.row_7
  unfolding H6301.Optab.Middle.row_7 H6303.Optab.Middle.row_7
  row_7-Same = search depth 40

  row_8-Same : Paired Same H6301.Optab.Middle.row_8 H6303.Optab.Middle.row_8
  unfolding H6301.Optab.Middle.row_8 H6303.Optab.Middle.row_8
  row_8-Same = search depth 40

  row_9-Same : Paired Same H6301.Optab.Middle.row_9 H6303.Optab.Middle.row_9
  unfolding H6301.Optab.Middle.row_9 H6303.Optab.Middle.row_9
  row_9-Same = search depth 40

  row_a-Same : Paired Same H6301.Optab.Middle.row_a H6303.Optab.Middle.row_a
  unfolding H6301.Optab.Middle.row_a H6303.Optab.Middle.row_a
  row_a-Same = search depth 40

  row_b-Same : Paired Same H6301.Optab.High.row_b H6303.Optab.High.row_b
  unfolding H6301.Optab.High.row_b H6303.Optab.High.row_b
  row_b-Same = search depth 40

  row_c-Same : Paired Same H6301.Optab.High.row_c H6303.Optab.High.row_c
  unfolding H6301.Optab.High.row_c H6303.Optab.High.row_c
  row_c-Same = search depth 40

  row_d-Same : Paired Same H6301.Optab.High.row_d H6303.Optab.High.row_d
  unfolding H6301.Optab.High.row_d H6303.Optab.High.row_d
  row_d-Same = search depth 40

  row_e-Same : Paired Same H6301.Optab.High.row_e H6303.Optab.High.row_e
  unfolding H6301.Optab.High.row_e H6303.Optab.High.row_e
  row_e-Same = search depth 40

  row_f-Same : Paired Same H6301.Optab.High.row_f H6303.Optab.High.row_f
  unfolding H6301.Optab.High.row_f H6303.Optab.High.row_f
  row_f-Same = search depth 40

  rows-Same : Paired (Paired Same) H6301.Optab.opcodetab H6303.Optab.opcodetab
  rows-Same =
      search
        (
          row_0-Same, row_1-Same, row_2-Same, row_3-Same, row_4-Same, row_5-Same, row_6-Same,
          row_7-Same, row_8-Same, row_9-Same, row_a-Same, row_b-Same, row_c-Same, row_d-Same,
          row_e-Same, row_f-Same,
        )
        depth 20

  -- For each opcode, the tables of the HD6301 and the HD6303 name the same function with the same
  -- number of cycles. (The operand counts, which the disassembler uses, are not compared.)
  pub lookup_opcode-agree :
      (op : ℕ)
      → let o = H6301.Optab.lookup_opcode op in
        let p = H6303.Optab.lookup_opcode op in
        (o.op_value ≡ p.op_value) × (o.op_func ≡ p.op_func) × (o.op_n_cycles ≡ p.op_n_cycles)
  unfolding H6301.Optab.lookup_opcode H6303.Optab.lookup_opcode
  lookup_opcode-agree op =
      get_or-Paired Same _ _ (op % 16) _ _
        (get_or-Paired (Paired Same) H6301.Optab.opcodetab H6303.Optab.opcodetab (op / 16) [] []
          rows-Same tt)
        (refl, refl, refl)
