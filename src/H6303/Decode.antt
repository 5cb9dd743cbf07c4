-- ===== src/H6303/Decode.antt =====
-- The opcode table of the HD6303 is in the order of the opcodes.
use sim68xx.Common.{ℕ, zero, suc, List, [], ◌∷◌, ◌/◌, ◌%◌, ◌+◌, ◌*◌, ◌<◌, ◌^◌, ◌≡◌, arith, ◌∙◌}
use sim68xx.Common.Lists.{get_or, length}
use sim68xx.Memory.{Chip}
use sim68xx.H6303.Optab.Entry.{Opcode, opcode}
use sim68xx.H6303.Optab.{opcodetab, lookup_opcode}
use sim68xx.H6303.Optab.Low.{row_0, row_1, row_2, row_3, row_4, row_5}
use sim68xx.H6303.Optab.Middle.{row_6, row_7, row_8, row_9, row_a}
use sim68xx.H6303.Optab.High.{row_b, row_c, row_d, row_e, row_f}
use sim68xx.Opfunc.Branch.{trap}

-- The entries are those of the opcodes from `n` on.
abbrev Numbered : ℕ → List Opcode → Type 0
Numbered n [] = Unit
Numbered n (o ∷ os) = (o.op_value ≡ n) × Numbered (n + 1) os

-- Rows of sixteen such entries, from row `r` on.
abbrev NumberedRows : ℕ → List (List Opcode) → Type 0
NumberedRows r [] = Unit
NumberedRows r (row ∷ rows) =
    ((length row ≡ 16) × Numbered (16 * r) row) × NumberedRows (r + 1) rows

get_or-Numbered :
    (n i : ℕ) (os : List Opcode) (d : Opcode)
    → i < length os
    → Numbered n os
    → (get_or os i d).op_value ≡ n + i
get_or-Numbered n i [] d lt h = absurd (omega arith)
get_or-Numbered n zero (o ∷ os) d lt (p, h) = p ∙ omega arith
get_or-Numbered n (suc i) (o ∷ os) d lt (p, h) =
    get_or-Numbered (n + 1) i os d (omega arith) h ∙ omega arith

get_or-NumberedRows :
    (r i j : ℕ) (rows : List (List Opcode)) (d : Opcode)
    → i < length rows
    → j < 16
    → NumberedRows r rows
    → (get_or (get_or rows i []) j d).op_value ≡ 16 * (r + i) + j
get_or-NumberedRows r i j [] d lt small h = absurd (omega arith)
get_or-NumberedRows r zero j (row ∷ rows) d lt small ((size, p), h) =
    get_or-Numbered (16 * r) j row d (omega arith) p ∙ omega arith
get_or-NumberedRows r (suc i) j (row ∷ rows) d lt small (p, h) =
    get_or-NumberedRows (r + 1) i j rows d (omega arith) small h ∙ omega arith

module _ ⦃chip : Chip⦄ where
  row_0-Numbered : (length row_0 ≡ 16) × Numbered 0 row_0
  unfolding row_0
  row_0-Numbered = search depth 40

  row_1-Numbered : (length row_1 ≡ 16) × Numbered 16 row_1
  unfolding row_1
  row_1-Numbered = search depth 40

  row_2-Numbered : (length row_2 ≡ 16) × Numbered 32 row_2
  unfolding row_2
  row_2-Numbered = search depth 40

  row_3-Numbered : (length row_3 ≡ 16) × Numbered 48 row_3
  unfolding row_3
  row_3-Numbered = search depth 40

  row_4-Numbered : (length row_4 ≡ 16) × Numbered 64 row_4
  unfolding row_4
  row_4-Numbered = search depth 40

  row_5-Numbered : (length row_5 ≡ 16) × Numbered 80 row_5
  unfolding row_5
  row_5-Numbered = search depth 40

  row_6-Numbered : (length row_6 ≡ 16) × Numbered 96 row_6
  unfolding row_6
  row_6-Numbered = search depth 40

  row_7-Numbered : (length row_7 ≡ 16) × Numbered 112 row_7
  unfolding row_7
  row_7-Numbered = search depth 40

  row_8-Numbered : (length row_8 ≡ 16) × Numbered 128 row_8
  unfolding row_8
  row_8-Numbered = search depth 40

  row_9-Numbered : (length row_9 ≡ 16) × Numbered 144 row_9
  unfolding row_9
  row_9-Numbered = search depth 40

  row_a-Numbered : (length row_a ≡ 16) × Numbered 160 row_a
  unfolding row_a
  row_a-Numbered = search depth 40

  row_b-Numbered : (length row_b ≡ 16) × Numbered 176 row_b
  unfolding row_b
  row_b-Numbered = search depth 40

  row_c-Numbered : (length row_c ≡ 16) × Numbered 192 row_c
  unfolding row_c
  row_c-Numbered = search depth 40

  row_d-Numbered : (length row_d ≡ 16) × Numbered 208 row_d
  unfolding row_d
  row_d-Numbered = search depth 40

  row_e-Numbered : (length row_e ≡ 16) × Numbered 224 row_e
  unfolding row_e
  row_e-Numbered = search depth 40

  row_f-Numbered : (length row_f ≡ 16) × Numbered 240 row_f
  unfolding row_f
  row_f-Numbered = search depth 40

  opcodetab-NumberedRows : NumberedRows 0 opcodetab
  opcodetab-NumberedRows =
      search
        (
          row_0-Numbered, row_1-Numbered, row_2-Numbered, row_3-Numbered, row_4-Numbered,
          row_5-Numbered, row_6-Numbered, row_7-Numbered, row_8-Numbered, row_9-Numbered,
          row_a-Numbered, row_b-Numbered, row_c-Numbered, row_d-Numbered, row_e-Numbered,
          row_f-Numbered,
        )
        depth 24

  -- The entry that the table gives for an opcode, a byte, is the entry of that opcode.
  lookup_opcode-op_value : (op : ℕ) → op < 2 ^ 8 → (lookup_opcode op).op_value ≡ op
  unfolding lookup_opcode
  lookup_opcode-op_value op h =
      get_or-NumberedRows 0 (op / 16) (op % 16) opcodetab (opcode op 0 trap 0 "---" 4) (omega arith)
        (omega arith) opcodetab-NumberedRows
      ∙ omega arith
