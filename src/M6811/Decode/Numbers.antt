-- ===== src/M6811/Decode/Numbers.antt =====
-- Tables whose entries are in the order of the opcodes.
use sim68xx.Common.{
  ℕ, zero, suc, ◌+◌, ◌*◌, ◌<◌, ◌==◌, if◌then◌else◌, Option, none, some, List, [], ◌∷◌, ◌≡◌, refl,
  arith, ap,
}
use mathlib.Core.Path.{subst}
use sim68xx.Common.Lists.{get_or, length}
use sim68xx.Memory.{Chip}
use sim68xx.M6811.Optab.Entry.{Opcode, Page, traps}

-- What the entries are, from the number `n` on.
abbrev pub Numbered : (ℕ → Opcode → Type 0) → ℕ → List Opcode → Type 0
Numbered P n [] = Unit
Numbered P n (o ∷ os) = P n o × Numbered P (n + 1) os

-- Rows of sixteen such entries, from row `r` on.
abbrev pub NumberedRows : (ℕ → Opcode → Type 0) → ℕ → List (List Opcode) → Type 0
NumberedRows P r [] = Unit
NumberedRows P r (row ∷ rows) =
    ((length row ≡ 16) × Numbered P (16 * r) row) × NumberedRows P (r + 1) rows

get_or-Numbered :
    (P : ℕ → Opcode → Type 0) (n i : ℕ) (os : List Opcode) (d : Opcode)
    → i < length os
    → Numbered P n os
    → P (n + i) (get_or os i d)
get_or-Numbered P n i [] d lt h = absurd (omega arith)
get_or-Numbered P n zero (o ∷ os) d lt (p, h) =
    let here : n ≡ n + 0 = omega arith in subst (λ k. P k o) here p
get_or-Numbered P n (suc i) (o ∷ os) d lt (p, h) =
    let there : n + 1 + i ≡ n + suc i = omega arith in
    subst (λ k. P k (get_or os i d)) there (get_or-Numbered P (n + 1) i os d (omega arith) h)

pub get_or-NumberedRows :
    (P : ℕ → Opcode → Type 0) (r i j : ℕ) (rows : List (List Opcode)) (d : Opcode)
    → i < length rows
    → j < 16
    → NumberedRows P r rows
    → P (16 * (r + i) + j) (get_or (get_or rows i []) j d)
get_or-NumberedRows P r i j [] d lt small h = absurd (omega arith)
get_or-NumberedRows P r zero j (row ∷ rows) d lt small ((size, p), h) =
    let here : 16 * r + j ≡ 16 * (r + 0) + j = omega arith in
    subst (λ k. P k (get_or row j d)) here (get_or-Numbered P (16 * r) j row d (omega arith) p)
get_or-NumberedRows P r (suc i) j (row ∷ rows) d lt small (p, h) =
    let there : 16 * (r + 1 + i) + j ≡ 16 * (r + suc i) + j = omega arith in
    subst (λ k. P k (get_or (get_or rows i []) j d)) there
      (get_or-NumberedRows P (r + 1) i j rows d (omega arith) small h)

-- The byte before the opcodes of a later table.
abbrev pub prefix : Page → ℕ
prefix Page.opcodetab2 = 0x18
prefix Page.opcodetab3 = 0x1a
prefix Page.opcodetab4 = 0xcd

-- The value that table 1 lists for an opcode: its own, but for 0x7b.
abbrev pub listed : ℕ → ℕ
listed n = if n == 0x7b then 0x6b else n

abbrev pub FirstEntry : ℕ → Option Page → ℕ → ℕ → Type 0
FirstEntry n none n_opcodes value = (n_opcodes ≡ 1) × (value ≡ listed n)
FirstEntry n (some p) n_opcodes value = n ≡ prefix p

-- Entry `n` of table 1, and of a later table.
abbrev pub First : ℕ → Opcode → Type 0
First n o = FirstEntry n o.op_nexttab o.op_n_opcodes o.op_value

abbrev pub Later : ℕ → Opcode → Type 0
Later n o = (o.op_n_opcodes ≡ 2) × (o.op_value ≡ n)

module _ ⦃chip : Chip⦄ where
  pub traps-Numbered :
      (k value : ℕ) → (length (traps k value) ≡ k) × Numbered Later value (traps k value)
  unfolding traps
  traps-Numbered zero value = (refl, tt)
  traps-Numbered (suc k) value =
      let (size, rest) = traps-Numbered k (value + 1) in (ap suc size, ((refl, refl), rest))
