-- ===== src/M6811/Decode.antt =====
-- `opcode_getentry` of src/arch/m6811/instr.c: one or two bytes select an entry.
pub mod Numbers
pub mod One
pub mod Two
pub mod Three
pub mod Four
use sim68xx.M6811.Ireg.{m6811}
use sim68xx.Common.{
  ℕ, ◌+◌, ◌*◌, ◌/◌, ◌%◌, ◌<◌, ◌^◌, Option, none, some, u32, ◌≡◌, ◌⊎◌, inl, inr, refl, arith,
}
use mathlib.Core.Path.{subst}
use sim68xx.Common.Lists.{length}
use sim68xx.Machine.{Machine, M}
use sim68xx.Memory.{mem_getb}
use sim68xx.M6811.Rules.{KeepsFunc}
use sim68xx.M6811.Safety.{opcode_getentry-KeepsLater}
use sim68xx.M6811.Opfunc.Interrupt.{trap_6811}
use sim68xx.M6811.Optab.{opcodetab, table_of}
use sim68xx.M6811.Optab.Entry.{Opcode, Page, opcode}
use sim68xx.M6811.Instr.{entry_of, next_entry, opcode_getentry}
use sim68xx.M6811.Decode.Numbers.{
  NumberedRows, get_or-NumberedRows, prefix, listed, First, FirstEntry, Later,
}
use sim68xx.M6811.Decode.One.{opcodetab-Numbered}
use sim68xx.M6811.Decode.Two.{opcodetab2-Numbered}
use sim68xx.M6811.Decode.Three.{opcodetab3-Numbered}
use sim68xx.M6811.Decode.Four.{opcodetab4-Numbered}

-- The place of a byte in sixteen rows.
row_of : (op : ℕ) → 16 * (0 + op / 16) + op % 16 ≡ op
row_of op = omega arith

entry_of-First : (op : ℕ) → op < 2 ^ 8 → First op (entry_of opcodetab op)
unfolding entry_of
entry_of-First op h =
    subst (λ k. First k (entry_of opcodetab op)) (row_of op)
      (get_or-NumberedRows First 0 (op / 16) (op % 16) opcodetab (opcode op 1 0 trap_6811 0 "-")
        (omega arith) (omega arith) opcodetab-Numbered)

table_of-Numbered : (p : Page) → (length (table_of p) ≡ 16) × NumberedRows Later 0 (table_of p)
table_of-Numbered Page.opcodetab2 = (refl, opcodetab2-Numbered)
table_of-Numbered Page.opcodetab3 = (refl, opcodetab3-Numbered)
table_of-Numbered Page.opcodetab4 = (refl, opcodetab4-Numbered)

table_of-Later : (p : Page) (op : ℕ) → op < 2 ^ 8 → Later op (entry_of (table_of p) op)
unfolding entry_of
table_of-Later p op h =
    let (size, numbered) = table_of-Numbered p in
    subst (λ k. Later k (entry_of (table_of p) op)) (row_of op)
      (get_or-NumberedRows Later 0 (op / 16) (op % 16) (table_of p) (opcode op 1 0 trap_6811 0 "-")
        (omega arith) (omega arith) numbered)

byte : (addr : ℕ) (m : Machine) → (mem_getb addr m).0 < 2 ^ 8
unfolding mem_getb
byte addr m = omega arith

has_func : (f : Option (M (Unit {0}))) → KeepsFunc f → (c : M (Unit {0})) × (f ≡ some c)
has_func none h = absurd h
has_func (some c) h = (c, refl)

-- An entry for a first byte `b` and a second one `b'`.
abbrev pub Selected : ℕ → ℕ → Opcode → Type 0
Selected b b' o =
    ((o.op_n_opcodes ≡ 1) × (o.op_value ≡ listed b))
    ⊎ ((p : Page) × (b ≡ prefix p) × (o.op_n_opcodes ≡ 2) × (o.op_value ≡ b'))

next_entry-Selected :
    (pc b : ℕ) (o : Opcode) (next : Option Page) (m : Machine)
    → FirstEntry b next o.op_n_opcodes o.op_value
    → Selected b (mem_getb (u32 (pc + 1)) m).0 (next_entry pc o next m).0
unfolding next_entry
next_entry-Selected pc b o none m h = inl h
next_entry-Selected pc b o (some p) m h =
    let (size, value) = table_of-Later p (mem_getb (u32 (pc + 1)) m).0 (byte (u32 (pc + 1)) m) in
    inr (p, h, size, value)

-- Whatever the bytes at the program counter are, the entry that `opcode_getentry` gives for them has a
-- function, so that no NULL is called. It is either an entry of one byte with the value that table 1
-- lists for that byte, which is the byte but for 0x7b, or, after one of the bytes 0x18, 0x1a and 0xcd,
-- an entry of two bytes with the second one as its value.
pub opcode_getentry_lem :
    (pc : ℕ) (m : Machine)
    → let o = (opcode_getentry pc m).0 in
      let (b, m1) = mem_getb pc m in
      ((c : M (Unit {0})) × (o.op_func ≡ some c)) × Selected b (mem_getb (u32 (pc + 1)) m1).0 o
unfolding opcode_getentry
opcode_getentry_lem pc m =
    let b = (mem_getb pc m).0 in
    (
      has_func (opcode_getentry pc m).0.op_func (opcode_getentry-KeepsLater pc m),
      next_entry-Selected pc b (entry_of opcodetab b) _ (mem_getb pc m).1
          (entry_of-First b (byte pc m)),
    )
