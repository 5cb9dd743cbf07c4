-- ===== src/Invariant/Memory.antt =====
-- Reads and writes of memory preserve the invariant on every chip whose handlers do.
use sim68xx.Common.{
  ℕ, ◌^◌, ◌<◌, arith, Bool, true, false, Bool-cases, inl, inr, if◌then◌else◌, leb, ◌&&◌, u8, sub32,
  Option, none, some,
}
use sim68xx.Machine.{Machine, M, update, error_getb, error_putb}
use sim68xx.Machine.Reg.{nonzero}
use sim68xx.Callstack.{peek_addr}
use sim68xx.Memory.{
  Chip, outside, check_break, is_ireg, ireg_putb, ireg_putw, ram_getb, ram_putb, call_getb,
  call_putb, mem_getb, mem_getw, mem_putb, mem_putw,
}
use sim68xx.Invariant.{IsValid, Keeps}
use sim68xx.Invariant.Registers.{report-IsValid, if-IsValid}

-- A predicate holds of the value of an option, if there is one.
pub data Holds {ℓ κ} {A : Type ℓ} (P : A → Type κ) : Option A → Type (ℓ ⊔ κ) where
  missing : Holds P none
  present : (x : A) → P x → Holds P (some x)

pub if-Holds {ℓ κ} :
    {A : Type ℓ} {P : A → Type κ} (b : Bool) {x y : Option A}
    → Holds P x
    → Holds P y
    → Holds P (if b then x else y)
if-Holds true hx hy = hx
if-Holds false hx hy = hy

abbrev pub KeepsGetb : ℕ → (ℕ → M ℕ) → Type 0
KeepsGetb offs handler = Keeps (handler offs)

abbrev pub KeepsPutb : ℕ → (ℕ → ℕ → M (Unit {0})) → Type 0
KeepsPutb offs handler = (value : ℕ) → Keeps (handler offs value)

-- What the memory relies on of a chip: the handlers of its internal registers keep the invariant.
pub record Lawful (chip : Chip) : Type 0 where
  pub getb_keeps : (offs : ℕ) → Holds (KeepsGetb offs) (chip.ireg_getb_func offs)
  pub putb_keeps : (offs : ℕ) → Holds (KeepsPutb offs) (chip.ireg_putb_func offs)

pub update-lt :
    (f : ℕ → ℕ) (i v : ℕ) → v < 2 ^ 8 → ((j : ℕ) → f j < 2 ^ 8) → (j : ℕ) → update f i v j < 2 ^ 8
update-lt f i v h k j = ground (arith, k j)

pub outside-IsValid : (addr : ℕ) (m : Machine) → IsValid m → IsValid (outside addr m)
outside-IsValid addr m v = ground arith

pub check_break-IsValid : (addr : ℕ) → Keeps (check_break addr)
unfolding check_break
check_break-IsValid addr m v = elim (Bool-cases (nonzero (m.mem.breaks addr))) [
  | inl e ↦ rw e (ground arith)
  | inr e ↦ rw e (ground arith)
]

pub ireg_putb-IsValid : (offs value : ℕ) → Keeps (ireg_putb offs value)
unfolding ireg_putb
ireg_putb-IsValid offs value m v =
    let bytes = update-lt m.iram offs (u8 value) (omega arith) v.iram_bytes in ground arith

pub ireg_putw-IsValid : (offs value : ℕ) → Keeps (ireg_putw offs value)
unfolding ireg_putw
ireg_putw-IsValid offs value m v = search ireg_putb-IsValid

pub ram_getb-IsValid : (addr : ℕ) → Keeps (ram_getb addr)
unfolding ram_getb
ram_getb-IsValid addr m v = elim (Bool-cases (leb m.mem.ram_start addr && leb addr m.mem.ram_end)) [
  | inl e ↦ rw e (outside-IsValid addr m v)
  | inr e ↦ rw e (report-IsValid (error_getb addr (peek_addr m.callstack)) m v)
]

pub ram_putb-IsValid : (addr value : ℕ) → value < 2 ^ 8 → Keeps (ram_putb addr value)
unfolding ram_putb
ram_putb-IsValid addr value h m v =
    let bytes = update-lt m.mem.ram addr value h v.ram_bytes in
    elim (Bool-cases (leb m.mem.ram_start addr && leb addr m.mem.ram_end)) [
      | inl e ↦ rw e (ground arith)
      | inr e ↦ rw e (report-IsValid (error_putb addr (peek_addr m.callstack)) m v)
    ]

call_getb-IsValid :
    (f : Option (ℕ → M ℕ)) (offs : ℕ) → Holds (KeepsGetb offs) f → Keeps (call_getb f offs)
unfolding call_getb
call_getb-IsValid none offs missing m v = v
call_getb-IsValid (some _) offs (present handler h) m v = h m v

call_putb-IsValid :
    (f : Option (ℕ → ℕ → M (Unit {0}))) (offs value : ℕ)
    → Holds (KeepsPutb offs) f
    → Keeps (call_putb f offs value)
unfolding call_putb
call_putb-IsValid none offs value missing m v = ireg_putb-IsValid offs value m v
call_putb-IsValid (some _) offs value (present handler h) m v = h value m v

module _ ⦃chip : Chip⦄ ⦃laws : Lawful chip⦄ where
  pub mem_getb-IsValid : (addr : ℕ) → Keeps (mem_getb addr)
  unfolding mem_getb
  mem_getb-IsValid addr m v =
      let offs = sub32 addr m.ireg_start in
      if-IsValid (is_ireg offs) (call_getb (chip.ireg_getb_func offs) offs) (ram_getb addr)
        (call_getb-IsValid (chip.ireg_getb_func offs) offs (laws.getb_keeps offs))
        (ram_getb-IsValid addr) (check_break addr m).1 (check_break-IsValid addr m v)

  pub mem_putb-IsValid : (addr value : ℕ) → Keeps (mem_putb addr value)
  unfolding mem_putb
  mem_putb-IsValid addr value m v =
      let offs = sub32 addr m.ireg_start in
      if-IsValid (is_ireg offs) (call_putb (chip.ireg_putb_func offs) offs (u8 value))
        (ram_putb addr (u8 value))
        (call_putb-IsValid (chip.ireg_putb_func offs) offs (u8 value) (laws.putb_keeps offs))
        (ram_putb-IsValid addr (u8 value) (omega arith)) (check_break addr m).1
        (check_break-IsValid addr m v)

  pub mem_getw-IsValid : (addr : ℕ) → Keeps (mem_getw addr)
  unfolding mem_getw
  mem_getw-IsValid addr m v = search mem_getb-IsValid

  pub mem_putw-IsValid : (addr value : ℕ) → Keeps (mem_putw addr value)
  unfolding mem_putw
  mem_putw-IsValid addr value m v = search mem_putb-IsValid

pub ruleset memory_rules = (mem_getb-IsValid, mem_getw-IsValid, mem_putb-IsValid, mem_putw-IsValid)
