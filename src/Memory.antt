-- ===== src/Memory.antt =====
-- src/arch/m68xx/memory.c: bytes and words of the address space, through the interface of
-- inc/arch/m68xx/ireg.h to the internal registers of the chip.
pub mod Access
use sim68xx.Common.{
  ℕ, ◌+◌, ◌*◌, ◌/◌, ◌^◌, bit_and, bit_or, ltb, leb, ◌&&◌, Bool, true, if◌then◌else◌, Option, none,
  some, u8, u32, sub32,
}
use sim68xx.Machine.{
  Machine, M, pure, ◌>>=◌, ◌>>◌, gets, modify, report, update, error_getb, error_putb,
}
use sim68xx.Machine.Reg.{nonzero}
use sim68xx.Callstack.{peek_addr}

-- What a chip brings (ireg.c and chip.h of its directory): the number of internal registers, the
-- tables `ireg_getb_func` and `ireg_putb_func`, where `none` is a null entry, and `SWIVECTOR`.
pub record Chip : Type 0 where
  pub niregs : ℕ
  pub ireg_getb_func : ℕ → Option (ℕ → M ℕ)
  pub ireg_putb_func : ℕ → Option (ℕ → ℕ → M (Unit {0}))
  pub swivector : ℕ

abbrev pub memsize : ℕ
memsize = 65536

-- An array index outside `0 .. memsize - 1`.
abbrev pub outside : ℕ → Machine → Machine
outside addr m = record m { undefined = if ltb addr memsize then m.undefined else true }

-- `if (breaks[addr]) { break_flag = 1; break_addr = addr; }`
unfoldable pub check_break : ℕ → M (Unit {0})
check_break addr m =
    let m' = outside addr m in
    if nonzero (m.mem.breaks addr)
    then (tt, record m' { mem = record m.mem { break_flag = true; break_addr = addr } })
    else (tt, m')

abbrev pub ireg_getb : ℕ → M ℕ
ireg_getb offs = gets (λ m. m.iram offs)

abbrev pub ireg_getw : ℕ → M ℕ
ireg_getw offs = gets (λ m. bit_or (m.iram offs * 2 ^ 8) (m.iram (offs + 1)))

unfoldable pub ireg_putb : ℕ → ℕ → M (Unit {0})
ireg_putb offs value = modify (λ m. record m { iram = update m.iram offs (u8 value) })

unfoldable pub ireg_putw : ℕ → ℕ → M (Unit {0})
unfolding ireg_putb
ireg_putw offs value = do ireg_putb offs (value / 2 ^ 8); ireg_putb (offs + 1) value

unfoldable pub ram_getb : ℕ → M ℕ
unfolding report
ram_getb addr m =
    if leb m.mem.ram_start addr && leb addr m.mem.ram_end
    then (m.mem.ram addr, outside addr m)
    else (0, (report (error_getb addr (peek_addr m.callstack)) m).1)

unfoldable pub ram_putb : ℕ → ℕ → M (Unit {0})
unfolding report
ram_putb addr value m =
    if leb m.mem.ram_start addr && leb addr m.mem.ram_end
    then (tt, record (outside addr m) { mem = record m.mem { ram = update m.mem.ram addr value } })
    else report (error_putb addr (peek_addr m.callstack)) m

-- The entry of a table is called, and a null entry stands for the byte of `iram`.
unfoldable pub call_getb : Option (ℕ → M ℕ) → ℕ → M ℕ
call_getb none offs = ireg_getb offs
call_getb (some handler) offs = handler offs

unfoldable pub call_putb : Option (ℕ → ℕ → M (Unit {0})) → ℕ → ℕ → M (Unit {0})
unfolding ireg_putb
call_putb none offs value = ireg_putb offs value
call_putb (some handler) offs value = handler offs value

module _ ⦃chip : Chip⦄ where
  -- `offs >= 0 && offs < NIREGS` for the `int` that `addr - ireg_start` is read as.
  abbrev pub is_ireg : ℕ → Bool
  is_ireg offs = ltb offs (2 ^ 31) && ltb offs chip.niregs

  unfoldable pub mem_getb : ℕ → M ℕ
  unfolding check_break call_getb ram_getb
  mem_getb addr = do
    offs ← gets (λ m. sub32 addr m.ireg_start)
    check_break addr
    value ← if is_ireg offs then call_getb (chip.ireg_getb_func offs) offs else ram_getb addr
    pure (u8 value)

  unfoldable pub mem_getw : ℕ → M ℕ
  unfolding mem_getb
  mem_getw addr = do
    hi ← mem_getb addr
    lo ← mem_getb (u32 (addr + 1))
    pure (bit_or (hi * 2 ^ 8) lo)

  unfoldable pub mem_putb : ℕ → ℕ → M (Unit {0})
  unfolding check_break call_putb ram_putb
  mem_putb addr v = do
    let value = u8 v
    offs ← gets (λ m. sub32 addr m.ireg_start)
    check_break addr
    if is_ireg offs then call_putb (chip.ireg_putb_func offs) offs value else ram_putb addr value

  unfoldable pub mem_putw : ℕ → ℕ → M (Unit {0})
  unfolding mem_putb
  mem_putw addr value = do
    mem_putb addr (value / 2 ^ 8)
    mem_putb (u32 (addr + 1)) (bit_and value 0xff)
