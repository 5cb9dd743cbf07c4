-- ===== src/Machine/Reg.antt =====
-- The register macros of inc/arch/m68xx/reg.h. A bit-field keeps the low bits of what it is given.
use sim68xx.Common.{
  ℕ, ◌+◌, ◌-◌, ◌*◌, ◌/◌, ◌^◌, bit_and, bit_or, Bool, true, false, not, u8, u16, u32, ◌==◌,
  if◌then◌else◌,
}
use sim68xx.Machine.{Regs, M, gets, modify}

-- C's truth value of a number, and the number of a truth value.
abbrev pub nonzero : ℕ → Bool
nonzero n = not (n == 0)

abbrev pub truth : Bool → ℕ
truth true = 1
truth false = 0

pub data Flag : Type 0 where
  c v z n i h x s : Flag

-- `enum ccr_flags`.
abbrev pub mask : Flag → ℕ
mask Flag.c = 0x01
mask Flag.v = 0x02
mask Flag.z = 0x04
mask Flag.n = 0x08
mask Flag.i = 0x10
mask Flag.h = 0x20
mask Flag.x = 0x40
mask Flag.s = 0x80

-- `(regs.ccr & mask) != 0`.
unfoldable pub flag_of : Flag → ℕ → Bool
flag_of f ccr = nonzero (bit_and ccr (mask f))

-- `if (expr) regs.ccr |= mask; else regs.ccr &= ~mask;`
unfoldable pub with_flag : Flag → Bool → ℕ → ℕ
with_flag f expr ccr = if expr then bit_or ccr (mask f) else bit_and ccr (0xff - mask f)

abbrev pub on_regs : (Regs → Regs) → M (Unit {0})
on_regs f = modify (λ m. record m { regs = f m.regs })

unfoldable pub set_flag : Flag → Bool → M (Unit {0})
set_flag f expr = on_regs (λ r. record r { ccr = with_flag f expr r.ccr })

abbrev pub reg_setcflag : Bool → M (Unit {0})
reg_setcflag = set_flag Flag.c

abbrev pub reg_setvflag : Bool → M (Unit {0})
reg_setvflag = set_flag Flag.v

abbrev pub reg_setzflag : Bool → M (Unit {0})
reg_setzflag = set_flag Flag.z

abbrev pub reg_setnflag : Bool → M (Unit {0})
reg_setnflag = set_flag Flag.n

abbrev pub reg_setiflag : Bool → M (Unit {0})
reg_setiflag = set_flag Flag.i

abbrev pub reg_sethflag : Bool → M (Unit {0})
reg_sethflag = set_flag Flag.h

abbrev pub reg_setxflag : Bool → M (Unit {0})
reg_setxflag = set_flag Flag.x

abbrev pub reg_setsflag : Bool → M (Unit {0})
reg_setsflag = set_flag Flag.s

abbrev pub get_flag : Flag → M ℕ
get_flag f = gets (λ m. truth (flag_of f m.regs.ccr))

abbrev pub reg_getcflag : M ℕ
reg_getcflag = get_flag Flag.c

abbrev pub reg_getvflag : M ℕ
reg_getvflag = get_flag Flag.v

abbrev pub reg_getzflag : M ℕ
reg_getzflag = get_flag Flag.z

abbrev pub reg_getnflag : M ℕ
reg_getnflag = get_flag Flag.n

abbrev pub reg_getiflag : M ℕ
reg_getiflag = get_flag Flag.i

abbrev pub reg_gethflag : M ℕ
reg_gethflag = get_flag Flag.h

abbrev pub reg_getacca : M ℕ
reg_getacca = gets (λ m. m.regs.a)

abbrev pub reg_getaccb : M ℕ
reg_getaccb = gets (λ m. m.regs.b)

abbrev pub reg_getaccd : M ℕ
reg_getaccd = gets (λ m. bit_or (m.regs.a * 2 ^ 8) m.regs.b)

abbrev pub reg_getix : M ℕ
reg_getix = gets (λ m. m.regs.ix)

abbrev pub reg_getiy : M ℕ
reg_getiy = gets (λ m. m.regs.iy)

abbrev pub reg_getsp : M ℕ
reg_getsp = gets (λ m. m.regs.sp)

abbrev pub reg_getpc : M ℕ
reg_getpc = gets (λ m. m.regs.pc)

-- The builds without M6811: the high bits read as one.
abbrev pub reg_getccr : M ℕ
reg_getccr = gets (λ m. bit_or m.regs.ccr 0xc0)

unfoldable pub reg_setacca : ℕ → M (Unit {0})
reg_setacca value = on_regs (λ r. record r { a = u8 value })

unfoldable pub reg_setaccb : ℕ → M (Unit {0})
reg_setaccb value = on_regs (λ r. record r { b = u8 value })

unfoldable pub reg_setaccd : ℕ → M (Unit {0})
reg_setaccd value =
    let tmp = u32 value in on_regs (λ r. record r { a = u8 (tmp / 2 ^ 8); b = u8 tmp })

unfoldable pub reg_setix : ℕ → M (Unit {0})
reg_setix value = on_regs (λ r. record r { ix = u16 value })

unfoldable pub reg_setiy : ℕ → M (Unit {0})
reg_setiy value = on_regs (λ r. record r { iy = u16 value })

unfoldable pub reg_setpc : ℕ → M (Unit {0})
reg_setpc value = on_regs (λ r. record r { pc = u16 value })

unfoldable pub reg_setccr : ℕ → M (Unit {0})
reg_setccr value = on_regs (λ r. record r { ccr = u8 value })

unfoldable pub reg_incpc : ℕ → M (Unit {0})
reg_incpc value = on_regs (λ r. record r { pc = u16 (r.pc + value) })

-- reg.c
unfoldable pub reg_postincpc : ℕ → M ℕ
reg_postincpc value m =
    (m.regs.pc, record m { regs = record m.regs { pc = u16 (m.regs.pc + value) } })
