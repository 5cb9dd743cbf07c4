-- ===== src/M6811/Opfunc/Divide.antt =====
-- opfunc.c, the 6811 section: the divisions.
use sim68xx.Common.{
  ℕ, ◌*◌, ◌/◌, ◌%◌, ◌^◌, bit_and, true, false, not, ◌&&◌, ◌==◌, ltb, if◌then◌else◌, u32, sub32,
}
use sim68xx.Machine.{◌>>=◌, ◌>>◌, M, modify, when}
use sim68xx.Machine.Reg.{
  reg_getaccd, reg_getix, reg_setaccd, reg_setcflag, reg_setix, reg_setvflag, reg_setzflag,
}

-- The branches of `idiv_inh` after the test of the divisor.
unfoldable pub idiv_by_zero : M (Unit {0})
idiv_by_zero = do reg_setix (sub32 0 1); reg_setaccd 0; reg_setcflag true

unfoldable pub idiv_result : ℕ → ℕ → M (Unit {0})
idiv_result d x = do
  reg_setix (d / x)
  let result = d % x
  reg_setaccd result
  reg_setzflag (result == 0)
  reg_setcflag (ltb 65535 result)

unfoldable pub idiv_inh : M (Unit {0})
idiv_inh = do
  d ← reg_getaccd
  x ← reg_getix
  reg_setvflag false
  if x == 0 then idiv_by_zero else idiv_result d x

-- The part of `fdiv_inh` after the test of the overflow. A division by 0, which C leaves undefined,
-- is made when both registers hold 0.
unfoldable pub fdiv_result : ℕ → ℕ → M (Unit {0})
fdiv_result d x = do
  when (x == 0) (modify (λ m. record m { undefined = true }))
  reg_setix (u32 (d * 2 ^ 16) / x)
  reg_setaccd (u32 (d * 2 ^ 16) % x)
  r ← reg_getaccd
  reg_setzflag (r == 0)
  reg_setvflag (bit_and d 0x8000 == bit_and x 0x8000 && not (bit_and x 0x8000 == bit_and r 0x8000))
  reg_setcflag (ltb 65535 r)

unfoldable pub fdiv_inh : M (Unit {0})
fdiv_inh = do d ← reg_getaccd; x ← reg_getix; if ltb x d then reg_setvflag true else fdiv_result d x
