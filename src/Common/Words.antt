-- ===== src/Common/Words.antt =====
-- The C types of the program on an LP64 target: `u_char` (8 bits), `u_int` (32 bits), `u_long`
-- (64 bits), and the 16-bit bit-fields of `struct regs`. A signed value is its bit pattern.
use Prim.Native.Nat.{ℕ, ◌+◌, ◌-◌, ◌%◌, ◌^◌}
use sim68xx.Common.Tests.{ltb, if◌then◌else◌}

abbrev pub u8 : ℕ → ℕ
u8 n = n % 2 ^ 8

abbrev pub u16 : ℕ → ℕ
u16 n = n % 2 ^ 16

abbrev pub u32 : ℕ → ℕ
u32 n = n % 2 ^ 32

abbrev pub u64 : ℕ → ℕ
u64 n = n % 2 ^ 64

-- `a - b` in `u_int` and in `u_long`, for operands of that type.
abbrev pub sub32 : ℕ → ℕ → ℕ
sub32 a b = (a + 2 ^ 32 - b) % 2 ^ 32

abbrev pub sub64 : ℕ → ℕ → ℕ
sub64 a b = (a + 2 ^ 64 - b) % 2 ^ 64

-- A byte read as `s_char` and converted to 32 bits.
abbrev pub s_char : ℕ → ℕ
s_char v = if ltb v 128 then v else v + (2 ^ 32 - 2 ^ 8)
