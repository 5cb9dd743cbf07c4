-- ===== src/Alu.antt =====
-- src/arch/m68xx/alu.c: the operations of the arithmetic/logic unit. Each sets flags of the
-- condition code register and returns a value; a parameter of type `u_char` keeps its low 8 bits.
-- A `u_int` has 32 bits and a `u_long` 64.
pub mod Spec
pub mod Add
pub mod Sub
pub mod Shift
use sim68xx.Common.{
  ℕ, ◌+◌, ◌*◌, ◌/◌, ◌-◌, ◌^◌, bit_and, bit_or, bit_xor, Bool, true, false, ◌==◌, if◌then◌else◌, u8,
  u32, u64, sub32, sub64,
}
use sim68xx.Machine.{M, pure, ◌>>=◌, ◌>>◌, drop_value}
use sim68xx.Machine.Reg.{
  nonzero, truth, set_flag, reg_setcflag, reg_setvflag, reg_setzflag, reg_setnflag, reg_sethflag,
}

unfoldable pub alu_addbyte : ℕ → ℕ → ℕ → M ℕ
unfolding set_flag
alu_addbyte v1 v2 cy = do
  let val1 = u8 v1
  let val2 = u8 v2
  let result = u32 (val1 + val2 + u8 cy)
  let cflag = bit_and (result / 2) 0x80
  reg_setcflag (nonzero cflag)
  reg_setnflag (nonzero (bit_and result 0x80))
  reg_setvflag (nonzero (bit_and (bit_xor (bit_xor (bit_xor val1 val2) result) cflag) 0x80))
  reg_setzflag (bit_and result 0xff == 0)
  reg_sethflag (nonzero (bit_and (bit_xor (bit_xor val1 val2) result) 0x10))
  pure result

unfoldable pub alu_addword : ℕ → ℕ → ℕ → M ℕ
unfolding set_flag
alu_addword val1 val2 cy = do
  let sum = u64 (val1 + val2 + u8 cy)
  let cflag = bit_and (sum / 2) 0x8000
  reg_setcflag (nonzero cflag)
  reg_setnflag (nonzero (bit_and sum 0x8000))
  reg_setvflag (nonzero (bit_and (bit_xor (bit_xor (bit_xor val1 val2) sum) cflag) 0x8000))
  reg_setzflag (bit_and sum 0xffff == 0)
  pure (u32 sum)

unfoldable pub alu_bittestbyte : ℕ → M ℕ
unfolding set_flag
alu_bittestbyte v = do
  let value = u8 v
  reg_setnflag (nonzero (bit_and value 0x80))
  reg_setzflag (value == 0)
  reg_setvflag false
  pure value

unfoldable pub alu_bittestword : ℕ → M ℕ
unfolding set_flag
alu_bittestword value = do
  reg_setnflag (nonzero (bit_and value 0x8000))
  reg_setzflag (value == 0)
  reg_setvflag false
  pure value

unfoldable pub alu_andbyte : ℕ → ℕ → M ℕ
unfolding alu_bittestbyte
alu_andbyte val1 val2 = do
  let result = bit_and (bit_and (u8 val1) (u8 val2)) 0xff
  drop_value (alu_bittestbyte result)
  pure result

unfoldable pub alu_clrbyte : ℕ → M ℕ
unfolding set_flag
alu_clrbyte value = do
  reg_setnflag false
  reg_setzflag true
  reg_setvflag false
  reg_setcflag false
  pure 0

unfoldable pub alu_combyte : ℕ → M ℕ
unfolding set_flag
alu_combyte value = do
  let result = 255 - u8 value
  reg_setnflag (nonzero (bit_and result 0x80))
  reg_setzflag (result == 0)
  reg_setvflag false
  reg_setcflag true
  pure result

unfoldable pub alu_decbyte : ℕ → M ℕ
unfolding set_flag
alu_decbyte v = do
  reg_setvflag (u8 v == 0x80)
  let value = u8 (u8 v + 255)
  reg_setnflag (nonzero (bit_and value 0x80))
  reg_setzflag (value == 0)
  pure value

unfoldable pub alu_decword : ℕ → M ℕ
unfolding set_flag
alu_decword v = do let value = bit_and (sub32 v 1) 0xffff; reg_setzflag (value == 0); pure value

unfoldable pub alu_incbyte : ℕ → M ℕ
unfolding set_flag
alu_incbyte v = do
  reg_setvflag (u8 v == 0x7f)
  let value = u8 (u8 v + 1)
  reg_setnflag (nonzero (bit_and value 0x80))
  reg_setzflag (value == 0)
  pure value

unfoldable pub alu_incword : ℕ → M ℕ
unfolding set_flag
alu_incword v = do let value = bit_and (u32 (v + 1)) 0xffff; reg_setzflag (value == 0); pure value

unfoldable pub alu_orbyte : ℕ → ℕ → M ℕ
unfolding alu_bittestbyte
alu_orbyte val1 val2 = do
  let result = bit_and (bit_or (u8 val1) (u8 val2)) 0xff
  drop_value (alu_bittestbyte result)
  pure result

unfoldable pub alu_xorbyte : ℕ → ℕ → M ℕ
unfolding alu_bittestbyte
alu_xorbyte val1 val2 = do
  let result = bit_and (bit_xor (u8 val1) (u8 val2)) 0xff
  drop_value (alu_bittestbyte result)
  pure result

unfoldable pub alu_shlbyte : ℕ → ℕ → M ℕ
unfolding set_flag
alu_shlbyte operand lsbit = do
  let result = bit_or (bit_and (u32 (operand * 2)) 0xff) (truth (nonzero (u8 lsbit)))
  let cflag = bit_and operand 0x80
  reg_setnflag (nonzero (bit_and result 0x80))
  reg_setzflag (result == 0)
  reg_setvflag (nonzero (bit_and (bit_xor result cflag) 0x80))
  reg_setcflag (nonzero cflag)
  pure result

unfoldable pub alu_shrbyte : ℕ → ℕ → M ℕ
unfolding set_flag
alu_shrbyte operand msbit = do
  let result = bit_or (bit_and (operand / 2) 0xff) (if nonzero (u8 msbit) then 0x80 else 0)
  let cflag = if nonzero (bit_and operand 0x01) then 0x80 else 0
  reg_setnflag (nonzero (bit_and result 0x80))
  reg_setzflag (result == 0)
  reg_setvflag (nonzero (bit_and (bit_xor result cflag) 0x80))
  reg_setcflag (nonzero cflag)
  pure result

unfoldable pub alu_shlword : ℕ → ℕ → M ℕ
unfolding set_flag
alu_shlword operand lsbit = do
  let result = bit_or (bit_and (u32 (operand * 2)) 0xffff) (truth (nonzero (u8 lsbit)))
  let cflag = bit_and operand 0x8000
  reg_setnflag (nonzero (bit_and result 0x8000))
  reg_setzflag (result == 0)
  reg_setvflag (nonzero (bit_and (bit_xor result cflag) 0x8000))
  reg_setcflag (nonzero cflag)
  pure result

unfoldable pub alu_shrword : ℕ → ℕ → M ℕ
unfolding set_flag
alu_shrword operand msbit = do
  let result = bit_or (bit_and (operand / 2) 0xffff) (if nonzero (u8 msbit) then 0x8000 else 0)
  let cflag = if nonzero (bit_and operand 0x0001) then 0x8000 else 0
  reg_setnflag (nonzero (bit_and result 0x8000))
  reg_setzflag (result == 0)
  reg_setvflag (nonzero (bit_and (bit_xor result cflag) 0x8000))
  reg_setcflag (nonzero cflag)
  pure result

unfoldable pub alu_subbyte : ℕ → ℕ → ℕ → M ℕ
unfolding set_flag
alu_subbyte v1 v2 cy = do
  let val1 = u8 v1
  let val2 = u8 v2
  let result = sub32 (sub32 val1 val2) (u8 cy)
  let cflag = bit_and (result / 2) 0x80
  reg_setcflag (nonzero cflag)
  reg_setnflag (nonzero (bit_and result 0x80))
  reg_setvflag (nonzero (bit_and (bit_xor (bit_xor (bit_xor val1 val2) result) cflag) 0x80))
  reg_setzflag (bit_and result 0xff == 0)
  pure result

unfoldable pub alu_negbyte : ℕ → M ℕ
unfolding alu_subbyte
alu_negbyte value = alu_subbyte 0 (u8 value) 0

unfoldable pub alu_subword : ℕ → ℕ → ℕ → M ℕ
unfolding set_flag
alu_subword val1 val2 cy = do
  let result = sub64 (sub64 val1 val2) (u8 cy)
  let cflag = bit_and (result / 2) 0x8000
  reg_setcflag (nonzero cflag)
  reg_setnflag (nonzero (bit_and result 0x8000))
  reg_setvflag (nonzero (bit_and (bit_xor (bit_xor (bit_xor val1 val2) result) cflag) 0x8000))
  reg_setzflag (bit_and result 0xffff == 0)
  pure result

unfoldable pub alu_cmpword : ℕ → ℕ → ℕ → M ℕ
unfolding set_flag
alu_cmpword val1 val2 cy = do
  let result = sub64 (sub64 val1 val2) (u8 cy)
  let cflag = bit_and (result / 2) 0x8000
  reg_setnflag (nonzero (bit_and result 0x8000))
  reg_setvflag (nonzero (bit_and (bit_xor (bit_xor (bit_xor val1 val2) result) cflag) 0x8000))
  reg_setzflag (bit_and result 0xffff == 0)
  pure result

unfoldable pub alu_testbyte : ℕ → M ℕ
unfolding alu_subbyte set_flag
alu_testbyte operand = do
  result ← alu_subbyte (u8 operand) 0 0
  reg_setvflag false
  reg_setcflag false
  pure result
