-- ===== src/M6800/Instr.antt =====
-- src/arch/m6800/instr.c in the build with M6800: reset, and the execution of one instruction.
use sim68xx.Common.{ℕ, ◌+◌, true, u64}
use sim68xx.Machine.{M, pure, ◌>>=◌, ◌>>◌, modify}
use sim68xx.Machine.Reg.{reg_getpc, reg_incpc, reg_setpc, reg_setiflag}
use sim68xx.Memory.{mem_getb, mem_getw}
use sim68xx.M6800.Registers.{res_vector}
use sim68xx.M6800.Ireg.{m6800}
use sim68xx.M6800.Optab.{lookup_opcode}
use sim68xx.H6301.Optab.Entry.{Opcode}

unfoldable pub reset : M (Unit {0})
reset = do reg_setpc (← mem_getw res_vector); reg_setiflag true

-- Fetch, decode and execute; the result is `opptr`.
unfoldable pub fetch_execute : M Opcode
fetch_execute = do
  op ← mem_getb (← reg_getpc)
  reg_incpc 1
  let opptr = lookup_opcode op
  opptr.op_func
  pure opptr

abbrev pub add_cycles : ℕ → M (Unit {0})
add_cycles n = modify (λ m. record m { cpu = record m.cpu { ncycles = u64 (m.cpu.ncycles + n) } })

-- Interrupts are compiled only without M6800, so `interrupted` is 0. The result is always 0.
unfoldable pub instr_exec : M ℕ
instr_exec = do opptr ← fetch_execute; add_cycles opptr.op_n_cycles; pure 0
