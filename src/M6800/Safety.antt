-- ===== src/M6800/Safety.antt =====
-- src/arch/m6800/instr.c and sci.c: reset, every instruction and input preserve the invariant.
use sim68xx.Common.{ℕ, ◌+◌, arith, sym, ◌∙◌, Bool-cases, inl, inr, ltb, List, [], ◌∷◌}
use mathlib.Core.Path.{subst}
use sim68xx.Machine.{Machine}
use sim68xx.Invariant.{IsValid, Keeps}
use sim68xx.Invariant.Registers.{reg_incpc-IsValid}
use sim68xx.Invariant.Memory.{mem_getb-IsValid}
use sim68xx.Invariant.Opfunc.{opfunc_rules}
use sim68xx.H6303.Functions
use sim68xx.H6301.Agree.{lookup_opcode-agree}
use sim68xx.M6800.Agree.{lookup_opcode-subset}
use sim68xx.M6800.Ireg.{m6800}
use sim68xx.M6800.Laws.{m6800-Lawful}
use sim68xx.M6800.Optab.{lookup_opcode}
use sim68xx.M6800.Sci.{bufsize, receive, sci_in}
use sim68xx.M6800.Instr.{reset, fetch_execute, add_cycles, instr_exec}

-- The functions of the table are among those of the HD6303's.
lookup_opcode-IsValid : (op : ℕ) → Keeps (lookup_opcode op).op_func
lookup_opcode-IsValid op = elim ((lookup_opcode-subset op).1) [
  | inl same ↦ subst Keeps (sym same) Functions.trap-IsValid
  | inr (same, _, _) ↦
      let (_, agree, _) = lookup_opcode-agree op in
      subst Keeps (sym (same ∙ agree)) (Functions.lookup_opcode-IsValid op)
]

fetch_execute-IsValid : Keeps fetch_execute
unfolding fetch_execute
fetch_execute-IsValid m v =
    search (mem_getb-IsValid, reg_incpc-IsValid, lookup_opcode-IsValid) depth 10

add_cycles-IsValid : (n : ℕ) → Keeps (add_cycles n)
add_cycles-IsValid n m v = ground arith

sci_in-IsValid : (s : List ℕ) (m : Machine) → IsValid m → IsValid (sci_in s m).1
unfolding sci_in
sci_in-IsValid [] m v = v
sci_in-IsValid (value ∷ s) m v =
    elim (Bool-cases (ltb (m.sci.rxindex + m.sci.rxinterrupts) bufsize)) [
      | inl e ↦ rw e (sci_in-IsValid s (receive value m) (ground arith))
      | inr e ↦ rw e v
    ]

-- A reset of the 6800, one call of `instr_exec`, whatever the opcode and the operands, and input to the
-- ACIA keep a valid machine valid.
pub m6800_steps-IsValid :
    (s : List ℕ) (m : Machine)
    → IsValid m
    → IsValid (reset m).1 × IsValid (instr_exec m).1 × IsValid (sci_in s m).1
unfolding reset instr_exec
m6800_steps-IsValid s m v = (
  search opfunc_rules depth 10,
  search (fetch_execute-IsValid, add_cycles-IsValid) depth 10,
  sci_in-IsValid s m v,
)
