-- ===== src/H6303/Reach.antt =====
-- Every machine that the simulator reaches satisfies the invariant.
use sim68xx.Common.{arith}
use sim68xx.Machine.{Machine}
use sim68xx.Invariant.{IsValid, Keeps}
use sim68xx.H6303.Laws.{sci_in-IsValid}
use sim68xx.H6303.Safety.{instr_exec-IsValid, reset-IsValid}
use sim68xx.H6303.Run.{
  initial, cpu_reset, Step, executed, restarted, received, started, stopped, Reach, here, next,
}

-- The globals at start satisfy the invariant.
initial-IsValid : IsValid initial
initial-IsValid = ground arith

cpu_reset-IsValid : Keeps cpu_reset
unfolding cpu_reset
cpu_reset-IsValid m v = let w = reset-IsValid m v in ground arith

Step-IsValid : {m m' : Machine} → Step m m' → IsValid m → IsValid m'
Step-IsValid {m = m} executed v = instr_exec-IsValid m v
Step-IsValid {m = m} restarted v = cpu_reset-IsValid m v
Step-IsValid {m = m} (received s) v = sci_in-IsValid s m v
Step-IsValid started v = ground arith
Step-IsValid stopped v = ground arith

Reach-IsValid : {m m' : Machine} → Reach m m' → IsValid m → IsValid m'
Reach-IsValid here v = v
Reach-IsValid (next r s) v = Step-IsValid s (Reach-IsValid r v)

-- Whatever instructions, resets, input, starts and stops follow the start, the machine satisfies
-- the invariant: registers and bytes within their widths, at most 256 frames on the call stack, the
-- frames nested, and the received bytes within their buffer.
pub initial_reaches-IsValid : (m : Machine) → Reach initial m → IsValid m
initial_reaches-IsValid m r = Reach-IsValid r initial-IsValid
