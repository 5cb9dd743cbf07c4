-- ===== src/M6811/Compare.antt =====
-- `timer_inc` of src/arch/m6811/timer.c, call after call.
use sim68xx.Common.{ℕ, List, [], ◌∷◌}
use sim68xx.Machine.{Machine}
use sim68xx.M6811.Timer.{timer_inc}

-- The timer after instructions of these numbers of cycles.
abbrev pub timer_incs : List ℕ → Machine → Machine
timer_incs [] m = m
timer_incs (n ∷ ns) m = timer_incs ns (timer_inc n m).1
