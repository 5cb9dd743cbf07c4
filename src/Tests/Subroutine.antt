-- ===== src/Tests/Subroutine.antt =====
-- The round trips of calls and interrupts, applied to a running machine.
use sim68xx.H6303.Ireg.{h6303}
