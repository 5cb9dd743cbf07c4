-- ===== src/Opfunc/Interrupt.antt =====
-- An interrupt and its return: `int_addr` with `rti_inh`, seven bytes deep.
pub mod Bytes
pub mod Enter
pub mod Leave
use sim68xx.Machine.{Machine}
