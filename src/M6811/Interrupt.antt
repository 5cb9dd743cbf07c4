-- ===== src/M6811/Interrupt.antt =====
-- An interrupt of the 6811 and its return: `int_6811` with `rti_6811`, nine bytes deep.
pub mod Bytes
pub mod Enter
pub mod Leave
use sim68xx.Machine.{Machine}
