-- ===== src/M6811/Rows.antt =====
-- Every entry of the opcode tables preserves the invariant.
pub mod FirstLow
pub mod FirstMiddle
pub mod FirstHigh
pub mod SecondLow
pub mod SecondHigh
pub mod Third
pub mod Fourth
