-- ===== src/Invariant/Rows.antt =====
-- The opcode table, row by row.
pub mod Low
pub mod Middle
pub mod High
