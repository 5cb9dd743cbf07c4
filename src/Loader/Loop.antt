-- ===== src/Loader/Loop.antt =====
-- The loop over the data bytes of a record ends, whatever `sscanf` reads.
use sim68xx.Common.{ℕ, ◌+◌, ◌-◌, ◌^◌, ◌≤◌, ◌<◌, Bool, false, ltb, if◌then◌else◌, sub32, ◌≡◌}
use sim68xx.Machine.{Machine}
use sim68xx.Loader.{Text, Scanf, less}

-- The index at which the loop of a record of `nbytes` bytes ends.
abbrev pub last_index : ℕ → ℕ
last_index nbytes = if ltb 3 nbytes then nbytes - 1 else 2

module _ ⦃c : Scanf⦄ (buf : Text) (nbytes addr offset : ℕ) where
  -- The bytes of the record are within the buffer and go within memory.
  module _ (size : nbytes ≤ 510) (word : addr < 2 ^ 16) (low : offset ≤ addr)
      (high : addr + nbytes ≤ 65536 + offset) where
    abbrev Ended : Bool → (ℕ × ℕ × ℕ) × Machine → Type 0
    Ended u ((sum, i, val), m) =
        (less i (sub32 nbytes 1) ≡ false) × (i ≡ last_index nbytes) × (m.undefined ≡ u)
