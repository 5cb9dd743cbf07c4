-- ===== src/Opfunc/Return.antt =====
-- A call and its return: `jsr_addr` with `rts_inh`, and `int_addr` with `rti_inh`, as round trips.
use sim68xx.Common.{
  ℕ, ◌-◌, ◌*◌, ◌/◌, ◌^◌, ◌≤◌, ◌<◌, bit_or, ltb, if◌then◌else◌, true, u8, ◌≡◌, arith, ◌∷◌,
  Bool-cases, inl, inr,
}
use sim68xx.Common.Bits.{bit_or-fields}
use sim68xx.Common.Lists.{length}
use sim68xx.Machine.{Machine, update}
use sim68xx.Invariant.{IsNested}
use sim68xx.Callstack.{max_callstack}
use sim68xx.Callstack.Contents.{Frames}
use sim68xx.Callstack.Unwind.{returned}
use sim68xx.Opfunc.Pushed.{returned-IsNested_above}

-- The frame of a call, if there was room for it, is off once the stack pointer has passed it.
pub returned-pushed :
    (value lo sp addr : ℕ) (frames : Frames)
    → sp < value
    → value ≤ lo
    → IsNested lo frames
    → returned value (if ltb (length frames) max_callstack then (addr, sp) ∷ frames else frames)
      ≡ frames
returned-pushed value lo sp addr frames above below nested =
    let kept = returned-IsNested_above value lo frames below nested in
    let passed : ltb sp value ≡ true = ground arith in
    elim (Bool-cases (ltb (length frames) max_callstack)) [
      | inl e ↦ rw e (rw passed kept)
      | inr e ↦ rw e kept
    ]

-- The two bytes of a word, as they are pushed.
pub word_of_bytes :
    (value : ℕ) → value < 2 ^ 16 → bit_or (u8 (u8 (value / 2 ^ 8)) * 2 ^ 8) (u8 (u8 value)) ≡ value
word_of_bytes value small =
    omega (arith, bit_or-fields 8 (u8 (u8 (value / 2 ^ 8))) (u8 (u8 value)) (omega arith))

-- The memory and the registers under a word on the stack.
abbrev with_word : ℕ → ℕ → (ℕ → ℕ) → ℕ → ℕ
with_word sp value ram = update (update ram sp (u8 value)) (sp - 1) (u8 (value / 2 ^ 8))
