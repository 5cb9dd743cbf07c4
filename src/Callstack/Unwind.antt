-- ===== src/Callstack/Unwind.antt =====
-- `reg_setsp`: raising the stack pointer takes off the frames of the subroutines that have returned.
use sim68xx.Common.{
  ℕ, zero, suc, ◌≤◌, ltb, leb, ◌&&◌, if◌then◌else◌, [], ◌∷◌, ◌≡◌, refl, arith, ap, sym, ◌∙◌,
  Bool-cases, inl, inr, u16,
}
use sim68xx.Machine.{Callstack, Machine}
use sim68xx.Callstack.{callstack_pop, peek_stack, unwind, pop_returned, warn_stack, reg_setsp}
use sim68xx.Common.Lists.{tail, length}
use sim68xx.Callstack.Contents.{
  Frames, contents, top_stack, callstack_pop_refines, peek_stack_refines, length-contents,
}

-- The frames left when those with a stack pointer below `value` are taken off the top.
abbrev pub returned : ℕ → Frames → Frames
returned value [] = []
returned value ((a, s) ∷ frames) = if ltb s value then returned value frames else (a, s) ∷ frames

returned-frames : (value : ℕ) (k : Callstack) (fs : Frames) → contents k ≡ fs → length fs ≡ k.sp
returned-frames value k fs e = ap length (sym e) ∙ length-contents k

unwind-contents :
    (fuel value : ℕ) (m : Machine) (frames : Frames)
    → contents m.callstack ≡ frames
    → length frames ≤ fuel
    → contents (unwind fuel value m).callstack ≡ returned value frames
unfolding unwind
unwind-contents zero value m [] e h = e
unwind-contents zero value m (x ∷ frames) e h = absurd (omega arith)
unwind-contents (suc fuel) value m [] e h =
    ground (arith, peek_stack_refines m.callstack, returned-frames value m.callstack [] e)
unwind-contents (suc fuel) value m ((a, s) ∷ frames) e h =
    let size = returned-frames value m.callstack ((a, s) ∷ frames) e in
    let peek : peek_stack m.callstack ≡ s = peek_stack_refines m.callstack ∙ ap top_stack e in
    let rest : contents (callstack_pop m).1.callstack ≡ frames =
      (callstack_pop_refines m).1 ∙ ap tail e in
    ground
      (arith, size, peek, unwind-contents fuel value (callstack_pop m).1 frames rest (omega arith))

unwind_keeps :
    (fuel value : ℕ) (m : Machine)
    → unwind fuel value m ≡ record m { callstack = (unwind fuel value m).callstack }
unfolding unwind
unwind_keeps zero value m = refl
unwind_keeps (suc fuel) value m =
    elim (Bool-cases (ltb (peek_stack m.callstack) value && ltb 0 m.callstack.sp)) [
      | inl go ↦
          ground
            (arith, go, unwind_keeps fuel value (callstack_pop m).1, (callstack_pop_refines m).2)
      | inr stop ↦ ground (arith, stop)
    ]

pop_returned_keeps :
    (value : ℕ) (m : Machine)
    → pop_returned value m ≡ record m { callstack = (pop_returned value m).callstack }
unfolding pop_returned
pop_returned_keeps value m = elim (Bool-cases (ltb m.regs.sp value)) [
  | inl e ↦ rw e (unwind_keeps m.callstack.sp value m)
  | inr e ↦ rw e
]

pop_returned-contents :
    (value : ℕ) (m : Machine)
    → contents (pop_returned value m).callstack ≡ (
        if ltb m.regs.sp value then returned value (contents m.callstack) else contents m.callstack)
unfolding pop_returned
pop_returned-contents value m = elim (Bool-cases (ltb m.regs.sp value)) [
  | inl e ↦ rw e (
      unwind-contents m.callstack.sp value m (contents m.callstack) refl
        (omega (arith, length-contents m.callstack)))
  | inr e ↦ rw e
]

warn_stack_keeps :
    (value : ℕ) (m : Machine)
    → warn_stack value m ≡ record m { messages = (warn_stack value m).messages }
unfolding warn_stack
warn_stack_keeps value m = elim (Bool-cases (leb value m.cpu.stack_min)) [
  | inl e ↦ rw e
  | inr e ↦ rw e (elim (Bool-cases (ltb m.cpu.stack_max value)) [ inl f ↦ rw f | inr f ↦ rw f ])
]

-- `reg_setsp` stores and returns the low 16 bits of the value. If the value is above the old stack
-- pointer, it takes off the frames whose stack pointer is below the value, from the top on; else
-- it keeps all frames. Apart from printed messages nothing else changes.
pub reg_setsp_lem :
    (value : ℕ) (m : Machine)
    → let (r, m') = reg_setsp value m in
      (r ≡ u16 value)
      × (contents m'.callstack ≡ (
          if ltb m.regs.sp value
          then returned value (contents m.callstack)
          else contents m.callstack))
      × (m' ≡ record m {
        regs = record m.regs { sp = u16 value };
        callstack = m'.callstack;
        messages = m'.messages;
      })
unfolding reg_setsp
reg_setsp_lem value m =
    let popped = pop_returned value m in
    let k = pop_returned_keeps value m in
    let w = warn_stack_keeps value popped in
    (refl, ap (λ (x : Machine). contents x.callstack) w ∙ pop_returned-contents value m, cc)
