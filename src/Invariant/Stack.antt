-- ===== src/Invariant/Stack.antt =====
-- The call stack stays nested: a push stacks the current stack pointer, and a new stack pointer takes
-- off the frames below it.
use sim68xx.Common.{
  ℕ, ◌+◌, ◌^◌, ◌≤◌, ◌<◌, ◌≡◌, arith, Bool-cases, inl, inr, if◌then◌else◌, ltb, List, [], ◌∷◌, ap,
  sym, u16, u32, sub32,
}
use mathlib.Core.Path.{subst}
use sim68xx.Machine.{Machine, Callstack, Message, too_many_nestings}
use sim68xx.Callstack.{
  max_callstack, push_frame, callstack_push, reg_setsp, reg_postdecsp, reg_preincsp, reg_incsp,
}
use sim68xx.Common.Lists.{length}
use sim68xx.Callstack.Contents.{Frames, contents, length-contents, contents-push_frame}
use sim68xx.Callstack.Unwind.{returned, reg_setsp_lem}
use sim68xx.Invariant.{IsNested, IsValid, Keeps}
use sim68xx.Invariant.Registers.{report-IsValid}

IsNested-le : (hi lo : ℕ) (frames : Frames) → lo ≤ hi → IsNested hi frames → IsNested lo frames
IsNested-le hi lo [] h v = tt
IsNested-le hi lo ((a, s) ∷ frames) h (p, q, r) = (omega arith, q, r)

-- The frames that a new stack pointer leaves are nested above it.
returned-IsNested :
    (value lo : ℕ) (frames : Frames)
    → IsNested lo frames
    → IsNested (u16 value) (returned value frames)
returned-IsNested value lo [] v = tt
returned-IsNested value lo ((a, s) ∷ frames) (p, q, r) = elim (Bool-cases (ltb s value)) [
  | inl e ↦ rw e (returned-IsNested value s frames r)
  | inr e ↦ rw e (ground arith, q, r)
]

length-returned : (value : ℕ) (frames : Frames) → length (returned value frames) ≤ length frames
length-returned value [] = omega arith
length-returned value ((a, s) ∷ frames) = ground (arith, length-returned value frames)

-- The invariant with a new call stack and stack pointer.
IsValid-restack :
    (m : Machine) (sp : ℕ) (k : Callstack) (ms : List Message) (frames : Frames)
    → IsValid m
    → sp < 2 ^ 16
    → contents k ≡ frames
    → length frames ≤ max_callstack
    → IsNested sp frames
    → IsValid (record m { regs = record m.regs { sp = sp }; callstack = k; messages = ms })
IsValid-restack m sp k ms frames v small e fits nest =
    let nested_k : IsNested sp (contents k) = rw e nest in
    let size : k.sp ≤ max_callstack = omega (arith, length-contents k, ap length e) in ground arith

size-le : (m : Machine) → IsValid m → length (contents m.callstack) ≤ max_callstack
size-le m v = omega (arith, length-contents m.callstack)

pub callstack_push-IsValid : (addr : ℕ) → Keeps (callstack_push addr)
unfolding callstack_push
callstack_push-IsValid addr m v = elim (Bool-cases (ltb m.callstack.sp max_callstack)) [
  | inl e ↦ rw e (
      IsValid-restack m m.regs.sp (push_frame addr m.regs.sp m.callstack) m.messages
        ((addr, m.regs.sp) ∷ contents m.callstack) v v.sp_word
        (contents-push_frame addr m.regs.sp m.callstack)
        (ground (arith, length-contents m.callstack)) (omega arith, v.sp_word, v.nested))
  | inr e ↦ rw e (report-IsValid too_many_nestings m v)
]

pub reg_setsp-IsValid : (value : ℕ) → Keeps (reg_setsp value)
reg_setsp-IsValid value m v =
    let m' = (reg_setsp value m).1 in
    let left =
      if ltb m.regs.sp value then returned value (contents m.callstack) else contents m.callstack in
    subst IsValid (sym (reg_setsp_lem value m).2) (
      IsValid-restack m (u16 value) m'.callstack m'.messages left v (omega arith)
        (reg_setsp_lem value m).1 fits nest)
  where
    fits :
        length (
          if ltb m.regs.sp value
          then returned value (contents m.callstack)
          else contents m.callstack)
        ≤ max_callstack
    fits = elim (Bool-cases (ltb m.regs.sp value)) [
      | inl e ↦ rw e (omega (arith, length-returned value (contents m.callstack), size-le m v))
      | inr e ↦ rw e (size-le m v)
    ]

    nest : IsNested (u16 value) (
        if ltb m.regs.sp value then returned value (contents m.callstack) else contents m.callstack)
    nest = elim (Bool-cases (ltb m.regs.sp value)) [
      | inl e ↦ rw e (returned-IsNested value m.regs.sp (contents m.callstack) v.nested)
      | inr e ↦
          rw e (IsNested-le m.regs.sp (u16 value) (contents m.callstack) (ground arith) v.nested)
    ]

pub reg_postdecsp-IsValid : (value : ℕ) → Keeps (reg_postdecsp value)
unfolding reg_postdecsp
reg_postdecsp-IsValid value m v = reg_setsp-IsValid (sub32 m.regs.sp value) m v

pub reg_preincsp-IsValid : (value : ℕ) → Keeps (reg_preincsp value)
unfolding reg_preincsp
reg_preincsp-IsValid value m v = reg_setsp-IsValid (u32 (m.regs.sp + value)) m v

pub reg_incsp-IsValid : (value : ℕ) → Keeps (reg_incsp value)
unfolding reg_incsp
reg_incsp-IsValid value m v = reg_setsp-IsValid (u32 (m.regs.sp + value)) m v

pub ruleset stack_rules = (
  callstack_push-IsValid, reg_setsp-IsValid, reg_postdecsp-IsValid, reg_preincsp-IsValid,
  reg_incsp-IsValid,
)
