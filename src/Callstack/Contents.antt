-- ===== src/Callstack/Contents.antt =====
-- The array of frames is a stack: a list of address and stack pointer, the latest first.
use sim68xx.Common.{
  ℕ, zero, suc, ◌-◌, ◌≤◌, ltb, if◌then◌else◌, List, [], ◌∷◌, ◌≡◌, refl, arith, ap, sym, ◌∙◌,
  Bool-cases, inl, inr,
}
use sim68xx.Common.Lists.{length, tail}
use sim68xx.Machine.{Callstack, Machine, update}
use sim68xx.Callstack.{
  max_callstack, push_frame, callstack_push, callstack_pop, peek_addr, peek_stack,
}

abbrev pub Frames : Type 0
Frames = List (ℕ × ℕ)

abbrev frames_below : (ℕ → ℕ) → (ℕ → ℕ) → ℕ → Frames
frames_below entry stack zero = []
frames_below entry stack (suc n) = (entry n, stack n) ∷ frames_below entry stack n

abbrev pub contents : Callstack → Frames
contents k = frames_below k.entry_point k.stack_on_entry k.sp

-- The address of the top frame, 0 if there is none; and its stack pointer.
abbrev pub top_addr : Frames → ℕ
top_addr [] = 0
top_addr ((a, s) ∷ xs) = a

abbrev pub top_stack : Frames → ℕ
top_stack [] = 0
top_stack ((a, s) ∷ xs) = s

length-frames_below : (e s : ℕ → ℕ) (n : ℕ) → length (frames_below e s n) ≡ n
length-frames_below e s zero = refl
length-frames_below e s (suc n) = ap suc (length-frames_below e s n)

pub length-contents : (k : Callstack) → length (contents k) ≡ k.sp
length-contents k = length-frames_below k.entry_point k.stack_on_entry k.sp

frames_below-update :
    (e s : ℕ → ℕ) (a b n j : ℕ)
    → n ≤ j
    → frames_below (update e j a) (update s j b) n ≡ frames_below e s n
frames_below-update e s a b zero j h = refl
frames_below-update e s a b (suc n) j h =
    ground (arith, frames_below-update e s a b n j (omega arith))

pub contents-push_frame :
    (addr stack : ℕ) (k : Callstack)
    → contents (push_frame addr stack k) ≡ (addr, stack) ∷ contents k
contents-push_frame addr stack k =
    ground (arith, frames_below-update k.entry_point k.stack_on_entry addr stack k.sp k.sp)

-- `callstack_push` puts the address with the stack pointer on top while fewer than 256 frames are
-- stacked, and else leaves the frames as they are.
pub callstack_push_refines :
    (addr : ℕ) (m : Machine)
    → contents (callstack_push addr m).1.callstack ≡ (
        if ltb (length (contents m.callstack)) max_callstack
        then (addr, m.regs.sp) ∷ contents m.callstack
        else contents m.callstack)
unfolding callstack_push
callstack_push_refines addr m =
    rw (length-contents m.callstack) (elim (Bool-cases (ltb m.callstack.sp max_callstack)) [
      | inl e ↦ rw e (contents-push_frame addr m.regs.sp m.callstack)
      | inr e ↦ rw e
    ])

module _ (e s : ℕ → ℕ) where
  top_of_frames : (n : ℕ) → top_addr (frames_below e s n) ≡ (if ltb 0 n then e (n - 1) else 0)
  top_of_frames zero = refl
  top_of_frames (suc n) = ground arith

  stack_of_frames : (n : ℕ) → top_stack (frames_below e s n) ≡ (if ltb 0 n then s (n - 1) else 0)
  stack_of_frames zero = refl
  stack_of_frames (suc n) = ground arith

  tail_of_frames : (n : ℕ) → frames_below e s (n - 1) ≡ tail (frames_below e s n)
  tail_of_frames zero = refl
  tail_of_frames (suc n) = ap (frames_below e s) (omega arith)

-- The peeks read the top frame.
peek_addr_refines : (k : Callstack) → peek_addr k ≡ top_addr (contents k)
peek_addr_refines k = sym (top_of_frames k.entry_point k.stack_on_entry k.sp)

pub peek_stack_refines : (k : Callstack) → peek_stack k ≡ top_stack (contents k)
peek_stack_refines k = sym (stack_of_frames k.entry_point k.stack_on_entry k.sp)

-- `callstack_pop` returns the address of the top frame, 0 if there is none, and takes the frame off.
-- It changes nothing but the call stack.
pub callstack_pop_refines :
    (m : Machine)
    → let (addr, m') = callstack_pop m in
      (addr ≡ top_addr (contents m.callstack))
      × (contents m'.callstack ≡ tail (contents m.callstack))
      × (m' ≡ record m { callstack = m'.callstack })
unfolding callstack_pop
callstack_pop_refines m = elim (Bool-cases (ltb 0 m.callstack.sp)) [
  | inl e ↦ rw e (
    rw e at (peek_addr_refines m.callstack),
    tail_of_frames m.callstack.entry_point m.callstack.stack_on_entry m.callstack.sp,
    refl,
  )
  | inr e ↦ rw e (
    rw e at (peek_addr_refines m.callstack),
    ap (frames_below m.callstack.entry_point m.callstack.stack_on_entry) (ground arith)
        ∙ tail_of_frames m.callstack.entry_point m.callstack.stack_on_entry m.callstack.sp,
    refl,
  )
]
