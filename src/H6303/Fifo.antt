-- ===== src/H6303/Fifo.antt =====
-- The receive buffer of sci.c is a queue of bytes.
use sim68xx.Common.{
  ℕ, zero, suc, ◌+◌, ◌-◌, ◌≡◌, refl, arith, Bool, true, false, not, Bool-cases, inl, inr,
  if◌then◌else◌, ltb, ◌==◌, u8, bit_and, bit_or, List, [], ◌∷◌, ap, sym, ◌∙◌,
}
use sim68xx.Common.Bits.{bit-lt-two, bit-bit_and, bit-bit_or, bit_and-pow}
use sim68xx.Common.Lists.{length, tail, take}
use sim68xx.Machine.{Machine, update}
use sim68xx.Machine.Reg.{nonzero}
use sim68xx.H6303.Registers.{rdr, rdrf, tdre, trcsr}
use sim68xx.H6303.Sci.{bufsize, receive, sci_in, rdr_getb, trcsr_getb}

-- The bytes of a buffer from an index on.
abbrev pub queued : (ℕ → ℕ) → ℕ → ℕ → List ℕ
queued buf i zero = []
queued buf i (suc n) = buf i ∷ queued buf (i + 1) n

-- The bytes that are received and not read yet, the oldest first.
abbrev pub pending : Machine → List ℕ
pending m = queued m.sci.recvbuf m.sci.rxindex m.sci.rxinterrupts

abbrev pub bytes : List ℕ → List ℕ
bytes [] = []
bytes (x ∷ xs) = u8 x ∷ bytes xs

abbrev pub append : List ℕ → List ℕ → List ℕ
append [] ys = ys
append (x ∷ xs) ys = x ∷ append xs ys

-- What RDR holds after a read: the byte at the front of the queue, else what it held.
abbrev pub front : ℕ → List ℕ → ℕ
front d [] = d
front d (x ∷ xs) = u8 x

abbrev pub is_empty : List ℕ → Bool
is_empty [] = true
is_empty (x ∷ xs) = false

pub append_assoc : (xs ys zs : List ℕ) → append (append xs ys) zs ≡ append xs (append ys zs)
append_assoc [] ys zs = refl
append_assoc (x ∷ xs) ys zs = ap (λ t. x ∷ t) (append_assoc xs ys zs)

pub append-[] : (xs : List ℕ) → append xs [] ≡ xs
append-[] [] = refl
append-[] (x ∷ xs) = ap (λ t. x ∷ t) (append-[] xs)

-- A byte stored behind the last one is the new last one.
pub queued-update :
    (buf : ℕ → ℕ) (i n j v : ℕ)
    → j ≡ i + n
    → queued (update buf j v) i (suc n) ≡ append (queued buf i n) (v ∷ [])
queued-update buf i zero j v e = ground arith
queued-update buf i (suc n) j v e = ground (arith, queued-update buf (i + 1) n j v (omega arith))

receive-pending :
    (value : ℕ) (m : Machine) → pending (receive value m) ≡ append (pending m) (u8 value ∷ [])
receive-pending value m =
    ap (queued (receive value m).sci.recvbuf m.sci.rxindex) {y = suc m.sci.rxinterrupts}
      (omega arith)
    ∙ queued-update m.sci.recvbuf m.sci.rxindex m.sci.rxinterrupts _ (u8 value) refl

queued-front : (buf : ℕ → ℕ) (i n d : ℕ) → nonzero n ≡ true → front d (queued buf i n) ≡ u8 (buf i)
queued-front buf i zero d h = ground arith
queued-front buf i (suc n) d h = refl

queued-tail : (buf : ℕ → ℕ) (i n : ℕ) → tail (queued buf i n) ≡ queued buf (i + 1) (n - 1)
queued-tail buf i zero = refl
queued-tail buf i (suc n) = ap (queued buf (i + 1)) (omega arith)

queued-none : (buf : ℕ → ℕ) (i n : ℕ) → nonzero n ≡ false → queued buf i n ≡ []
queued-none buf i zero h = refl
queued-none buf i (suc n) h = ground arith

-- An empty queue may start anywhere.
queued-restart : (buf : ℕ → ℕ) (i n : ℕ) → queued buf (if n == 0 then 0 else i) n ≡ queued buf i n
queued-restart buf i zero = refl
queued-restart buf i (suc n) = ground arith

-- `sci_in` appends the bytes that find room behind the queue, in order, and returns how many; it
-- changes nothing but the state of the serial interface.
pub sci_in_refines :
    (s : List ℕ) (m : Machine)
    → let room = bufsize - (m.sci.rxindex + m.sci.rxinterrupts) in
      let (n, m') = sci_in s m in
      (n ≡ length (take room s))
      × (pending m' ≡ append (pending m) (bytes (take room s)))
      × (m' ≡ record m { sci = m'.sci })
unfolding sci_in
sci_in_refines [] m = (refl, sym (append-[] (pending m)), refl)
sci_in_refines (value ∷ s) m =
    elim (Bool-cases (ltb (m.sci.rxindex + m.sci.rxinterrupts) bufsize)) [
      | inl e ↦
          let room = bufsize - (m.sci.rxindex + (m.sci.rxinterrupts + 1)) in
          let step : bufsize - (m.sci.rxindex + m.sci.rxinterrupts) ≡ suc room = ground arith in
          let (taken, queue, rest) = sci_in_refines s (receive value m) in
          rw e (
            rw step (
              ap suc taken,
              queue
                  ∙ ap (λ q. append q (bytes (take room s))) (receive-pending value m)
                  ∙ append_assoc (pending m) (u8 value ∷ []) (bytes (take room s)),
              rest,
            ))
      | inr e ↦
          let full : bufsize - (m.sci.rxindex + m.sci.rxinterrupts) ≡ 0 = ground arith in
          rw e (rw full (refl, sym (append-[] (pending m)), refl))
    ]

-- While the processor runs, a read of RDR takes the oldest byte off the queue and returns it; with
-- an empty queue it returns what RDR held.
pub rdr_getb_refines :
    (offs : ℕ) (m : Machine)
    → m.cpu.running ≡ true
    → let (r, m') = rdr_getb offs m in
      (r ≡ front (m.iram rdr) (pending m)) × (pending m' ≡ tail (pending m))
unfolding rdr_getb
rdr_getb_refines offs m h =
    let i = m.sci.rxindex in
    let n = m.sci.rxinterrupts in
    let buf = m.sci.recvbuf in
    simp h (elim (Bool-cases (nonzero n)) [
      | inl e ↦ simp e (
        sym (queued-front buf i n (m.iram rdr) e),
        queued-restart buf (i + 1) (n - 1) ∙ sym (queued-tail buf i n),
      )
      | inr e ↦ simp (e, queued-none buf i n e, queued-none buf 0 n e) (refl, refl)
    ])

is_empty-queued : (buf : ℕ → ℕ) (i n : ℕ) → not (is_empty (queued buf i n)) ≡ nonzero n
is_empty-queued buf i zero = refl
is_empty-queued buf i (suc n) = ground arith

-- What the processor reads of a status with the two flags of TRCSR forced.
rdrf-on : (x : ℕ) → nonzero (bit_and (bit_or x rdrf) rdrf) ≡ true
rdrf-on x = ground (arith, bit_and-pow 7 (bit_or x rdrf), bit-bit_or 7 x rdrf, bit-lt-two 7 x)

rdrf-off : (x : ℕ) → nonzero (bit_and (bit_and x (0xff - rdrf)) rdrf) ≡ false
rdrf-off x = ground (arith, bit_and-pow 7 (bit_and x (0xff - rdrf)), bit-bit_and 7 x (0xff - rdrf))

tdre-on : (x : ℕ) → nonzero (bit_and (bit_or (bit_or x tdre) rdrf) tdre) ≡ true
tdre-on x = ground (
  arith,
  bit_and-pow 5 (bit_or (bit_or x tdre) rdrf),
  bit-bit_or 5 (bit_or x tdre) rdrf,
  bit-bit_or 5 x tdre,
  bit-lt-two 5 x,
)

tdre-kept : (x : ℕ) → nonzero (bit_and (bit_and (bit_or x tdre) (0xff - rdrf)) tdre) ≡ true
tdre-kept x = ground (
  arith,
  bit_and-pow 5 (bit_and (bit_or x tdre) (0xff - rdrf)),
  bit-bit_and 5 (bit_or x tdre) (0xff - rdrf),
  bit-bit_or 5 x tdre,
  bit-lt-two 5 x,
)

-- In what a read of TRCSR returns, RDRF is set exactly while a received byte is pending, and
-- TDRE always; the read changes nothing.
pub trcsr_getb_lem :
    (offs : ℕ) (m : Machine)
    → let (r, m') = trcsr_getb offs m in
      (nonzero (bit_and r rdrf) ≡ not (is_empty (pending m)))
      × (nonzero (bit_and r tdre) ≡ true)
      × (m' ≡ m)
unfolding trcsr_getb
trcsr_getb_lem offs m =
    let status = m.iram trcsr in
    let n = m.sci.rxinterrupts in
    let empty = is_empty-queued m.sci.recvbuf m.sci.rxindex n in
    elim (Bool-cases (nonzero n)) [
      | inl e ↦ simp (e, empty) (rdrf-on (bit_or status tdre), tdre-on status, refl)
      | inr e ↦ simp (e, empty) (rdrf-off (bit_or status tdre), tdre-kept status, refl)
    ]
