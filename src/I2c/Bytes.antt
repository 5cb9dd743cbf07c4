-- ===== src/I2c/Bytes.antt =====
-- A byte from the master: eight clocks, the last of which calls the device.
use sim68xx.Common.{
  ℕ, ◌+◌, ◌-◌, ◌*◌, ◌^◌, ◌<◌, Bool, true, false, leb, ◌==◌, List, [], ◌∷◌, u8, u32, ◌≡◌, ◌≢◌, refl,
  sym, ap, ◌∙◌, arith, Bool-cases, inl, inr,
}
use sim68xx.Common.Lists.{drop}
use sim68xx.Machine.{update}
use sim68xx.Machine.Reg.{Flag, mask, flag_of, with_flag}
use sim68xx.I2c.{Bus, latch, dispatch, read_write, x9241_read_write, i2c_set_bit, outside}
use sim68xx.I2c.Bits.{bits_of, stored_bits-eq, i2c_set_bit-eq, update_twice, update_own}
use sim68xx.I2c.Edges.{clock_out, clock_out_lem, settled, IsClockLow}

abbrev pub send_bits : List Bool → Bus → Bus
send_bits [] b = b
send_bits (d ∷ ds) b = send_bits ds (clock_out d b)

abbrev pub send_byte : ℕ → Bus → Bus
send_byte value = send_bits (bits_of value)

-- After `j` bits of byte `k`, with the byte `w` so far.
abbrev pub at : ℕ → ℕ → ℕ → Bool → Bus → Bus
at k j w last b = record b {
  inside_frame = true;
  clock_last = false;
  data_last = last;
  out_buf = update b.out_buf k w;
  out_bits = 8 * k + j;
}

read_write_quiet :
    (device bits : ℕ) (b : Bus) → bits ≢ 8 → bits ≢ 16 → bits ≢ 24 → read_write device bits b ≡ b
unfolding read_write x9241_read_write
read_write_quiet device bits b p q r =
    let a8 : bits == 8 ≡ false = ground arith in
    let a16 : bits == 16 ≡ false = ground arith in
    let a24 : bits == 24 ≡ false = ground arith in
    elim (Bool-cases (device == 5)) [ inl e ↦ rw e (rw (a8, a16, a24) refl) | inr e ↦ rw e refl ]

-- A bit is stored in its byte.
latch_stores :
    (k j w : ℕ) (f : Flag) (last value : Bool) (b : Bus)
    → k < 3
    → j < 8
    → mask f ≡ 2 ^ (7 - j)
    → latch value (at k j w last b) ≡ dispatch (at k (j + 1) (with_flag f value w) last b)
unfolding latch
latch_stores k j w f last value b hk hj same =
    let bits : u32 (8 * k + j + 1) ≡ 8 * k + (j + 1) = omega arith in
    let room : outside (8 * k + j) ≡ false = ground arith in
    let own : k == k ≡ true = ground arith in
    let buf : i2c_set_bit (update b.out_buf k w) (8 * k + j) value
        ≡ update b.out_buf k (with_flag f value w) =
      i2c_set_bit-eq (update b.out_buf k w) k j f value hj same ∙ rw own (update_twice _ k w _) in
    rw (bits, buf) (rw room refl)

pub dispatch_quiet :
    (b : Bus)
    → b.out_bits < 256
    → b.out_bits ≢ 8
    → b.out_bits ≢ 16
    → b.out_bits ≢ 24
    → dispatch b ≡ b
unfolding dispatch
dispatch_quiet b few p q r =
    let eight : b.out_bits == 8 ≡ false = ground arith in
    let short : u8 b.out_bits ≡ b.out_bits = omega arith in
    let quiet = read_write_quiet b.device_type b.out_bits b p q r in
    rw (eight, short)
      (elim (Bool-cases (leb 8 b.out_bits)) [ inl e ↦ rw e quiet | inr e ↦ rw e refl ])

clock_out_quiet :
    (k j w : ℕ) (f : Flag) (last value : Bool) (b : Bus)
    → k < 3
    → j < 7
    → mask f ≡ 2 ^ (7 - j)
    → clock_out value (at k j w last b) ≡ at k (j + 1) (with_flag f value w) value b
clock_out_quiet k j w f last value b hk hj same =
    clock_out_lem value (at k j w last b) (refl, refl)
    ∙ ap (settled false value) (
        latch_stores k j w f value value b hk (omega arith) same
        ∙ dispatch_quiet (at k (j + 1) (with_flag f value w) value b) (omega arith)
            (λ e. absurd (omega arith)) (λ e. absurd (omega arith)) (λ e. absurd (omega arith)))

-- The device is called with the byte in place.
abbrev pub completed : ℕ → ℕ → Bool → Bus → Bus
completed k w last b = settled false last (dispatch (at k 8 w last b))

clock_out_last :
    (k w : ℕ) (last value : Bool) (b : Bus)
    → k < 3
    → clock_out value (at k 7 w last b) ≡ completed k (with_flag Flag.c value w) value b
clock_out_last k w last value b hk =
    clock_out_lem value (at k 7 w last b) (refl, refl)
    ∙ ap (settled false value) (latch_stores k 7 w Flag.c value value b hk (omega arith) refl)

-- A byte is sent: the byte `k` of the buffer is the value, and the device is called.
pub send_byte_lem :
    (k value : ℕ) (b : Bus)
    → k < 3
    → value < 256
    → b.out_buf k < 256
    → IsClockLow b
    → b.out_bits ≡ 8 * k
    → send_byte value b ≡ completed k value (flag_of Flag.c value) b
send_byte_lem k value b hk small old (inside, low) count =
    let d = λ (f : Flag). flag_of f value in
    let start : b.out_bits ≡ 8 * k + 0 = omega arith in
    let begin : b ≡ at k 0 (b.out_buf k) b.data_last b =
      ap (λ (x : Bool). record b { inside_frame = x }) inside
      ∙ ap (λ (x : Bool). record b { inside_frame = true; clock_last = x }) low
      ∙ ap (λ (x : ℕ → ℕ). record b { inside_frame = true; clock_last = false; out_buf = x })
          (sym (update_own b.out_buf k))
      ∙ ap
          (λ (x : ℕ). record b {
            inside_frame = true;
            clock_last = false;
            out_buf = update b.out_buf k (b.out_buf k);
            out_bits = x;
          })
          start in
    let w1 = with_flag Flag.s (d Flag.s) (b.out_buf k) in
    let w2 = with_flag Flag.x (d Flag.x) w1 in
    let w3 = with_flag Flag.h (d Flag.h) w2 in
    let w4 = with_flag Flag.i (d Flag.i) w3 in
    let w5 = with_flag Flag.n (d Flag.n) w4 in
    let w6 = with_flag Flag.z (d Flag.z) w5 in
    let w7 = with_flag Flag.v (d Flag.v) w6 in
    let step = λ (j w : ℕ) (f : Flag) (last : Bool) (h : j < 7) (e : mask f ≡ 2 ^ (7 - j)).
      clock_out_quiet k j w f last (d f) b hk h e in
    let rest = λ (j : ℕ). send_bits (drop j (bits_of value)) in
    ap (rest 0) begin
    ∙ ap (rest 1) (step 0 (b.out_buf k) Flag.s b.data_last (omega arith) refl)
    ∙ ap (rest 2) (step 1 w1 Flag.x (d Flag.s) (omega arith) refl)
    ∙ ap (rest 3) (step 2 w2 Flag.h (d Flag.x) (omega arith) refl)
    ∙ ap (rest 4) (step 3 w3 Flag.i (d Flag.h) (omega arith) refl)
    ∙ ap (rest 5) (step 4 w4 Flag.n (d Flag.i) (omega arith) refl)
    ∙ ap (rest 6) (step 5 w5 Flag.z (d Flag.n) (omega arith) refl)
    ∙ ap (rest 7) (step 6 w6 Flag.v (d Flag.z) (omega arith) refl)
    ∙ clock_out_last k w7 (d Flag.v) (d Flag.c) b hk
    ∙ ap (λ (w : ℕ). completed k w (d Flag.c) b) (stored_bits-eq value (b.out_buf k) small old)
