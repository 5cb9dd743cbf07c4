-- ===== src/I2c/Edges.antt =====
-- The waves of a bus master, and what `i2c_sim` makes of their edges.
use sim68xx.Common.{ℕ, true, false, Bool, bit_or, ◌≡◌, refl, ap, ◌∙◌, Bool-cases, inl, inr}
use sim68xx.I2c.{
  Bus, i2c_sim, i2c_events, xicor_sim_frame, latch, send_response, i2c_data_output, i2c_data_input,
}
use sim68xx.I2c.Frame.{latch_inside}

-- Data falls while the clock is high, from an idle bus; then the clock falls.
abbrev pub start : Bus → Bus
start b =
    let output = i2c_data_output in
    i2c_sim false false output
      (i2c_sim true false output (i2c_sim true true output (i2c_sim false true output b)))

-- A bit from the master: the data is set while the clock is low, and the clock rises and falls.
abbrev pub clock_out : Bool → Bus → Bus
clock_out value b =
    let output = i2c_data_output in
    i2c_sim false value output (i2c_sim true value output (i2c_sim false value output b))

-- A bit from the slave: the clock rises and falls while the data pin is an input.
abbrev pub clock_in : Bool → Bus → Bus
clock_in value b =
    let input = i2c_data_input in i2c_sim false value input (i2c_sim true value input b)

-- Inside a frame with the clock low.
abbrev pub IsClockLow : Bus → Type 0
IsClockLow b = (b.inside_frame ≡ true) × (b.clock_last ≡ false)

abbrev pub settled : Bool → Bool → Bus → Bus
settled clock value b = record b { clock_last = clock; data_last = value }

module _ (value : Bool) (b : Bus) where
  rises :
      (flags : ℕ)
      → IsClockLow b
      → i2c_events true value flags b ≡ xicor_sim_frame value (bit_or flags 0x10) b
  unfolding i2c_events
  rises flags (inside, low) = rw low (rw inside refl)

  falls :
      (flags : ℕ)
      → b.inside_frame ≡ true
      → b.clock_last ≡ true
      → i2c_events false value flags b ≡ xicor_sim_frame value (bit_or flags 0x20) b
  unfolding i2c_events
  falls flags inside high = rw high (rw inside refl)

  stays_low : (flags : ℕ) → b.clock_last ≡ false → i2c_events false value flags b ≡ b
  unfolding i2c_events
  stays_low flags low =
      rw low (elim (Bool-cases b.inside_frame) [ inl e ↦ rw e refl | inr e ↦ rw e refl ])

  latches : xicor_sim_frame value 0x12 b ≡ latch value b
  unfolding xicor_sim_frame
  latches = refl

  output_falls : xicor_sim_frame value 0x22 b ≡ b
  unfolding xicor_sim_frame
  output_falls = refl

  input_rises : xicor_sim_frame value 0x11 b ≡ b
  unfolding xicor_sim_frame
  input_rises = refl

  responds : xicor_sim_frame value 0x21 b ≡ send_response b
  unfolding xicor_sim_frame
  responds = refl

settles :
    (clock value : Bool) (flags : ℕ) (b b' : Bus)
    → i2c_events clock value flags b ≡ b'
    → i2c_sim clock value flags b ≡ settled clock value b'
unfolding i2c_sim
settles clock value flags b b' e = ap (settled clock value) e

pub clock_out_lem :
    (value : Bool) (b : Bus)
    → IsClockLow b
    → clock_out value b ≡ settled false value (latch value (settled false value b))
clock_out_lem value b (inside, low) =
    let b1 = settled false value b in
    let set = settles false value 0x2 b b (stays_low value b 0x2 low) in
    let b2 = settled true value (latch value b1) in
    let up =
      settles true value 0x2 b1 (latch value b1)
        (rises value b1 0x2 (inside, refl) ∙ latches value b1) in
    let down =
      settles false value 0x2 b2 b2
        (falls value b2 0x2 (latch_inside value b1 ∙ inside) refl ∙ output_falls value b2) in
    ap (λ (x : Bus). i2c_sim false value 0x2 (i2c_sim true value 0x2 x)) set
    ∙ ap (i2c_sim false value 0x2) up
    ∙ down

module _ (value : Bool) (b : Bus) where
  idle_falls : b.inside_frame ≡ false → i2c_events false value 0x2 b ≡ b
  unfolding i2c_events
  idle_falls idle = elim (Bool-cases b.clock_last) [
    | inl e ↦ rw e (rw idle refl)
    | inr e ↦ rw e (rw idle refl)
  ]

  idle_rises : b.inside_frame ≡ false → b.clock_last ≡ false → i2c_events true value 0x2 b ≡ b
  unfolding i2c_events
  idle_rises idle low = rw low (rw idle refl)

data_falls :
    (b : Bus)
    → b.clock_last ≡ true
    → b.data_last ≡ true
    → i2c_events true false 0x2 b
      ≡ record b { inside_frame = true; out_bits = 0; in_bits = 0; in_bits_sent = 0 }
unfolding i2c_events xicor_sim_frame
data_falls b high set = rw (high, set) refl

-- A start condition on an idle bus begins a frame with empty buffers.
pub start_lem :
    (b : Bus)
    → b.inside_frame ≡ false
    → start b ≡ record b {
      inside_frame = true;
      clock_last = false;
      data_last = false;
      out_bits = 0;
      in_bits = 0;
      in_bits_sent = 0;
    }
start_lem b idle =
    let b1 = settled false true b in
    let b2 = settled true true b in
    let begun = record b { inside_frame = true; out_bits = 0; in_bits = 0; in_bits_sent = 0 } in
    let b3 = settled true false begun in
    let set = settles false true 0x2 b b (idle_falls true b idle) in
    let up = settles true true 0x2 b1 b1 (idle_rises true b1 idle refl) in
    let begin =
      settles true false 0x2 b2 (record begun { clock_last = true; data_last = true })
        (data_falls b2 refl refl) in
    let down =
      settles false false 0x2 b3 b3 (falls false b3 0x2 refl refl ∙ output_falls false b3) in
    let low = i2c_sim false false 0x2 in
    ap (λ (x : Bus). low (i2c_sim true false 0x2 (i2c_sim true true 0x2 x))) set
    ∙ ap (λ (x : Bus). low (i2c_sim true false 0x2 x)) up
    ∙ ap low begin
    ∙ down

-- The clock rises with the data low, and the data rises while the clock is high.
abbrev pub stop : Bus → Bus
stop b =
    let output = i2c_data_output in
    i2c_sim true true output (i2c_sim true false output (i2c_sim false false output b))

data_rises :
    (b : Bus)
    → b.clock_last ≡ true
    → b.data_last ≡ false
    → i2c_events true true 0x2 b ≡ record b { inside_frame = false }
unfolding i2c_events xicor_sim_frame
data_rises b high low = rw (high, low) refl

-- A stop condition ends the frame; the clock edge before it latches one more bit, a 0.
pub stop_lem :
    (b : Bus)
    → IsClockLow b
    → stop b ≡ record (latch false (settled false false b)) {
      inside_frame = false;
      clock_last = true;
      data_last = true;
    }
stop_lem b (inside, low) =
    let b1 = settled false false b in
    let b2 = settled true false (latch false b1) in
    let set = settles false false 0x2 b b (stays_low false b 0x2 low) in
    let up =
      settles true false 0x2 b1 (latch false b1)
        (rises false b1 0x2 (inside, refl) ∙ latches false b1) in
    let end =
      settles true true 0x2 b2 (record b2 { inside_frame = false }) (data_rises b2 refl refl) in
    ap (λ (x : Bus). i2c_sim true true 0x2 (i2c_sim true false 0x2 x)) set
    ∙ ap (i2c_sim true true 0x2) up
    ∙ end

-- A clock with the data pin as an input drives a bit of the response, if there is one.
pub clock_in_lem :
    (value : Bool) (b : Bus)
    → IsClockLow b
    → clock_in value b ≡ settled false value (send_response (settled true value b))
clock_in_lem value b (inside, low) =
    let b1 = settled true value b in
    let up = settles true value 0x1 b b (rises value b 0x1 (inside, low) ∙ input_rises value b) in
    let down =
      settles false value 0x1 b1 (send_response b1)
        (falls value b1 0x1 inside refl ∙ responds value b1) in
    ap (i2c_sim false value 0x1) up ∙ down
