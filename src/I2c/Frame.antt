-- ===== src/I2c/Frame.antt =====
-- No bit leaves or enters a frame: `latch` keeps `inside_frame`.
use sim68xx.Common.{
  ℕ, true, false, Bool, ◌≡◌, refl, ◌+◌, ◌/◌, ◌^◌, ◌==◌, leb, ◌||◌, u8, u32, if◌then◌else◌,
}
use sim68xx.Machine.{update}
use sim68xx.I2c.{
  AckType, acked, add_ack, ack_clock, ack_input, respond, x9241_read_write, x9241_address,
  x9241_command, x9241_data, x9241_id, instance_of, command_of, pot_of, read_wiper, write_wiper,
  read_write, i2c_set_bit, outside, Bus, latch, dispatch,
}

abbrev InFrame : Bool → Bus → Type 0
InFrame inside b = b.inside_frame ≡ inside

if-InFrame :
    (t inside : Bool) (x y : Bus)
    → InFrame inside x
    → InFrame inside y
    → InFrame inside (if t then x else y)
if-InFrame true inside x y p q = p
if-InFrame false inside x y p q = q

acked-InFrame :
    (t : AckType) (inside : Bool) (b : Bus) → InFrame inside b → InFrame inside (acked t b)
unfolding acked
acked-InFrame ack_clock inside b h = h
acked-InFrame ack_input inside b h = h

add_ack-InFrame : (inside : Bool) (b : Bus) → InFrame inside b → InFrame inside (add_ack b)
unfolding add_ack
add_ack-InFrame inside b h = acked-InFrame b.ack_type inside b h

respond-InFrame :
    (inside : Bool) (value : ℕ) (b : Bus) → InFrame inside b → InFrame inside (respond value b)
unfolding respond
respond-InFrame inside value b h = h

x9241_read_write-InFrame :
    (inside : Bool) (bits : ℕ) (b : Bus)
    → InFrame inside b
    → InFrame inside (x9241_read_write bits b)
unfolding x9241_read_write x9241_address x9241_command x9241_data
x9241_read_write-InFrame inside bits b h =
    let replied = add_ack-InFrame inside b h in
    let data_bus = record b {
      wiper = λ i.
          if i == instance_of b then update (b.wiper i) (pot_of b) (b.out_buf 2) else b.wiper i;
    } in
    if-InFrame (bits == 8) inside (x9241_address b)
      (if bits == 16 then x9241_command b else if bits == 24 then x9241_data b else b)
      (if-InFrame (b.out_buf 0 / 2 ^ 4 == x9241_id) inside (add_ack b) b replied h)
      (if-InFrame (bits == 16) inside (x9241_command b) (if bits == 24 then x9241_data b else b)
        (if-InFrame (command_of b == read_wiper) inside (respond _ (add_ack b))
          (if command_of b == write_wiper then add_ack b else b)
          (respond-InFrame inside _ (add_ack b) replied)
          (if-InFrame (command_of b == write_wiper) inside (add_ack b) b replied h))
        (if-InFrame (bits == 24) inside (x9241_data b) b
          (if-InFrame (command_of b == write_wiper) inside (add_ack data_bus) b
            (add_ack-InFrame inside data_bus h) h)
          h))

read_write-InFrame :
    (inside : Bool) (device bits : ℕ) (b : Bus)
    → InFrame inside b
    → InFrame inside (read_write device bits b)
unfolding read_write
read_write-InFrame inside device bits b h =
    if-InFrame (device == 5) inside _ _ (x9241_read_write-InFrame inside bits b h) h

dispatch-InFrame : (inside : Bool) (b : Bus) → InFrame inside b → InFrame inside (dispatch b)
unfolding dispatch
dispatch-InFrame inside b h =
    let routed = if b.out_bits == 8 then record b { device_type = b.out_buf 0 / 2 ^ 4 } else b in
    let kept : InFrame inside routed = if-InFrame (b.out_bits == 8) inside _ b h h in
    if-InFrame (leb 8 b.out_bits) inside _ routed
      (read_write-InFrame inside routed.device_type (u8 b.out_bits) routed kept) kept

pub latch_inside : (value : Bool) (b : Bus) → (latch value b).inside_frame ≡ b.inside_frame
unfolding latch
latch_inside value b =
    dispatch-InFrame b.inside_frame
      (record b {
        out_buf = i2c_set_bit b.out_buf b.out_bits value;
        out_bits = u32 (b.out_bits + 1);
        undefined = outside b.out_bits || b.undefined;
      })
      refl
