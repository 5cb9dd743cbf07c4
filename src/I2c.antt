-- ===== src/I2c.antt =====
-- src/boards/i2c_sim.c: the I2C bus simulator, in its mode `XICOR` (the variable `i2c_sim_mode` is
-- static and nothing writes it), with the X9241 potentiometer. The printing is not modelled; the bits
-- that the simulator drives through `i2c_input`, which the user of the file provides, are a list.
pub mod Bits
pub mod Bytes
pub mod Frame
pub mod Edges
pub mod Wiper
pub mod Writing
pub mod Reading
pub mod Others
use sim68xx.Common.{
  ℕ, zero, suc, ◌+◌, ◌-◌, ◌*◌, ◌/◌, ◌%◌, ◌^◌, bit_and, bit_or, Bool, true, false, not, ltb, leb,
  ◌&&◌, ◌||◌, ◌==◌, if◌then◌else◌, List, [], ◌∷◌, ◌++◌, u8, u32,
}
use sim68xx.Machine.{update}
use sim68xx.Machine.Reg.{nonzero, truth}

-- The flag values of i2c_sim.h.
abbrev pub i2c_data_input : ℕ
i2c_data_input = 0x1

abbrev pub i2c_data_output : ℕ
i2c_data_output = 0x2

abbrev pub i2c_start : ℕ
i2c_start = 0x4

abbrev pub i2c_stop : ℕ
i2c_stop = 0x8

abbrev pub i2c_clock_0_1 : ℕ
i2c_clock_0_1 = 0x10

abbrev pub i2c_clock_1_0 : ℕ
i2c_clock_1_0 = 0x20

abbrev pub x9241_id : ℕ
x9241_id = 0x05

-- `enum i2c_ack_types`.
pub data AckType : Type 0 where
  ack_clock ack_input : AckType

-- The statics: those of `i2c_sim`, of `xicor_sim_frame`, and the wipers of `x9241_read_write` by
-- instance and potentiometer. `undefined` is no variable: an access outside an array was made.
pub record Bus : Type 0 where
  pub inside_frame : Bool
  pub clock_last : Bool
  pub data_last : Bool
  pub out_buf : ℕ → ℕ
  pub out_bits : ℕ
  pub in_buf : ℕ → ℕ
  pub in_bits : ℕ
  pub in_bits_sent : ℕ
  pub device_type : ℕ
  pub wiper : ℕ → ℕ → ℕ
  pub ack_type : AckType
  -- The bits driven on the data pin, the latest first.
  pub driven : List ℕ
  pub undefined : Bool

-- `data[bitno/8] |= mask` or `&= ~mask`.
abbrev put_mask : (ℕ → ℕ) → ℕ → ℕ → Bool → ℕ → ℕ
put_mask buf i mask value =
    update buf i (if value then bit_or (buf i) mask else bit_and (buf i) (0xff - mask))

-- `i2c_set_bit` and `i2c_get_bit`: the first bit is the highest of the byte.
unfoldable pub i2c_set_bit : (ℕ → ℕ) → ℕ → Bool → ℕ → ℕ
i2c_set_bit buf bitno value = put_mask buf (bitno / 8) (2 ^ (7 - bitno % 8)) value

unfoldable pub i2c_get_bit : (ℕ → ℕ) → ℕ → Bool
i2c_get_bit buf bitno = nonzero (bit_and (buf (bitno / 8)) (2 ^ (7 - bitno % 8)))

-- `set_bit`: the first bit is the lowest.
unfoldable pub set_bit : (ℕ → ℕ) → ℕ → Bool → ℕ → ℕ
set_bit buf bitno value = put_mask buf (bitno / 8) (2 ^ (bitno % 8)) value

-- `add_byte`: the loop over the bits, `left` of them to go; `bits` is a `u_char`.
unfoldable pub add_bits : ℕ → ℕ → ℕ → (ℕ → ℕ) × ℕ → (ℕ → ℕ) × ℕ
unfolding set_bit
add_bits zero i value (buf, bits) = (buf, bits)
add_bits (suc left) i value (buf, bits) =
    add_bits left (i + 1) value (set_bit buf bits (nonzero (bit_and value (2 ^ i))), u8 (bits + 1))

unfoldable pub add_byte : ℕ → (ℕ → ℕ) × ℕ → (ℕ → ℕ) × ℕ
unfolding add_bits
add_byte value = add_bits 8 0 value

-- `i2c_input` of the user: the bit is driven.
abbrev i2c_input : ℕ → Bus → Bus
i2c_input bit b = record b { driven = bit ∷ b.driven }

-- `add_ack` to the response, by `i2c_ack_type`.
unfoldable pub acked : AckType → Bus → Bus
unfolding set_bit
acked ack_clock b = record b {
  in_buf = set_bit b.in_buf b.in_bits false;
  in_bits = u8 (b.in_bits + 1);
}
acked ack_input b = i2c_input 0 b

unfoldable pub add_ack : Bus → Bus
unfolding acked
add_ack b = acked b.ack_type b

-- `add_byte` to the response.
unfoldable pub respond : ℕ → Bus → Bus
unfolding add_byte
respond value b =
    let (buf, bits) = add_byte value (b.in_buf, b.in_bits) in
    record b { in_buf = buf; in_bits = bits }

abbrev pub read_wiper : ℕ
read_wiper = 9

abbrev pub write_wiper : ℕ
write_wiper = 10

-- The fields of a command: instance, command and potentiometer.
abbrev pub instance_of : Bus → ℕ
instance_of b = bit_and (b.out_buf 0) 0x0f

abbrev pub command_of : Bus → ℕ
command_of b = b.out_buf 1 / 2 ^ 4

abbrev pub pot_of : Bus → ℕ
pot_of b = bit_and (b.out_buf 1 / 2 ^ 2) 3

-- `x9241_read_write` after 8, 16 and 24 bits.
unfoldable pub x9241_address : Bus → Bus
x9241_address b = if b.out_buf 0 / 2 ^ 4 == x9241_id then add_ack b else b

unfoldable pub x9241_command : Bus → Bus
x9241_command b =
    let replied = add_ack b in
    if command_of b == read_wiper
    then respond (replied.wiper (instance_of b) (pot_of b)) replied
    else if command_of b == write_wiper
    then replied
    else b

unfoldable pub x9241_data : Bus → Bus
x9241_data b =
    if command_of b == write_wiper
    then add_ack (record b {
      wiper = λ i.
          if i == instance_of b then update (b.wiper i) (pot_of b) (b.out_buf 2) else b.wiper i;
    })
    else b

-- `cmd_bits` is a `u_char`.
unfoldable pub x9241_read_write : ℕ → Bus → Bus
unfolding x9241_address x9241_command x9241_data
x9241_read_write cmd_bits b =
    if cmd_bits == 8
    then x9241_address b
    else if cmd_bits == 16
    then x9241_command b
    else if cmd_bits == 24
    then x9241_data b
    else b

-- `xicor_devices[device_type].read_write`: all but entry 5 are `unknown_read_write`, which prints.
unfoldable pub read_write : ℕ → ℕ → Bus → Bus
unfolding x9241_read_write
read_write device cmd_bits b = if device == 5 then x9241_read_write cmd_bits b else b

abbrev has : ℕ → ℕ → Bool
has flags mask = nonzero (bit_and flags mask)

-- `out_buf` and `in_buf` have 256 bytes. A bit stored behind them overwrites other statics, which are
-- left open: the flag `undefined` is set.
abbrev outside : ℕ → Bool
outside bitno = leb 2048 bitno

-- After a bit: the eighth sets the device, and from then on the device is called.
unfoldable pub dispatch : Bus → Bus
unfolding read_write
dispatch b =
    let routed = if b.out_bits == 8 then record b { device_type = b.out_buf 0 / 2 ^ 4 } else b in
    if leb 8 b.out_bits then read_write routed.device_type (u8 b.out_bits) routed else routed

-- A bit latched from the data pin.
unfoldable pub latch : Bool → Bus → Bus
unfolding i2c_set_bit
latch value b = dispatch (record b {
  out_buf = i2c_set_bit b.out_buf b.out_bits value;
  out_bits = u32 (b.out_bits + 1);
  undefined = outside b.out_bits || b.undefined;
})

-- A bit of the response driven on the data pin.
unfoldable pub send_response : Bus → Bus
unfolding i2c_get_bit
send_response b =
    if ltb b.in_bits_sent b.in_bits
    then (let sent = i2c_input (truth (i2c_get_bit b.in_buf b.in_bits_sent)) b in
        if leb b.in_bits (b.in_bits_sent + 1)
        then record sent { in_bits_sent = 0; in_bits = 0 }
        else record sent { in_bits_sent = b.in_bits_sent + 1 })
    else b

-- `xicor_sim_frame`, and with it `i2c_sim_frame`.
unfoldable pub xicor_sim_frame : Bool → ℕ → Bus → Bus
unfolding latch dispatch send_response
xicor_sim_frame value flags b =
    if has flags i2c_stop
    then b
    else if has flags i2c_start
    then record b { out_bits = 0; in_bits = 0; in_bits_sent = 0 }
    else if has flags i2c_data_output && has flags i2c_clock_0_1
    then latch value b
    else if has flags i2c_data_input && has flags i2c_clock_1_0
    then send_response b
    else b

-- `i2c_sim` up to its last two assignments: start, stop and the clock edges.
unfoldable pub i2c_events : Bool → Bool → ℕ → Bus → Bus
unfolding xicor_sim_frame
i2c_events clock value flags b =
    if b.clock_last && clock
    then (if b.data_last && not value
        then xicor_sim_frame value i2c_start (record b { inside_frame = true })
        else if not b.data_last && value
        then xicor_sim_frame value i2c_stop (record b { inside_frame = false })
        else b)
    else if not b.inside_frame
    then b
    else if not b.clock_last && clock
    then xicor_sim_frame value (bit_or flags i2c_clock_0_1) b
    else if b.clock_last && not clock
    then xicor_sim_frame value (bit_or flags i2c_clock_1_0) b
    else b

unfoldable pub i2c_sim : Bool → Bool → ℕ → Bus → Bus
unfolding i2c_events
i2c_sim clock value flags b = record (i2c_events clock value flags b) {
  clock_last = clock;
  data_last = value;
}
