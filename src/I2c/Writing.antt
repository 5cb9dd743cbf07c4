-- ===== src/I2c/Writing.antt =====
-- A command that writes a wiper.
use sim68xx.Common.{
  ℕ, ◌-◌, ◌%◌, ◌^◌, ◌<◌, true, false, ◌==◌, if◌then◌else◌, ◌∷◌, ◌≡◌, refl, ap, ◌∙◌, arith,
}
use sim68xx.Common.Bits.{bit_and-le}
use sim68xx.Machine.{update}
use sim68xx.I2c.{ack_input, i2c_set_bit, Bus, latch}
use sim68xx.I2c.Edges.{start, stop, settled, stop_lem}
use sim68xx.I2c.Bytes.{send_byte, dispatch_quiet}
use sim68xx.I2c.Wiper.{
  address_byte, command_byte, IsIdle, written, address_lem, command_lem, data_lem,
}

-- The bus after a command that writes a wiper.
abbrev pub write_command : ℕ → ℕ → ℕ → ℕ → Bus → Bus
write_command inst pot reg value b = stop (
    send_byte value (send_byte (command_byte 10 pot reg) (send_byte (address_byte inst) (start b))))

write_command_end :
    (inst pot reg value : ℕ) (b : Bus)
    → IsIdle b
    → b.ack_type ≡ ack_input
    → inst < 16
    → pot < 4
    → reg < 4
    → value < 256
    → let w = settled false false (written inst pot reg value b) in
      write_command inst pot reg value b ≡ record w {
        out_buf = i2c_set_bit w.out_buf 24 false;
        out_bits = 25;
        inside_frame = false;
        clock_last = true;
        data_last = true;
      }
unfolding latch
write_command_end inst pot reg value b idle ack hi hp hr hv =
    let w = settled false false (written inst pot reg value b) in
    let stored = record w { out_buf = i2c_set_bit w.out_buf 24 false; out_bits = 25 } in
    let latched : latch false w ≡ stored =
      dispatch_quiet stored (omega arith) (λ e. absurd (omega arith)) (λ e. absurd (omega arith))
        (λ e. absurd (omega arith)) in
    ap (λ (x : Bus). stop (send_byte value (send_byte (command_byte 10 pot reg) x)))
      (address_lem inst b idle ack hi)
    ∙ ap (λ (x : Bus). stop (send_byte value x)) (command_lem inst pot reg b idle ack hp hr)
    ∙ ap stop (data_lem inst pot reg value b idle ack hi hp hr hv)
    ∙ stop_lem (written inst pot reg value b) (refl, refl)
    ∙ ap (λ (x : Bus). record x { inside_frame = false; clock_last = true; data_last = true })
        latched

set_bit_bytes : (buf : ℕ → ℕ) → ((i : ℕ) → buf i < 256) → (i : ℕ) → i2c_set_bit buf 24 false i < 256
unfolding i2c_set_bit
set_bit_bytes buf bytes i =
    ground (arith, bytes i, bytes 3, bit_and-le (buf 3) (buf 3) (0xff - 2 ^ (7 - 24 % 8)))

-- In the mode ACK_INPUT, which drives each acknowledge at once, and with bytes in the buffers, a write
-- command to an X9241 on an idle bus sets the wiper of one potmeter to the value and no
-- other, is acknowledged three times, and leaves the bus idle.
pub write_command_lem :
    (inst pot reg value : ℕ) (b : Bus)
    → IsIdle b
    → b.ack_type ≡ ack_input
    → inst < 16
    → pot < 4
    → reg < 4
    → value < 256
    → let b' = write_command inst pot reg value b in
      (b'.wiper ≡ (λ i. if i == inst then update (b.wiper i) pot value else b.wiper i))
      × (b'.driven ≡ 0 ∷ 0 ∷ 0 ∷ b.driven)
      × IsIdle b'
      × (b'.ack_type ≡ ack_input)
write_command_lem inst pot reg value b idle ack hi hp hr hv =
    let e = write_command_end inst pot reg value b idle ack hi hp hr hv in
    let command = command_byte 10 pot reg in
    let buf = update (update (update b.out_buf 0 (address_byte inst)) 1 command) 2 value in
    let bytes : (i : ℕ) → buf i < 256 = λ i. ground (arith, idle.out_bytes i) in
    rw e (
      refl,
      refl,
      record {
        outside_frame = refl;
        out_bytes = set_bit_bytes buf bytes;
        in_bytes = idle.in_bytes;
      },
      ack,
    )
