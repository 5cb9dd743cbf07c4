-- ===== src/Tests/Bus.antt =====
-- The I2C bus at concrete commands.
use sim68xx.Common.{◌==◌, if◌then◌else◌, true, false, ◌≡◌, refl, arith, [], ◌∷◌}
use sim68xx.Machine.{update}
use sim68xx.I2c.{Bus, ack_input}
use sim68xx.Machine.Reg.{flag_of}
use sim68xx.I2c.Edges.{start}
use sim68xx.I2c.Bytes.{send_bits, send_byte}
use sim68xx.I2c.Wiper.{IsIdle}
use sim68xx.I2c.Writing.{write_command, write_command_lem}
use sim68xx.I2c.Reading.{read_command, read_command-write_command}
use sim68xx.I2c.Others.{send_bits_other}

-- The statics at start, with a wiper turned.
abbrev bus : Bus
bus = record {
  inside_frame = false;
  clock_last = false;
  data_last = false;
  out_buf = λ i. 0;
  out_bits = 0;
  in_buf = λ i. 0;
  in_bits = 0;
  in_bits_sent = 0;
  device_type = 0;
  wiper = λ i p. 77;
  ack_type = ack_input;
  driven = [];
  undefined = false;
}

bus-IsIdle : IsIdle bus
bus-IsIdle = record {
  outside_frame = refl;
  out_bytes = λ i. omega arith;
  in_bytes = λ i. omega arith;
}

write_command_lem_example :
    let b' = write_command 3 2 1 0xa7 bus in
    (b'.wiper ≡ (λ i. if i == 3 then update (bus.wiper i) 2 0xa7 else bus.wiper i))
    × (b'.driven ≡ 0 ∷ 0 ∷ 0 ∷ [])
    × IsIdle b'
    × (b'.ack_type ≡ ack_input)
write_command_lem_example =
    write_command_lem 3 2 1 0xa7 bus bus-IsIdle refl (omega arith) (omega arith) (omega arith)
      (omega arith)

read_command-write_command_example :
    (read_command 3 2 0 (write_command 3 2 1 0xa7 bus)).driven
    ≡ 1 ∷ 1 ∷ 1 ∷ 0 ∷ 0 ∷ 1 ∷ 0 ∷ 1 ∷ 0 ∷ 0 ∷ 0 ∷ 0 ∷ 0 ∷ []
unfolding flag_of
read_command-write_command_example =
    read_command-write_command 3 2 1 0 0xa7 bus bus-IsIdle refl (omega arith) (omega arith)
      (omega arith) (omega arith) (omega arith)

send_bits_other_example :
    let b' = send_bits (true ∷ false ∷ true ∷ []) (send_byte 0x31 (start bus)) in
    (b'.wiper ≡ bus.wiper) × (b'.driven ≡ []) × (b'.undefined ≡ false)
send_bits_other_example =
    send_bits_other 0x31 (true ∷ false ∷ true ∷ []) bus refl (omega arith) (omega arith)
      (λ e. absurd (omega arith)) (omega arith)
