-- ===== src/I2c/Reading.antt =====
-- A wiper read back over the bus.
use sim68xx.Common.{
  ℕ, ◌+◌, ◌/◌, ◌^◌, ◌<◌, bit_and, true, false, ltb, leb, ◌==◌, List, [], ◌∷◌, ◌++◌, ◌≡◌, refl, sym,
  ap, ◌∙◌, arith,
}
use sim68xx.Common.Bits.{bit_and-mask}
use sim68xx.Machine.Reg.{Flag, truth, flag_of, with_flag}
use sim68xx.I2c.{
  ack_input, Bus, dispatch, read_write, x9241_read_write, x9241_command, add_ack, acked, respond,
  add_byte, add_bits, set_bit, i2c_get_bit, send_response,
}
use sim68xx.I2c.Bits.{stored_up, stored_up-eq}
use sim68xx.I2c.Edges.{start, settled, clock_in, clock_in_lem}
use sim68xx.I2c.Bytes.{at, send_byte, send_byte_lem}
use sim68xx.I2c.Wiper.{address_byte, command_byte, IsIdle, addressed, address_lem}
use sim68xx.I2c.Writing.{write_command, write_command_lem}

-- The bits of a byte as they are driven, the first one last in the list.
abbrev pub driven_bits : ℕ → List ℕ
driven_bits x =
    truth (flag_of Flag.c x)
    ∷ truth (flag_of Flag.v x)
    ∷ truth (flag_of Flag.z x)
    ∷ truth (flag_of Flag.n x)
    ∷ truth (flag_of Flag.i x)
    ∷ truth (flag_of Flag.h x)
    ∷ truth (flag_of Flag.x x)
    ∷ truth (flag_of Flag.s x)
    ∷ []

-- Eight clocks with the data pin as an input.
abbrev pub receive_byte : Bus → Bus
receive_byte b =
    let clock = clock_in false in clock (clock (clock (clock (clock (clock (clock (clock b)))))))

abbrev responding : ℕ → List ℕ → Bus → Bus
responding j ds b = record b {
  inside_frame = true;
  clock_last = false;
  data_last = false;
  in_bits = 8;
  in_bits_sent = j;
  driven = ds;
}

receive_bit :
    (j : ℕ) (ds : List ℕ) (b : Bus)
    → j < 7
    → clock_in false (responding j ds b)
      ≡ responding (j + 1) (truth (i2c_get_bit b.in_buf j) ∷ ds) b
unfolding send_response
receive_bit j ds b more =
    let some_left : ltb j 8 ≡ true = ground arith in
    let not_last : leb 8 (j + 1) ≡ false = ground arith in
    let high = settled true false (responding j ds b) in
    let sent : send_response high
        ≡ settled true false (responding (j + 1) (truth (i2c_get_bit b.in_buf j) ∷ ds) b) =
      rw some_left (rw not_last refl) in
    clock_in_lem false (responding j ds b) (refl, refl) ∙ ap (settled false false) sent

receive_last_bit :
    (ds : List ℕ) (b : Bus)
    → clock_in false (responding 7 ds b)
      ≡ record (responding 0 (truth (i2c_get_bit b.in_buf 7) ∷ ds) b) { in_bits = 0 }
unfolding send_response
receive_last_bit ds b =
    let high = settled true false (responding 7 ds b) in
    let low = record (responding 0 (truth (i2c_get_bit b.in_buf 7) ∷ ds) b) { in_bits = 0 } in
    let sent : send_response high ≡ settled true false low = refl in
    clock_in_lem false (responding 7 ds b) (refl, refl) ∙ ap (settled false false) sent

get_bits :
    (buf : ℕ → ℕ) (x : ℕ)
    → buf 0 ≡ x
    → (i2c_get_bit buf 0 ≡ flag_of Flag.s x)
      × (i2c_get_bit buf 1 ≡ flag_of Flag.x x)
      × (i2c_get_bit buf 2 ≡ flag_of Flag.h x)
      × (i2c_get_bit buf 3 ≡ flag_of Flag.i x)
      × (i2c_get_bit buf 4 ≡ flag_of Flag.n x)
      × (i2c_get_bit buf 5 ≡ flag_of Flag.z x)
      × (i2c_get_bit buf 6 ≡ flag_of Flag.v x)
      × (i2c_get_bit buf 7 ≡ flag_of Flag.c x)
unfolding i2c_get_bit flag_of
get_bits buf x e = rw e (refl, refl, refl, refl, refl, refl, refl, refl)

-- Eight clocks drive the first byte of the response, from its highest bit on.
receive_byte_lem :
    (ds : List ℕ) (x : ℕ) (b : Bus)
    → b.in_buf 0 ≡ x
    → (receive_byte (responding 0 ds b)).driven ≡ driven_bits x ++ ds
receive_byte_lem ds x b e =
    let bit = λ (j : ℕ). truth (i2c_get_bit b.in_buf j) in
    let c = clock_in false in
    let d1 = bit 0 ∷ ds in
    let d2 = bit 1 ∷ d1 in
    let d3 = bit 2 ∷ d2 in
    let d4 = bit 3 ∷ d3 in
    let d5 = bit 4 ∷ d4 in
    let d6 = bit 5 ∷ d5 in
    let d7 = bit 6 ∷ d6 in
    let (g0, g1, g2, g3, g4, g5, g6, g7) = get_bits b.in_buf x e in
    let run : receive_byte (responding 0 ds b)
        ≡ record (responding 0 (bit 7 ∷ d7) b) { in_bits = 0 } =
      ap (λ (y : Bus). c (c (c (c (c (c (c y))))))) (receive_bit 0 ds b (omega arith))
      ∙ ap (λ (y : Bus). c (c (c (c (c (c y)))))) (receive_bit 1 d1 b (omega arith))
      ∙ ap (λ (y : Bus). c (c (c (c (c y))))) (receive_bit 2 d2 b (omega arith))
      ∙ ap (λ (y : Bus). c (c (c (c y)))) (receive_bit 3 d3 b (omega arith))
      ∙ ap (λ (y : Bus). c (c (c y))) (receive_bit 4 d4 b (omega arith))
      ∙ ap (λ (y : Bus). c (c y)) (receive_bit 5 d5 b (omega arith))
      ∙ ap c (receive_bit 6 d6 b (omega arith))
      ∙ receive_last_bit d7 b in
    ap (λ (y : Bus). y.driven) run ∙ rw (g0, g1, g2, g3) (rw (g4, g5, g6, g7) refl)

-- The byte of a response that starts the buffer.
added_byte :
    (value : ℕ) (buf : ℕ → ℕ)
    → ((add_byte value (buf, 0)).0 0 ≡ stored_up value (buf 0)) × ((add_byte value (buf, 0)).1 ≡ 8)
unfolding add_byte add_bits set_bit flag_of with_flag
added_byte value buf = (refl, refl)

-- After the command to read a wiper.
abbrev asked : ℕ → ℕ → ℕ → Bus → Bus
asked inst pot reg b =
    let command = command_byte 9 pot reg in
    let buf = (add_byte (b.wiper inst pot) (b.in_buf, 0)).0 in
    record (at 1 8 command (flag_of Flag.c command) (addressed inst b)) {
      clock_last = false;
      driven = 0 ∷ 0 ∷ b.driven;
      in_buf = buf;
      in_bits = 8;
    }

ask_lem :
    (inst pot reg : ℕ) (b : Bus)
    → IsIdle b
    → b.ack_type ≡ ack_input
    → inst < 16
    → pot < 4
    → reg < 4
    → send_byte (command_byte 9 pot reg) (addressed inst b) ≡ asked inst pot reg b
unfolding dispatch read_write x9241_read_write x9241_command add_ack acked respond
ask_lem inst pot reg b idle ack hi hp hr =
    let command = command_byte 9 pot reg in
    let last = flag_of Flag.c command in
    let cmd : command / 2 ^ 4 ≡ 9 = omega arith in
    let at_inst : bit_and (address_byte inst) 0x0f ≡ inst =
      omega (arith, bit_and-mask 4 (address_byte inst)) in
    let at_pot : bit_and (command / 2 ^ 2) 3 ≡ pot =
      omega (arith, bit_and-mask 2 (command / 2 ^ 2)) in
    let answered : dispatch (at 1 8 command last (addressed inst b)) ≡ asked inst pot reg b =
      rw cmd
        (rw ack (rw at_inst (rw at_pot (rw (added_byte (b.wiper inst pot) b.in_buf).1 refl)))) in
    send_byte_lem 1 command (addressed inst b) (omega arith) (omega arith) (idle.out_bytes 1)
      (refl, refl) refl
    ∙ ap (settled false last) answered

-- The bus after a command that reads a wiper and the eight clocks for its byte.
abbrev pub read_command : ℕ → ℕ → ℕ → Bus → Bus
read_command inst pot reg b =
    receive_byte (send_byte (command_byte 9 pot reg) (send_byte (address_byte inst) (start b)))

-- A read command to an X9241 on an idle bus in the mode ACK_INPUT, whose wiper holds a byte, is acknowledged twice, and then
-- the bits of the wiper are driven, from the highest on.
pub read_command_lem :
    (inst pot reg : ℕ) (b : Bus)
    → IsIdle b
    → b.ack_type ≡ ack_input
    → inst < 16
    → pot < 4
    → reg < 4
    → b.wiper inst pot < 256
    → (read_command inst pot reg b).driven ≡ driven_bits (b.wiper inst pot) ++ (0 ∷ 0 ∷ b.driven)
read_command_lem inst pot reg b idle ack hi hp hr byte =
    let value = b.wiper inst pot in
    let a = asked inst pot reg b in
    let first : a.in_buf 0 ≡ value =
      (added_byte value b.in_buf).0 ∙ stored_up-eq value (b.in_buf 0) byte (idle.in_bytes 0) in
    let c = clock_in false in
    let seven = λ (x : Bus). c (c (c (c (c (c (c x)))))) in
    let low = settled false false a in
    let same : c a ≡ c low =
      clock_in_lem false a (refl, refl) ∙ sym (clock_in_lem false low (refl, refl)) in
    ap (λ (x : Bus). (receive_byte (send_byte (command_byte 9 pot reg) x)).driven)
      (address_lem inst b idle ack hi)
    ∙ ap (λ (x : Bus). (receive_byte x).driven) (ask_lem inst pot reg b idle ack hi hp hr)
    ∙ ap (λ (x : Bus). (seven x).driven) same
    ∙ receive_byte_lem (0 ∷ 0 ∷ b.driven) value a first

-- On an idle bus in the mode ACK_INPUT, which drives each acknowledge at once, and with bytes in the
-- buffers, the byte that a master writes to the wiper of an X9241 is driven back, from its highest bit
-- on, when it reads the wiper, behind five acknowledges. (The mode ACK_CLOCK is not covered.)
pub read_command-write_command :
    (inst pot reg reg' value : ℕ) (b : Bus)
    → IsIdle b
    → b.ack_type ≡ ack_input
    → inst < 16
    → pot < 4
    → reg < 4
    → reg' < 4
    → value < 256
    → (read_command inst pot reg' (write_command inst pot reg value b)).driven
      ≡ driven_bits value ++ (0 ∷ 0 ∷ 0 ∷ 0 ∷ 0 ∷ b.driven)
read_command-write_command inst pot reg reg' value b idle ack hi hp hr hr' hv =
    let b' = write_command inst pot reg value b in
    let (wipers, driven, idle', ack') =
      write_command_lem inst pot reg value b idle ack hi hp hr hv in
    let own : inst == inst ≡ true = ground arith in
    let own_pot : pot == pot ≡ true = ground arith in
    let wiper : b'.wiper inst pot ≡ value =
      ap (λ (f : ℕ → ℕ → ℕ). f inst pot) wipers ∙ rw own (rw own_pot refl) in
    read_command_lem inst pot reg' b' idle' ack' hi hp hr' (rw wiper hv) ∙ rw (wiper, driven) refl
