-- ===== src/I2c/Wiper.antt =====
-- The X9241 behind the bus: a wiper that a master writes, and reads back.
use sim68xx.Common.{
  ℕ, ◌+◌, ◌*◌, ◌/◌, ◌^◌, ◌<◌, bit_and, Bool, true, false, ◌==◌, if◌then◌else◌, ◌∷◌, ◌≡◌, refl, ap,
  ◌∙◌, arith,
}
use sim68xx.Common.Bits.{bit_and-mask}
use sim68xx.Machine.{update}
use sim68xx.Machine.Reg.{Flag, flag_of}
use sim68xx.I2c.{
  Bus, ack_input, dispatch, read_write, x9241_read_write, x9241_address, x9241_command, x9241_data,
  add_ack, acked,
}
use sim68xx.I2c.Edges.{start, settled, start_lem}
use sim68xx.I2c.Bytes.{at, send_byte, send_byte_lem}

-- The first two bytes of a command.
abbrev pub address_byte : ℕ → ℕ
address_byte inst = 0x50 + inst

abbrev pub command_byte : ℕ → ℕ → ℕ → ℕ
command_byte cmd pot reg = cmd * 16 + pot * 4 + reg

module _ (last : Bool) (b : Bus) where
  dispatch_address :
      (inst : ℕ)
      → b.ack_type ≡ ack_input
      → inst < 16
      → dispatch (at 0 8 (address_byte inst) last b)
        ≡ record (at 0 8 (address_byte inst) last b) { device_type = 5; driven = 0 ∷ b.driven }
  unfolding dispatch read_write x9241_read_write x9241_address add_ack acked
  dispatch_address inst ack small =
      let device : (0x50 + inst) / 2 ^ 4 ≡ 5 = omega arith in rw device (rw ack refl)

  dispatch_write :
      (pot reg : ℕ)
      → b.ack_type ≡ ack_input
      → b.device_type ≡ 5
      → pot < 4
      → reg < 4
      → dispatch (at 1 8 (command_byte 10 pot reg) last b)
        ≡ record (at 1 8 (command_byte 10 pot reg) last b) { driven = 0 ∷ b.driven }
  unfolding dispatch read_write x9241_read_write x9241_command add_ack acked
  dispatch_write pot reg ack device hp hr =
      let cmd : (10 * 16 + pot * 4 + reg) / 2 ^ 4 ≡ 10 = omega arith in
      rw device (rw cmd (rw ack refl))

  dispatch_data :
      (value inst pot : ℕ)
      → b.ack_type ≡ ack_input
      → b.device_type ≡ 5
      → b.out_buf 1 / 2 ^ 4 ≡ 10
      → bit_and (b.out_buf 0) 0x0f ≡ inst
      → bit_and (b.out_buf 1 / 2 ^ 2) 3 ≡ pot
      → dispatch (at 2 8 value last b) ≡ record (at 2 8 value last b) {
        driven = 0 ∷ b.driven;
        wiper = λ i. if i == inst then update (b.wiper i) pot value else b.wiper i;
      }
  unfolding dispatch read_write x9241_read_write x9241_data add_ack acked
  dispatch_data value inst pot ack device cmd at_inst at_pot =
      rw device (rw cmd (rw ack (rw at_inst (rw at_pot refl))))

-- An idle bus whose buffers hold bytes.
pub record IsIdle (b : Bus) : Type 0 where
  pub outside_frame : b.inside_frame ≡ false
  pub out_bytes : (i : ℕ) → b.out_buf i < 256
  pub in_bytes : (i : ℕ) → b.in_buf i < 256

-- The frame that a start condition begins.
abbrev pub begun : Bus → Bus
begun b = record b {
  inside_frame = true;
  clock_last = false;
  data_last = false;
  out_bits = 0;
  in_bits = 0;
  in_bits_sent = 0;
}

-- After the address, and after the command.
abbrev pub addressed : ℕ → Bus → Bus
addressed inst b =
    let last = flag_of Flag.c (address_byte inst) in
    record (at 0 8 (address_byte inst) last (begun b)) { device_type = 5; driven = 0 ∷ b.driven }

abbrev pub commanded : ℕ → ℕ → ℕ → Bus → Bus
commanded inst pot reg b =
    let command = command_byte 10 pot reg in
    record (at 1 8 command (flag_of Flag.c command) (addressed inst b)) {
      driven = 0 ∷ 0 ∷ b.driven;
    }

pub address_lem :
    (inst : ℕ) (b : Bus)
    → IsIdle b
    → b.ack_type ≡ ack_input
    → inst < 16
    → send_byte (address_byte inst) (start b) ≡ addressed inst b
address_lem inst b idle ack small =
    let last = flag_of Flag.c (address_byte inst) in
    ap (send_byte (address_byte inst)) (start_lem b idle.outside_frame)
    ∙ send_byte_lem 0 (address_byte inst) (begun b) (omega arith) (omega arith) (idle.out_bytes 0)
        (refl, refl) refl
    ∙ ap (settled false last) (dispatch_address last (begun b) inst ack small)

pub command_lem :
    (inst pot reg : ℕ) (b : Bus)
    → IsIdle b
    → b.ack_type ≡ ack_input
    → pot < 4
    → reg < 4
    → send_byte (command_byte 10 pot reg) (addressed inst b) ≡ commanded inst pot reg b
command_lem inst pot reg b idle ack hp hr =
    let command = command_byte 10 pot reg in
    let last = flag_of Flag.c command in
    send_byte_lem 1 command (addressed inst b) (omega arith) (omega arith) (idle.out_bytes 1)
      (refl, refl) refl
    ∙ ap (settled false last) (dispatch_write last (addressed inst b) pot reg ack refl hp hr)

-- After the value.
abbrev pub written : ℕ → ℕ → ℕ → ℕ → Bus → Bus
written inst pot reg value b =
    record (at 2 8 value (flag_of Flag.c value) (commanded inst pot reg b)) {
      driven = 0 ∷ 0 ∷ 0 ∷ b.driven;
      wiper = λ i. if i == inst then update (b.wiper i) pot value else b.wiper i;
    }

pub data_lem :
    (inst pot reg value : ℕ) (b : Bus)
    → IsIdle b
    → b.ack_type ≡ ack_input
    → inst < 16
    → pot < 4
    → reg < 4
    → value < 256
    → send_byte value (commanded inst pot reg b) ≡ written inst pot reg value b
data_lem inst pot reg value b idle ack hi hp hr hv =
    let last = flag_of Flag.c value in
    send_byte_lem 2 value (commanded inst pot reg b) (omega arith) hv (idle.out_bytes 2)
      (refl, refl) refl
    ∙ ap (settled false last) (
        dispatch_data last (commanded inst pot reg b) value inst pot ack refl (omega arith)
          (omega (arith, bit_and-mask 4 (address_byte inst)))
          (omega (arith, bit_and-mask 2 (command_byte 10 pot reg / 2 ^ 2))))
