-- ===== src/I2c/Others.antt =====
-- Frames for devices that are not simulated.
use sim68xx.Common.{
  ◌||◌, ℕ, ◌+◌, ◌/◌, ◌^◌, ◌≤◌, ◌<◌, Bool, true, false, leb, ◌==◌, List, [], ◌∷◌, u8, u32, ◌≡◌, ◌≢◌,
  refl, sym, ap, ◌∙◌, arith,
}
use sim68xx.Common.Lists.{length}
use sim68xx.Machine.Reg.{flag_of, Flag}
use sim68xx.I2c.{Bus, latch, dispatch, read_write, i2c_set_bit, outside}
use sim68xx.I2c.Edges.{start, clock_out, clock_out_lem, settled, start_lem}
use mathlib.Core.Path.{subst}
use sim68xx.I2c.Wiper.{begun}
use sim68xx.I2c.Bytes.{at, send_bits, send_byte, send_byte_lem}

-- The frame of another device: the bus is as `b` where the master can see it.
record IsOther (b : Bus) (wiper : ℕ → ℕ → ℕ) (driven : List ℕ) (undefined : Bool) : Type 0 where
  pub low : b.clock_last ≡ false
  pub inside : b.inside_frame ≡ true
  pub routed : 8 ≤ b.out_bits
  pub device : b.device_type ≢ 5
  pub wipers : b.wiper ≡ wiper
  pub bits : b.driven ≡ driven
  pub sound : b.undefined ≡ undefined

read_write_other : (device bits : ℕ) (b : Bus) → device ≢ 5 → read_write device bits b ≡ b
unfolding read_write
read_write_other device bits b other = let e : device == 5 ≡ false = ground arith in rw e refl

dispatch_other : (b : Bus) → 8 < b.out_bits → b.device_type ≢ 5 → dispatch b ≡ b
unfolding dispatch
dispatch_other b many other =
    let later : b.out_bits == 8 ≡ false = ground arith in
    let routed : leb 8 b.out_bits ≡ true = ground arith in
    rw later (rw routed (read_write_other b.device_type (u8 b.out_bits) b other))

clock_out-IsOther :
    (value : Bool) (b : Bus) (wiper : ℕ → ℕ → ℕ) (driven : List ℕ) (u : Bool)
    → IsOther b wiper driven u
    → b.out_bits < 2048
    → IsOther (clock_out value b) wiper driven u × ((clock_out value b).out_bits ≡ b.out_bits + 1)
unfolding latch
clock_out-IsOther value b wiper driven u o fits =
    let count : u32 (b.out_bits + 1) ≡ b.out_bits + 1 = omega arith in
    let inside : outside b.out_bits ≡ false = ground arith in
    let b1 = settled false value b in
    let r = record b1 {
      out_buf = i2c_set_bit b.out_buf b.out_bits value;
      out_bits = u32 (b.out_bits + 1);
      undefined = outside b.out_bits || b.undefined;
    } in
    let more : 8 < u32 (b.out_bits + 1) = omega (arith, o.routed) in
    let done : clock_out value b ≡ settled false value r =
      clock_out_lem value b (o.inside, o.low)
      ∙ ap (settled false value) (dispatch_other r more o.device) in
    let kept : IsOther (settled false value r) wiper driven u = record {
      low = refl;
      inside = o.inside;
      routed = omega arith;
      device = o.device;
      wipers = o.wipers;
      bits = o.bits;
      sound = rw inside o.sound;
    } in
    subst (λ (x : Bus). IsOther x wiper driven u × (x.out_bits ≡ b.out_bits + 1)) (sym done)
      (kept, count)

send_bits-IsOther :
    (ds : List Bool) (b : Bus) (wiper : ℕ → ℕ → ℕ) (driven : List ℕ) (u : Bool)
    → IsOther b wiper driven u
    → b.out_bits + length ds ≤ 2048
    → IsOther (send_bits ds b) wiper driven u
send_bits-IsOther [] b wiper driven u o fits = o
send_bits-IsOther (d ∷ ds) b wiper driven u o fits =
    let (o', count) = clock_out-IsOther d b wiper driven u o (omega arith) in
    send_bits-IsOther ds (clock_out d b) wiper driven u o' (omega arith)

-- A frame on an idle bus whose first byte names a device other than 5, with at most 2040 bits behind
-- it, so that the frame fits the 2048 bits of the buffer, changes no wiper and drives nothing, no
-- acknowledge and no response. Every bit is stored within the buffer.
pub send_bits_other :
    (address : ℕ) (ds : List Bool) (b : Bus)
    → b.inside_frame ≡ false
    → b.out_buf 0 < 256
    → address < 256
    → address / 16 ≢ 5
    → length ds ≤ 2040
    → let b' = send_bits ds (send_byte address (start b)) in
      (b'.wiper ≡ b.wiper) × (b'.driven ≡ b.driven) × (b'.undefined ≡ b.undefined)
unfolding dispatch
send_bits_other address ds b idle byte small other few =
    let last = flag_of Flag.c address in
    let named = record (at 0 8 address last (begun b)) { device_type = address / 2 ^ 4 } in
    let started : send_byte address (start b) ≡ settled false last named =
      ap (send_byte address) (start_lem b idle)
      ∙ send_byte_lem 0 address (begun b) (omega arith) small byte (refl, refl) refl
      ∙ ap (settled false last) (read_write_other (address / 2 ^ 4) 8 named other) in
    let first : IsOther (settled false last named) b.wiper b.driven b.undefined = record {
      low = refl;
      inside = refl;
      routed = omega arith;
      device = other;
      wipers = refl;
      bits = refl;
      sound = refl;
    } in
    let kept =
      send_bits-IsOther ds (settled false last named) b.wiper b.driven b.undefined first
        (omega arith) in
    let same = ap (send_bits ds) started in
    (
      ap (λ (x : Bus). x.wiper) same ∙ kept.wipers,
      ap (λ (x : Bus). x.driven) same ∙ kept.bits,
      ap (λ (x : Bus). x.undefined) same ∙ kept.sound,
    )
