-- ===== src/M6811/Fifo.antt =====
-- The bytes that are to be clocked in over the serial peripheral interface are a queue.
use sim68xx.Common.{
  ℕ, suc, ◌+◌, ◌-◌, ◌≤◌, ◌≡◌, refl, arith, Bool, ◌||◌, Bool-cases, inl, inr, ltb, ◌==◌, u8, bit_and,
  List, [], ◌∷◌, ap, sym, ◌∙◌,
}
use sim68xx.Common.Lists.{length, take}
use sim68xx.Machine.{Machine}
use sim68xx.H6303.Sci.{bufsize}
use sim68xx.H6303.Fifo.{queued, queued-update, append, append_assoc, append-[], bytes}
use sim68xx.M6811.Registers.{spif, spsr}
use sim68xx.M6811.Spi.{store, spi_in}

-- The bytes that were given and not clocked in yet, the oldest first.
abbrev pub clocked : Machine → List ℕ
clocked m = queued m.spi.spi_rx_buf m.spi.spi_rx_index (m.spi.spi_rx_nbytes - m.spi.spi_rx_index)

store-clocked :
    (value : ℕ) (m : Machine)
    → m.spi.spi_rx_index ≤ m.spi.spi_rx_nbytes
    → clocked (store value m) ≡ append (clocked m) (u8 value ∷ [])
store-clocked value m h =
    let i = m.spi.spi_rx_index in
    let n = m.spi.spi_rx_nbytes in
    ap (queued (store value m).spi.spi_rx_buf i) {y = suc (n - i)} (omega arith)
    ∙ queued-update m.spi.spi_rx_buf i (n - i) n (u8 value) (omega arith)

-- `spi_in` appends the bytes that find room behind the queue, in order, and returns how many; it
-- changes nothing but the state of the interface.
pub spi_in_refines :
    (s : List ℕ) (m : Machine)
    → m.spi.spi_rx_index ≤ m.spi.spi_rx_nbytes
    → let room = bufsize - m.spi.spi_rx_nbytes in
      let (n, m') = spi_in s m in
      (n ≡ length (take room s))
      × (clocked m' ≡ append (clocked m) (bytes (take room s)))
      × (m' ≡ record m { spi = m'.spi })
unfolding spi_in
spi_in_refines [] m h = (refl, sym (append-[] (clocked m)), refl)
spi_in_refines (value ∷ s) m h = elim (Bool-cases (ltb m.spi.spi_rx_nbytes bufsize)) [
  | inl e ↦
      let room = bufsize - (m.spi.spi_rx_nbytes + 1) in
      let step : bufsize - m.spi.spi_rx_nbytes ≡ suc room = ground arith in
      let (taken, queue, rest) = spi_in_refines s (store value m) (omega arith) in
      rw e (
        rw step (
          ap suc taken,
          queue
              ∙ ap (λ q. append q (bytes (take room s))) (store-clocked value m h)
              ∙ append_assoc (clocked m) (u8 value ∷ []) (bytes (take room s)),
          rest,
        ))
  | inr e ↦
      let full : bufsize - m.spi.spi_rx_nbytes ≡ 0 = ground arith in
      rw e (rw full (refl, sym (append-[] (clocked m)), refl))
]

-- A write to SPDR starts a transfer: SPSR was read, or no transfer is complete.
abbrev pub transfers : Machine → Bool
transfers m = m.spi.spsr_is_read || bit_and (m.iram spsr) spif == 0
