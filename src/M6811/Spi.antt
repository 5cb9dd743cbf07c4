-- ===== src/M6811/Spi.antt =====
-- src/arch/m6811/spi.c: the serial peripheral interface and the bytes that are to be clocked in.
use sim68xx.Common.{ℕ, suc, ◌+◌, bit_and, true, false, ◌==◌, ltb, if◌then◌else◌, u8, List, [], ◌∷◌}
use sim68xx.Machine.{◌>>=◌, ◌>>◌, Machine, Spi, M, gets, modify, when, update}
use sim68xx.Machine.Reg.{nonzero}
use sim68xx.Memory.{ireg_getb, ireg_putb}
use sim68xx.H6303.Sci.{bufsize}
use sim68xx.M6811.Registers.{spcr, spdr, spie, spif, spsr}

abbrev pub on_spi : (Spi → Spi) → M (Unit {0})
on_spi f = modify (λ m. record m { spi = f m.spi })

-- `spi_rx_buf[spi_rx_nbytes++] = value`.
abbrev pub store : ℕ → Machine → Machine
store value m = record m {
  spi = record m.spi {
    spi_rx_buf = update m.spi.spi_rx_buf m.spi.spi_rx_nbytes (u8 value);
    spi_rx_nbytes = m.spi.spi_rx_nbytes + 1;
  };
}

-- The loop of `spi_in` over the bytes that are left; the result is how many were taken.
unfoldable pub spi_in : List ℕ → M ℕ
spi_in [] m = (0, m)
spi_in (value ∷ buf) m =
    let rest = spi_in buf (store value m) in
    if ltb m.spi.spi_rx_nbytes bufsize then (suc rest.0, rest.1) else (0, m)

unfoldable pub spsr_getb : ℕ → M ℕ
spsr_getb offs = do on_spi (λ s. record s { spsr_is_read = true }); ireg_getb spsr

-- What both handlers of SPDR begin with: SPIF is cleared if SPSR was read.
unfoldable pub clear_spif : M (Unit {0})
clear_spif = do
  is_read ← gets (λ m. m.spi.spsr_is_read)
  when is_read (do ireg_putb spsr 0; on_spi (λ s. record s { spi_interrupt = false }))

unfoldable pub spdr_getb : ℕ → M ℕ
spdr_getb offs = do clear_spif; ireg_getb spdr

-- `if (spi_rx_index != spi_rx_nbytes) ireg_putb (SPDR, spi_rx_buf[spi_rx_index++]);`
abbrev pub clock_in : Machine → Machine
clock_in m = if m.spi.spi_rx_index == m.spi.spi_rx_nbytes then m else record m {
  iram = update m.iram spdr (u8 (m.spi.spi_rx_buf m.spi.spi_rx_index));
  undefined = if ltb m.spi.spi_rx_index bufsize then m.undefined else true;
  spi = record m.spi { spi_rx_index = m.spi.spi_rx_index + 1 };
}

-- `if (spi_rx_index == spi_rx_nbytes) spi_rx_index = spi_rx_nbytes = 0;`
abbrev pub rewind : Machine → Machine
rewind m =
    if m.spi.spi_rx_index == m.spi.spi_rx_nbytes
    then record m { spi = record m.spi { spi_rx_index = 0; spi_rx_nbytes = 0 } }
    else m

-- The byte goes out and one comes in.
unfoldable pub transfer : ℕ → M (Unit {0})
transfer value = do
  ireg_putb spdr value
  ireg_putb spsr spif
  enabled ← ireg_getb spcr
  when (nonzero (bit_and enabled spie)) (on_spi (λ s. record s { spi_interrupt = true }))
  modify (λ m. rewind (clock_in m))

unfoldable pub spdr_putb : ℕ → ℕ → M (Unit {0})
spdr_putb offs value = do
  clear_spif
  status ← ireg_getb spsr
  when (bit_and status spif == 0) (transfer value)
  on_spi (λ s. record s { spsr_is_read = false })
