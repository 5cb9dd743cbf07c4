-- ===== src/H6301/Sci.antt =====
-- src/arch/h6301/sci.c: the serial interface and its receive buffer.
use sim68xx.Common.{
  ℕ, suc, ◌+◌, ◌-◌, bit_and, bit_or, Bool, true, ◌&&◌, ◌||◌, ◌==◌, ltb, if◌then◌else◌, u8, List, [],
  ◌∷◌,
}
use sim68xx.Machine.{Machine, M, ◌>>=◌, ◌>>◌, modify, when, report, update, put}
use sim68xx.Machine.Reg.{nonzero}
use sim68xx.Memory.{ireg_putb}
use sim68xx.H6301.Registers.{trcsr, rdr, tdr, tie, rie, tdre, rdrf}

abbrev pub bufsize : ℕ
bufsize = 1024

-- `recvbuf[rxindex + rxinterrupts++] = value`.
abbrev pub receive : ℕ → Machine → Machine
receive value m = record m {
  sci = record m.sci {
    recvbuf = update m.sci.recvbuf (m.sci.rxindex + m.sci.rxinterrupts) (u8 value);
    rxinterrupts = m.sci.rxinterrupts + 1;
  };
}

-- The loop of `sci_in` over the bytes that are left; the result is how many were taken.
unfoldable pub sci_in : List ℕ → M ℕ
sci_in [] m = (0, m)
sci_in (value ∷ s) m =
    let rest = sci_in s (receive value m) in
    if ltb (m.sci.rxindex + m.sci.rxinterrupts) bufsize then (suc rest.0, rest.1) else (0, m)

unfoldable pub trcsr_getb : ℕ → M ℕ
trcsr_getb offs m =
    if nonzero m.sci.rxinterrupts
    then (bit_or (bit_or (m.iram trcsr) tdre) rdrf, m)
    else (bit_and (bit_or (m.iram trcsr) tdre) (0xff - rdrf), m)

abbrev pub set_txinterrupts : ℕ → M (Unit {0})
set_txinterrupts n = modify (λ m. record m { sci = record m.sci { txinterrupts = n } })

unfoldable pub trcsr_putb : ℕ → ℕ → M (Unit {0})
unfolding ireg_putb trcsr_getb
trcsr_putb offs value = do
  ireg_putb trcsr value
  status ← trcsr_getb trcsr
  set_txinterrupts (if nonzero (bit_and (u8 status) tie) then 1 else 0)

-- `ireg_putb (RDR, recvbuf[rxindex++]); rxinterrupts--;` with `rxindex` reset when none is left.
abbrev pub eat : Machine → Machine
eat m =
    let left = m.sci.rxinterrupts - 1 in
    record m {
      iram = update m.iram rdr (u8 (m.sci.recvbuf m.sci.rxindex));
      undefined = if ltb m.sci.rxindex bufsize then m.undefined else true;
      sci = record m.sci {
        rxindex = if left == 0 then 0 else m.sci.rxindex + 1;
        rxinterrupts = left;
      };
    }

unfoldable pub rdr_getb : ℕ → M ℕ
rdr_getb offs m =
    if m.cpu.running
    then (let m' =
          if nonzero m.sci.rxinterrupts
          then eat m
          else record m { sci = record m.sci { rxindex = 0 } } in
        (m'.iram rdr, m'))
    else (m.iram rdr, m)

-- `io_putb` prints the byte.
unfoldable pub tdr_putb : ℕ → ℕ → M (Unit {0})
unfolding ireg_putb trcsr_getb report
tdr_putb offs value = do
  ireg_putb tdr value
  report (put value)
  status ← trcsr_getb trcsr
  when (nonzero (bit_and (u8 status) tie)) (set_txinterrupts 1)

-- inc/arch/h6301/sci.h
abbrev pub serial_int : Machine → Bool
serial_int m =
    nonzero m.sci.rxinterrupts && nonzero (bit_and (m.iram trcsr) rie)
    || nonzero m.sci.txinterrupts && nonzero (bit_and (m.iram trcsr) tie)
