-- ===== src/M6800/Sci.antt =====
-- src/arch/m6800/sci.c: the ACIA and its receive buffer.
use sim68xx.Common.{
  ℕ, suc, ◌+◌, ◌-◌, bit_and, bit_or, Bool, true, ◌&&◌, ◌||◌, ◌==◌, ltb, if◌then◌else◌, u8, List, [],
  ◌∷◌,
}
use sim68xx.Machine.{Machine, M, ◌>>=◌, ◌>>◌, modify, when, report, update, put}
use sim68xx.Machine.Reg.{nonzero}
use sim68xx.Memory.{ireg_putb, ireg_getb}
use sim68xx.M6800.Registers.{cr, rdr, rdrf, tdre, irq, tc1, tc2, rie}

abbrev pub bufsize : ℕ
bufsize = 1024

-- `recvbuf[rxindex + rxinterrupts++] = s[i]`.
abbrev pub receive : ℕ → Machine → Machine
receive value m = record m {
  sci = record m.sci {
    recvbuf = update m.sci.recvbuf (m.sci.rxindex + m.sci.rxinterrupts) (u8 value);
    rxinterrupts = m.sci.rxinterrupts + 1;
  };
}

-- The loop of `sci_in` over the bytes that are left; the result is how many were taken.
unfoldable pub sci_in : List ℕ → M ℕ
sci_in [] m = (0, m)
sci_in (value ∷ s) m =
    let rest = sci_in s (receive value m) in
    if ltb (m.sci.rxindex + m.sci.rxinterrupts) bufsize then (suc rest.0, rest.1) else (0, m)

-- The transmit interrupt is enabled: `(cr & (TC1 | TC2)) == TC1`.
abbrev pub transmits : ℕ → Bool
transmits control = bit_and control (bit_or tc1 tc2) == tc1

-- inc/arch/m6800/sci.h
abbrev pub serial_int : Machine → Bool
serial_int m =
    nonzero m.sci.rxinterrupts && nonzero (bit_and (m.iram cr) rie)
    || nonzero m.sci.txinterrupts && transmits (m.iram cr)

unfoldable pub sr_getb : ℕ → M ℕ
sr_getb offs m =
    let full = if nonzero m.sci.rxinterrupts then bit_or tdre rdrf else tdre in
    (if serial_int m then full else bit_or full irq, m)

abbrev pub set_txinterrupts : ℕ → M (Unit {0})
set_txinterrupts n = modify (λ m. record m { sci = record m.sci { txinterrupts = n } })

unfoldable pub cr_putb : ℕ → ℕ → M (Unit {0})
unfolding ireg_putb
cr_putb offs value = do ireg_putb cr value; set_txinterrupts (if transmits (u8 value) then 1 else 0)

-- `ireg_putb (RDR, recvbuf[rxindex++]); rxinterrupts--;` with `rxindex` reset when none is left.
abbrev pub eat : Machine → Machine
eat m =
    let left = m.sci.rxinterrupts - 1 in
    record m {
      iram = update m.iram rdr (u8 (m.sci.recvbuf m.sci.rxindex));
      undefined = if ltb m.sci.rxindex bufsize then m.undefined else true;
      sci = record m.sci {
        rxindex = if left == 0 then 0 else m.sci.rxindex + 1;
        rxinterrupts = left;
      };
    }

unfoldable pub rdr_getb : ℕ → M ℕ
rdr_getb offs m =
    if m.cpu.running
    then (let m' =
          if nonzero m.sci.rxinterrupts
          then eat m
          else record m { sci = record m.sci { rxindex = 0 } } in
        (m'.iram rdr, m'))
    else (m.iram rdr, m)

-- `io_putb` prints the byte.
unfoldable pub tdr_putb : ℕ → ℕ → M (Unit {0})
unfolding report
tdr_putb offs value = do
  report (put value)
  control ← ireg_getb cr
  when (transmits control) (set_txinterrupts 1)
