-- ===== src/M6811/Sci.antt =====
-- src/arch/m6811/sci.c: the serial communications interface and its receive buffer. The output goes to
-- the function of `sci_out_install`, or else to the terminal.
use sim68xx.Common.{
  ℕ, suc, ◌+◌, ◌-◌, bit_and, bit_or, Bool, true, ◌&&◌, ◌||◌, ◌==◌, ltb, if◌then◌else◌, u8, List, [],
  ◌∷◌,
}
use sim68xx.Machine.{◌>>=◌, ◌>>◌, Machine, M, modify, when, report, update, put}
use sim68xx.Machine.Reg.{nonzero}
use sim68xx.Memory.{ireg_getb, ireg_putb}
use sim68xx.H6303.Sci.{bufsize}
use sim68xx.M6811.Registers.{idle, rdrf, rie, sccr2, scdr, tc, tcie, tdre, tie}

-- `sci_recvbuf[sci_rx_index + sci_rx_ints++] = value`.
abbrev pub receive : ℕ → Machine → Machine
receive value m = record m {
  sci = record m.sci {
    recvbuf = update m.sci.recvbuf (m.sci.rxindex + m.sci.rxinterrupts) (u8 value);
    rxinterrupts = m.sci.rxinterrupts + 1;
  };
}

-- The loop of `sci_in` over the bytes that are left; the result is how many were taken.
unfoldable pub sci_in : List ℕ → M ℕ
sci_in [] m = (0, m)
sci_in (value ∷ s) m =
    let rest = sci_in s (receive value m) in
    if ltb (m.sci.rxindex + m.sci.rxinterrupts) bufsize then (suc rest.0, rest.1) else (0, m)

unfoldable pub scsr_getb : ℕ → M ℕ
scsr_getb offs m =
    (bit_or (bit_or (bit_or tdre tc) (if nonzero m.sci.rxinterrupts then rdrf else 0)) idle, m)

-- `ireg_putb (SCDR, sci_recvbuf[sci_rx_index++]); sci_rx_ints--;` with `sci_rx_index` reset when none
-- is left.
abbrev pub eat : Machine → Machine
eat m =
    let left = m.sci.rxinterrupts - 1 in
    record m {
      iram = update m.iram scdr (u8 (m.sci.recvbuf m.sci.rxindex));
      undefined = if ltb m.sci.rxindex bufsize then m.undefined else true;
      sci = record m.sci {
        rxindex = if left == 0 then 0 else m.sci.rxindex + 1;
        rxinterrupts = left;
      };
    }

unfoldable pub scdr_getb : ℕ → M ℕ
scdr_getb offs m =
    if m.cpu.running
    then (let m' =
          if nonzero m.sci.rxinterrupts
          then eat m
          else record m { sci = record m.sci { rxindex = 0 } } in
        (m'.iram scdr, m'))
    else (m.iram scdr, m)

abbrev pub set_txinterrupts : ℕ → M (Unit {0})
set_txinterrupts n = modify (λ m. record m { sci = record m.sci { txinterrupts = n } })

unfoldable pub sccr2_putb : ℕ → ℕ → M (Unit {0})
sccr2_putb offs value = do
  ireg_putb sccr2 value
  set_txinterrupts (if nonzero (bit_and value (bit_or tie tcie)) then 1 else 0)

unfoldable pub scdr_putb : ℕ → ℕ → M (Unit {0})
scdr_putb offs value = do
  report (put value)
  enabled ← ireg_getb sccr2
  when (nonzero (bit_and enabled (bit_or tie tcie))) (set_txinterrupts 1)

-- inc/arch/m6811/sci.h
abbrev pub sci_int : Machine → Bool
sci_int m =
    nonzero m.sci.rxinterrupts && nonzero (bit_and (m.iram sccr2) rie)
    || nonzero m.sci.txinterrupts && nonzero (bit_and (m.iram sccr2) (bit_or tie tcie))
