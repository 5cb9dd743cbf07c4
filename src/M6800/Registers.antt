-- ===== src/M6800/Registers.antt =====
-- inc/arch/m6800/chip.h: the registers of the ACIA, their bits, and the interrupt vectors in use.
use sim68xx.Common.{ℕ}

abbrev pub niregs : ℕ
niregs = 0x03

abbrev pub cr : ℕ
cr = 0

abbrev pub rdr : ℕ
rdr = 1

abbrev pub rdrf : ℕ
rdrf = 0x01

abbrev pub tdre : ℕ
tdre = 0x02

abbrev pub irq : ℕ
irq = 0x80

abbrev pub tc1 : ℕ
tc1 = 0x20

abbrev pub tc2 : ℕ
tc2 = 0x40

abbrev pub rie : ℕ
rie = 0x80

abbrev pub swi_vector : ℕ
swi_vector = 0xfffa

abbrev pub res_vector : ℕ
res_vector = 0xfffe
