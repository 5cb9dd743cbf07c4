-- ===== src/H6301/Registers.antt =====
-- inc/arch/h6301/chip.h: the internal registers, their bits, and the interrupt vectors in use.
use sim68xx.Common.{ℕ}

abbrev pub tcsr : ℕ
tcsr = 0x08

abbrev pub frc : ℕ
frc = 0x09

abbrev pub ocr : ℕ
ocr = 0x0b

abbrev pub trcsr : ℕ
trcsr = 0x11

abbrev pub rdr : ℕ
rdr = 0x12

abbrev pub tdr : ℕ
tdr = 0x13

abbrev pub niregs : ℕ
niregs = 0x15

abbrev pub tie : ℕ
tie = 0x04

abbrev pub rie : ℕ
rie = 0x10

abbrev pub tdre : ℕ
tdre = 0x20

abbrev pub rdrf : ℕ
rdrf = 0x80

abbrev pub eoci : ℕ
eoci = 0x08

abbrev pub tof : ℕ
tof = 0x20

abbrev pub ocf : ℕ
ocf = 0x40

abbrev pub icf : ℕ
icf = 0x80

abbrev pub sci_vector : ℕ
sci_vector = 0xfff0

abbrev pub ocf_vector : ℕ
ocf_vector = 0xfff4

abbrev pub swi_vector : ℕ
swi_vector = 0xfffa

abbrev pub res_vector : ℕ
res_vector = 0xfffe
