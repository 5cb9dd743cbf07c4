-- ===== src/H6303/Registers.antt =====
-- inc/arch/h6303/chip.h: the internal registers, their bits, and the interrupt vectors.
use sim68xx.Common.{ℕ}

abbrev pub tcsr : ℕ
tcsr = 0x08

abbrev pub tcsr1 : ℕ
tcsr1 = 0x08

abbrev pub frc : ℕ
frc = 0x09

abbrev pub ocr1 : ℕ
ocr1 = 0x0b

abbrev pub tcsr2 : ℕ
tcsr2 = 0x0f

abbrev pub trcsr : ℕ
trcsr = 0x11

abbrev pub rdr : ℕ
rdr = 0x12

abbrev pub tdr : ℕ
tdr = 0x13

abbrev pub ocr2 : ℕ
ocr2 = 0x19

abbrev pub tcsr3 : ℕ
tcsr3 = 0x1b

abbrev pub tconr : ℕ
tconr = 0x1c

abbrev pub t2cnt : ℕ
t2cnt = 0x1d

abbrev pub niregs : ℕ
niregs = 0x21

abbrev pub tie : ℕ
tie = 0x04

abbrev pub rie : ℕ
rie = 0x10

abbrev pub tdre : ℕ
tdre = 0x20

abbrev pub rdrf : ℕ
rdrf = 0x80

abbrev pub etoi : ℕ
etoi = 0x04

abbrev pub eoci1 : ℕ
eoci1 = 0x08

abbrev pub eici : ℕ
eici = 0x10

abbrev pub tof : ℕ
tof = 0x20

abbrev pub ocf1 : ℕ
ocf1 = 0x40

abbrev pub icf : ℕ
icf = 0x80

abbrev pub eoci2 : ℕ
eoci2 = 0x08

abbrev pub ocf2 : ℕ
ocf2 = 0x20

abbrev pub cks0 : ℕ
cks0 = 0x01

abbrev pub cks1 : ℕ
cks1 = 0x02

abbrev pub te2 : ℕ
te2 = 0x10

abbrev pub cmf : ℕ
cmf = 0x80

abbrev pub sci_vector : ℕ
sci_vector = 0xfff0

abbrev pub tof_vector : ℕ
tof_vector = 0xfff2

abbrev pub ocf_vector : ℕ
ocf_vector = 0xfff4

abbrev pub icf_vector : ℕ
icf_vector = 0xfff6

abbrev pub swi_vector : ℕ
swi_vector = 0xfffa

abbrev pub res_vector : ℕ
res_vector = 0xfffe
