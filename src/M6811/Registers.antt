-- ===== src/M6811/Registers.antt =====
-- inc/arch/m6811/chip.h: the internal registers, their bits, and the interrupt vectors in use.
use sim68xx.Common.{ℕ}

abbrev pub niregs : ℕ
niregs = 0x40

abbrev pub cforc : ℕ
cforc = 0x0b

abbrev pub oc1m : ℕ
oc1m = 0x0c

abbrev pub oc1d : ℕ
oc1d = 0x0d

abbrev pub tcnt : ℕ
tcnt = 0x0e

abbrev pub toc1 : ℕ
toc1 = 0x16

abbrev pub toc2 : ℕ
toc2 = 0x18

abbrev pub toc3 : ℕ
toc3 = 0x1a

abbrev pub toc4 : ℕ
toc4 = 0x1c

abbrev pub toc5 : ℕ
toc5 = 0x1e

abbrev pub tctl1 : ℕ
tctl1 = 0x20

abbrev pub tctl2 : ℕ
tctl2 = 0x21

abbrev pub tmsk1 : ℕ
tmsk1 = 0x22

abbrev pub oc1i : ℕ
oc1i = 0x80

abbrev pub oc2i : ℕ
oc2i = 0x40

abbrev pub oc3i : ℕ
oc3i = 0x20

abbrev pub oc4i : ℕ
oc4i = 0x10

abbrev pub oc5i : ℕ
oc5i = 0x08

abbrev pub tflg1 : ℕ
tflg1 = 0x23

abbrev pub oc1f : ℕ
oc1f = 0x80

abbrev pub oc2f : ℕ
oc2f = 0x40

abbrev pub oc3f : ℕ
oc3f = 0x20

abbrev pub oc4f : ℕ
oc4f = 0x10

abbrev pub oc5f : ℕ
oc5f = 0x08

abbrev pub tmsk2 : ℕ
tmsk2 = 0x24

abbrev pub tflg2 : ℕ
tflg2 = 0x25

abbrev pub pactl : ℕ
pactl = 0x26

abbrev pub spcr : ℕ
spcr = 0x28

abbrev pub spie : ℕ
spie = 0x80

abbrev pub spsr : ℕ
spsr = 0x29

abbrev pub spif : ℕ
spif = 0x80

abbrev pub spdr : ℕ
spdr = 0x2a

abbrev pub sccr2 : ℕ
sccr2 = 0x2d

abbrev pub tie : ℕ
tie = 0x80

abbrev pub tcie : ℕ
tcie = 0x40

abbrev pub rie : ℕ
rie = 0x20

abbrev pub tdre : ℕ
tdre = 0x80

abbrev pub tc : ℕ
tc = 0x40

abbrev pub rdrf : ℕ
rdrf = 0x20

abbrev pub idle : ℕ
idle = 0x10

abbrev pub scdr : ℕ
scdr = 0x2f

abbrev pub sci_vector : ℕ
sci_vector = 0xffd6

abbrev pub spi_vector : ℕ
spi_vector = 0xffd8

abbrev pub toc1_vector : ℕ
toc1_vector = 0xffe8

abbrev pub toc2_vector : ℕ
toc2_vector = 0xffe6

abbrev pub toc3_vector : ℕ
toc3_vector = 0xffe4

abbrev pub toc4_vector : ℕ
toc4_vector = 0xffe2

abbrev pub toc5_vector : ℕ
toc5_vector = 0xffe0

abbrev pub swi_vector : ℕ
swi_vector = 0xfff6

abbrev pub reset_vector : ℕ
reset_vector = 0xfffe
