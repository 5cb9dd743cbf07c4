-- ===== src/Loader/Record.antt =====
-- An S1 record as text, and what `load_line_s19` makes of it.
use sim68xx.Common.{
  ℕ, zero, suc, ◌+◌, ◌*◌, ◌-◌, ◌/◌, ◌%◌, ◌^◌, ◌≤◌, ◌<◌, true, false, ltb, leb, ◌&&◌, if◌then◌else◌,
  Option, none, some, List, [], ◌∷◌, ◌++◌, u32, sub32, All, ◌≡◌, refl, ap, ◌∙◌, arith,
}
use sim68xx.Common.Lists.{length, total}
use sim68xx.Machine.{Machine, update}
use sim68xx.Memory.{memsize}
use sim68xx.Loader.{Text, Scanf, text_at, less, maxbufsize, mem_putb, load_bytes}

-- The value of a hexadecimal digit.
abbrev pub digit_value : ℕ → Option ℕ
digit_value c =
    if leb b'0' c && leb c b'9'
    then some (c - b'0')
    else if leb b'A' c && leb c b'F'
    then some (c - b'A' + 10)
    else if leb b'a' c && leb c b'f'
    then some (c - b'a' + 10)
    else none

-- What the C standard says of `%2x` and `%4x` in front of two and four hexadecimal digits.
pub record IsScanf (c : Scanf) : Type 0 where
  pub two :
      (s : Text) (h l : ℕ)
      → digit_value (s 0) ≡ some h
      → digit_value (s 1) ≡ some l
      → c.scan_hex 2 s ≡ some (h * 16 + l)
  pub four :
      (s : Text) (d e f g : ℕ)
      → digit_value (s 0) ≡ some d
      → digit_value (s 1) ≡ some e
      → digit_value (s 2) ≡ some f
      → digit_value (s 3) ≡ some g
      → c.scan_hex 4 s ≡ some (d * 4096 + e * 256 + f * 16 + g)

abbrev pub hex_digit : ℕ → ℕ
hex_digit n = if ltb n 10 then b'0' + n else b'A' + (n - 10)

pub hex_digit-value : (n : ℕ) → n < 16 → digit_value (hex_digit n) ≡ some n
hex_digit-value n small = ground arith

abbrev pub hex_bytes : List ℕ → List ℕ
hex_bytes [] = []
hex_bytes (v ∷ vs) = hex_digit (v / 16) ∷ hex_digit (v % 16) ∷ hex_bytes vs

-- A record: `S1`, the number of bytes that follow, the address, the data, the checksum.
abbrev pub record_line : ℕ → List ℕ → ℕ → List ℕ
record_line addr values csum =
    b'S'
    ∷ b'1'
    ∷ hex_bytes ((length values + 3) ∷ (addr / 256) ∷ (addr % 256) ∷ (values ++ (csum ∷ [])))

-- The checksum: the complement of the low byte of the sum of all other bytes.
abbrev pub right_sum : ℕ → List ℕ → ℕ
right_sum addr values = 255 - (length values + 3 + addr / 256 + addr % 256 + total values) % 256

-- The bytes from an address on.
abbrev pub store : ℕ → List ℕ → (ℕ → ℕ) → ℕ → ℕ
store addr [] ram = ram
store addr (v ∷ vs) ram = store (addr + 1) vs (update ram addr v)

abbrev pub with_ram : (ℕ → ℕ) → Machine → Machine
with_ram ram m = record m { mem = record m.mem { ram = ram } }

abbrev pub IsByte : ℕ → Type 0
IsByte v = v < 256

pub total-le : (vs : List ℕ) → All IsByte vs → total vs ≤ 255 * length vs
total-le [] bytes = omega arith
total-le (v ∷ vs) (b, bytes) = omega (arith, total-le vs bytes)

-- The characters of a text, from a position on.
abbrev pub Reads : Text → ℕ → List ℕ → Type 0
Reads buf pos [] = Unit
Reads buf pos (c ∷ cs) = (buf pos ≡ c) × Reads buf (pos + 1) cs

-- Two digits at each of the positions scan as the bytes.
module _ (c : Scanf) where
  abbrev pub Scans : Text → ℕ → List ℕ → Type 0
  Scans buf pos [] = Unit
  Scans buf pos (v ∷ vs) = (c.scan_hex 2 (text_at buf pos) ≡ some v) × Scans buf (pos + 2) vs

  pub Reads-Scans :
      IsScanf c
      → (vs : List ℕ) (buf : Text) (pos : ℕ) → All IsByte vs
      → Reads buf pos (hex_bytes vs)
      → Scans buf pos vs
  Reads-Scans law [] buf pos bytes reads = tt
  Reads-Scans law (v ∷ vs) buf pos (b, bytes) (h, rest) =
      let first : digit_value (buf (pos + 0)) ≡ some (v / 16) =
        ap (λ (t : ℕ). digit_value (buf t)) (omega arith)
        ∙ ap digit_value h
        ∙ hex_digit-value (v / 16) (omega arith) in
      let second : digit_value (buf (pos + 1)) ≡ some (v % 16) =
        ap digit_value rest.0 ∙ hex_digit-value (v % 16) (omega arith) in
      let value : v / 16 * 16 + v % 16 ≡ v = omega arith in
      let next : pos + 1 + 1 ≡ pos + 2 = omega arith in
      (
        law.two (text_at buf pos) (v / 16) (v % 16) first second ∙ ap some value,
        rw next at (Reads-Scans law vs buf (pos + 1 + 1) bytes rest.1),
      )

module _ ⦃c : Scanf⦄ where
  load_bytes_stops :
      (fuel : ℕ) (buf : Text) (nbytes addr offset i val sum : ℕ) (m : Machine)
      → less i (sub32 nbytes 1) ≡ false
      → load_bytes fuel buf nbytes addr offset i val sum m ≡ ((sum, i, val), m)
  unfolding load_bytes
  load_bytes_stops zero buf nbytes addr offset i val sum m e = refl
  load_bytes_stops (suc fuel) buf nbytes addr offset i val sum m e = rw (e, load_bytes) refl

  load_bytes_goes :
      (fuel : ℕ) (buf : Text) (nbytes addr i val sum v : ℕ) (m : Machine)
      → less i (sub32 nbytes 1) ≡ true
      → c.scan_hex 2 (text_at buf (8 + (i - 2) * 2)) ≡ some v
      → v < 256
      → 2 ≤ i
      → i < 256
      → addr + i - 2 < 65536
      → load_bytes (suc fuel) buf nbytes addr 0 i val sum m
        ≡ load_bytes fuel buf nbytes addr 0
            (i + 1)
            v
            (u32 (sum + v))
            (with_ram (update m.mem.ram (addr + i - 2) v) m)
  unfolding load_bytes mem_putb
  load_bytes_goes fuel buf nbytes addr i val sum v m go scan byte low few inside =
      let place : sub32 (sub32 (u32 (addr + i)) 2) 0 ≡ addr + i - 2 = omega arith in
      let word : u32 v ≡ v = omega arith in
      let whole : v % 256 ≡ v = omega arith in
      let plain : ltb (addr + i - 2) memsize ≡ true = ground arith in
      let scanned_in : ltb (8 + (i - 2) * 2 + 1) maxbufsize ≡ true = ground arith in
      rw (go, load_bytes) (rw scan (rw (word, place, whole, plain, scanned_in) refl))

  pub load_bytes_values :
      (values : List ℕ) (fuel : ℕ) (buf : Text) (addr i val sum nbytes : ℕ) (m : Machine)
      → All IsByte values
      → length values ≤ fuel
      → 2 ≤ i
      → nbytes ≡ i + length values + 1
      → nbytes < 256
      → addr + (i - 2) + length values ≤ 65536
      → sum + total values < 2 ^ 32
      → Scans c buf (8 + (i - 2) * 2) values
      → (last : ℕ) × (load_bytes fuel buf nbytes addr 0 i val sum m ≡ (
        (sum + total values, i + length values, last),
        with_ram (store (addr + (i - 2)) values m.mem.ram) m,
      ))
  load_bytes_values [] fuel buf addr i val sum nbytes m bytes enough low size fits inside sums
        scans =
      let over : less i (sub32 nbytes 1) ≡ false = ground arith in
      (
        val,
        load_bytes_stops fuel buf nbytes addr 0 i val sum m over
            ∙ ap (λ (t : ℕ). ((t, i, val), m)) (omega arith)
            ∙ ap (λ (t : ℕ). ((sum + 0, t, val), m)) (omega arith),
      )
  load_bytes_values (v ∷ vs) zero buf addr i val sum nbytes m bytes enough low size fits inside sums
        scans =
      absurd (omega arith)
  load_bytes_values (v ∷ vs) (suc fuel) buf addr i val sum nbytes m (b, bytes) enough low size fits
        inside sums (scan, scans) =
      let go : less i (sub32 nbytes 1) ≡ true = ground arith in
      let m' = with_ram (update m.mem.ram (addr + i - 2) v) m in
      let next : 8 + (i - 2) * 2 + 2 ≡ 8 + (i + 1 - 2) * 2 = omega arith in
      let sums' : u32 (sum + v) + total vs ≡ sum + (v + total vs) = omega arith in
      let end : i + 1 + length vs ≡ i + suc (length vs) = omega arith in
      let start : addr + (i + 1 - 2) ≡ addr + (i - 2) + 1 = omega arith in
      let here : addr + i - 2 ≡ addr + (i - 2) = omega arith in
      let (last, rest) =
        load_bytes_values vs fuel buf addr (i + 1) v (u32 (sum + v)) nbytes m' bytes (omega arith)
          (omega arith) (omega arith) fits (omega arith) (omega arith) (rw next at scans) in
      (
        last,
        load_bytes_goes fuel buf nbytes addr i val sum v m go scan b low (omega arith) (omega arith)
            ∙ rest
            ∙ rw (sums', end, start, here) refl,
      )
