-- ===== src/Loader/Line.antt =====
-- One S1 record in the buffer: what `load_line_s19` returns and stores.
use sim68xx.Common.{
  ℕ, suc, ◌+◌, ◌*◌, ◌-◌, ◌/◌, ◌%◌, ◌^◌, ◌≤◌, ◌<◌, bit_and, true, ltb, ◌==◌, if◌then◌else◌, some,
  List, [], ◌∷◌, ◌++◌, u32, All, ◌≡◌, refl, ap, ◌∙◌, arith, Bool-cases, inl, inr,
}
use sim68xx.Common.Bits.{bit_and-mask}
use sim68xx.Common.Lists.{length, total}
use sim68xx.Machine.{Machine, checksum}
use sim68xx.Loader.{Text, Scanf, Locals, text_at, failed, maxbufsize, load_data, load_line_s19}
use sim68xx.Machine.{report}
use sim68xx.Loader.Record.{
  digit_value, IsScanf, hex_digit, hex_digit-value, hex_bytes, record_line, right_sum, store,
  with_ram, IsByte, total-le, Reads, Scans, Reads-Scans, load_bytes_values,
}

Scans-last :
    (c : Scanf) (values : List ℕ) (buf : Text) (pos v : ℕ)
    → Scans c buf pos (values ++ (v ∷ []))
    → Scans c buf pos values × (c.scan_hex 2 (text_at buf (pos + length values * 2)) ≡ some v)
Scans-last c [] buf pos v (scan, rest) =
    let here : pos ≡ pos + 0 * 2 = omega arith in (tt, rw here at scan)
Scans-last c (w ∷ values) buf pos v (scan, rest) =
    let (scans, last) = Scans-last c values buf (pos + 2) v rest in
    let there : pos + 2 + length values * 2 ≡ pos + suc (length values) * 2 = omega arith in
    ((scan, scans), rw there at last)

All-append_one :
    (values : List ℕ) (v : ℕ) → All IsByte values → IsByte v → All IsByte (values ++ (v ∷ []))
All-append_one [] v bytes b = (b, tt)
All-append_one (w ∷ values) v (a, bytes) b = (a, All-append_one values v bytes b)

-- The four digits of an address.
scan_address :
    (c : Scanf) (buf : Text) (addr : ℕ) (rest : List ℕ)
    → IsScanf c
    → addr < 65536
    → Reads buf 4 (hex_bytes ((addr / 256) ∷ (addr % 256) ∷ rest))
    → c.scan_hex 4 (text_at buf 4) ≡ some addr
scan_address c buf addr rest law small reads =
    let digit = λ (n : ℕ) (x : ℕ) (e : x ≡ hex_digit n) (h : n < 16).
      ap digit_value e ∙ hex_digit-value n h in
    let high = addr / 256 in
    let low = addr % 256 in
    let value : high / 16 * 4096 + high % 16 * 256 + low / 16 * 16 + low % 16 ≡ addr =
      omega arith in
    law.four (text_at buf 4) (high / 16) (high % 16) (low / 16) (low % 16)
      (digit (high / 16) (buf 4) reads.0 (omega arith))
      (digit (high % 16) (buf 5) reads.1.0 (omega arith))
      (digit (low / 16) (buf 6) reads.1.1.0 (omega arith))
      (digit (low % 16) (buf 7) reads.1.1.1.0 (omega arith))
    ∙ ap some value

module _ ⦃c : Scanf⦄ where
  load_data_lem :
      (addr : ℕ) (values : List ℕ) (csum : ℕ) (buf : Text) (l : Locals) (m : Machine)
      → All IsByte values
      → length values ≤ 252
      → addr + length values ≤ 65536
      → addr < 65536
      → csum < 256
      → c.scan_hex 2 (text_at buf 2) ≡ some (length values + 3)
      → c.scan_hex 4 (text_at buf 4) ≡ some addr
      → Scans c buf 8 values
      → c.scan_hex 2 (text_at buf (8 + length values * 2)) ≡ some csum
      → let m' = with_ram (store addr values m.mem.ram) m in
        let right = right_sum addr values in
        load_data buf 0 l m
        ≡ (if csum == right then (0, m') else (failed, (report (checksum right csum) m').1))
  unfolding load_data report
  load_data_lem addr values csum buf l m bytes fits inside small byte first place scans last =
      let n = length values + 3 in
      let header = u32 (u32 (n + addr / 2 ^ 8) + bit_and addr 0xff) in
      let low = bit_and-mask 8 addr in
      let sums = total-le values bytes in
      let count : u32 n ≡ n = omega arith in
      let word : u32 addr ≡ addr = omega arith in
      let check : u32 csum ≡ csum = omega arith in
      let (v, loaded) =
        load_bytes_values values n buf addr 2 l.val header n m bytes (omega arith) (omega arith)
          (omega arith) (omega arith) (omega arith) (omega arith) scans in
      let right = right_sum addr values in
      let scanned_in : ltb (8 + length values * 2 + 1) maxbufsize ≡ true = ground arith in
      let where_sum : 8 + (2 + length values - 2) * 2 ≡ 8 + length values * 2 = omega arith in
      let start : addr + 0 ≡ addr = omega arith in
      let right_is : bit_and (2 ^ 32 - 1 - (header + total values)) 0xff ≡ right =
        omega (arith, low, bit_and-mask 8 (2 ^ 32 - 1 - (header + total values))) in
      rw (first, place)
        (rw (count, word)
          (rw loaded (
            rw (where_sum, start)
              (rw last (
                rw (check, right_is, scanned_in)
                  (elim (Bool-cases (csum == right)) [ inl e ↦ rw e refl | inr e ↦ rw e refl ]))))))

  -- A record of up to 252 bytes with any checksum is stored whole, within memory, whether the
  -- checksum is right or not; the result is 0 if it is right, and else -1 with a message.
  pub load_line_s19_lem :
      (addr : ℕ) (values : List ℕ) (csum : ℕ) (buf : Text) (l : Locals) (m : Machine)
      → IsScanf c
      → All IsByte values
      → length values ≤ 252
      → addr + length values ≤ 65536
      → addr < 65536
      → csum < 256
      → Reads buf 0 (record_line addr values csum)
      → let m' = with_ram (store addr values m.mem.ram) m in
        let right = right_sum addr values in
        load_line_s19 buf 0 l m
        ≡ (if csum == right then (0, m') else (failed, (report (checksum right csum) m').1))
  unfolding load_line_s19
  load_line_s19_lem addr values csum buf l m law bytes fits inside small byte reads =
      let rest = values ++ (csum ∷ []) in
      let size : IsByte (length values + 3) = omega arith in
      let high : IsByte (addr / 256) = omega arith in
      let low : IsByte (addr % 256) = omega arith in
      let all : All IsByte ((length values + 3) ∷ (addr / 256) ∷ (addr % 256) ∷ rest) =
        (size, (high, (low, All-append_one values csum bytes byte))) in
      let scans =
        Reads-Scans c law ((length values + 3) ∷ (addr / 256) ∷ (addr % 256) ∷ rest) buf 2 all
          reads.1.1 in
      let place = scan_address c buf addr rest law small reads.1.1.1.1 in
      let (data_scans, last) = Scans-last c values buf 8 csum scans.1.1.1 in
      rw (reads.0, reads.1.0)
        (load_data_lem addr values csum buf l m bytes fits inside small byte scans.0 place
          data_scans last)
