-- ===== src/Loader.antt =====
-- src/base/fileio.c: the S19 loader. The buffer that `fgets` fills is an array that keeps, behind the
-- end of a line, what earlier and longer lines left there.
pub mod Loop
pub mod Record
pub mod Line
pub mod File
use sim68xx.Common.{
  ℕ, zero, suc, ◌+◌, ◌*◌, ◌-◌, ◌/◌, ◌%◌, ◌^◌, bit_and, Bool, true, false, not, ltb, ◌==◌,
  if◌then◌else◌, Option, none, some, List, [], ◌∷◌, u8, u32, sub32,
}
use sim68xx.Common.Lists.{length, get_or}
use sim68xx.Machine.{
  Machine, M, pure, ◌>>=◌, ◌>>◌, modify, report, update, checksum, invalid_s19, bad_line,
}
use sim68xx.Memory.{outside}

-- A text in memory, from its first character on.
abbrev pub Text : Type 0
Text = ℕ → ℕ

-- `sscanf (text, "%0<width>x", &value)` of the C library: the number, or none if it converts nothing.
pub record Scanf : Type 0 where
  pub scan_hex : ℕ → Text → Option ℕ

-- `sscanf` leaves its variable alone when it converts nothing.
abbrev scanned : Option ℕ → ℕ → ℕ
scanned none old = old
scanned (some value) old = u32 value

abbrev text_at : Text → ℕ → Text
text_at buf pos i = buf (pos + i)

-- `a < b` for `int`.
abbrev pub less : ℕ → ℕ → Bool
less a b = ltb ((a + 2 ^ 31) % 2 ^ 32) ((b + 2 ^ 31) % 2 ^ 32)

abbrev pub maxbufsize : ℕ
maxbufsize = 1024

-- `sscanf (&buf[pos], "%02x", ...)` is given a position outside `buf[MAXBUFSIZE]` when the two
-- characters from there on are not within it.
abbrev pub scan_at : ℕ → Machine → Machine
scan_at pos m = record m { undefined = if ltb (pos + 1) maxbufsize then m.undefined else true }

-- What the uninitialised variables of `load_line_s19` and `load_file` hold.
pub record Locals : Type 0 where
  pub nbytes : ℕ
  pub val : ℕ
  pub csum : ℕ
  pub addr : ℕ
  pub errcode : ℕ

-- The static `mem_putb` of the loader: `ram[addr] = value;`, without a range check.
unfoldable pub mem_putb : ℕ → ℕ → M (Unit {0})
mem_putb addr value =
    modify (λ m. record (outside addr m) {
      mem = record m.mem { ram = update m.mem.ram addr (u8 value) };
    })

-- `-1` as an `int`.
abbrev pub failed : ℕ
failed = 2 ^ 32 - 1

-- `fgets` on a line of the file: its characters and a null, then what the buffer held.
abbrev pub fgets : List ℕ → Text → Text
fgets line buf i =
    if ltb i (length line) then get_or line i 0 else if i == length line then 0 else buf i

module _ ⦃c : Scanf⦄ where
  -- The loop over the data bytes, from index `i` on: it returns the sum, the index and the last value.
  -- Its condition is `i < nbytes - 1`. A run whose `pos` or `nbytes - 1` overflows in C is one that
  -- has left the buffer before, or leaves it, and is flagged.
  unfoldable pub load_bytes : ℕ → Text → ℕ → ℕ → ℕ → ℕ → ℕ → ℕ → M (ℕ × ℕ × ℕ)
  unfolding mem_putb
  load_bytes zero buf nbytes addr offset i val sum m = ((sum, i, val), m)
  load_bytes (suc fuel) buf nbytes addr offset i val sum m = elim (less i (sub32 nbytes 1)) [
    | true ↦
        let pos = 8 + (i - 2) * 2 in
        let read = scanned (c.scan_hex 2 (text_at buf pos)) val in
        let m' = (mem_putb (sub32 (sub32 (u32 (addr + i)) 2) offset) read (scan_at pos m)).1 in
        load_bytes fuel buf nbytes addr offset (i + 1) read (u32 (sum + read)) m'
    | false ↦ ((sum, i, val), m)
  ]

  -- The branch for `S1`. The index rises from 2 to at most `nbytes - 1`, so `nbytes` is enough fuel.
  unfoldable pub load_data : Text → ℕ → Locals → M ℕ
  unfolding load_bytes report
  load_data buf offset l = do
    let nbytes = scanned (c.scan_hex 2 (text_at buf 2)) l.nbytes
    let addr = scanned (c.scan_hex 4 (text_at buf 4)) l.addr
    let header = u32 (u32 (nbytes + addr / 2 ^ 8) + bit_and addr 0xff)
    (total, i, val) ← load_bytes nbytes buf nbytes addr offset 2 l.val header
    let sum = bit_and (2 ^ 32 - 1 - total) 0xff
    modify (scan_at (8 + (i - 2) * 2))
    let csum = scanned (c.scan_hex 2 (text_at buf (8 + (i - 2) * 2))) l.csum
    if csum == sum then pure 0 else (report (checksum sum csum) >> pure failed)

  unfoldable pub load_line_s19 : Text → ℕ → Locals → M ℕ
  unfolding load_data report
  load_line_s19 buf offset l =
      if not (buf 0 == b'S')
      then pure 0
      else if buf 1 == b'1'
      then load_data buf offset l
      else if buf 1 == b'9'
      then pure 0
      else if buf 1 == b'0'
      then pure 0
      else (report invalid_s19 >> pure failed)

  -- The loop of `load_file`, over the lines that `fgets` delivers before the end of the file.
  unfoldable pub load_lines : List (List ℕ) → ℕ → ℕ → Text → Locals → M ℕ
  unfolding load_line_s19 report
  load_lines [] line_no errcode buf l m = (errcode, m)
  load_lines (line ∷ lines) line_no errcode buf l m =
      let text = fgets line buf in
      let (code, m') = load_line_s19 text 0 l m in
      elim (code == 0) [
        | true ↦ load_lines lines (line_no + 1) code text l m'
        | false ↦ (report (bad_line line_no) >> pure code) m'
      ]

  -- `load_file` with what `fopen` gave: the lines of the file, or `errno`. A file without lines
  -- leaves `errcode` uninitialised.
  unfoldable pub load_file : Option (List (List ℕ)) → ℕ → Text → Locals → M ℕ
  load_file none errno buf l = pure errno
  load_file (some lines) errno buf l = load_lines lines 1 l.errcode buf l
