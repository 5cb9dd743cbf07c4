-- ===== src/Tests/Loading.antt =====
-- The loader's theorems at a small file, with a scanner of hexadecimal digits.
use sim68xx.Common.{
  ℕ, ◌+◌, ◌*◌, ◌==◌, if◌then◌else◌, Option, none, some, List, [], ◌∷◌, ◌++◌, ◌≡◌, All, refl, ap,
  arith,
}
use sim68xx.Machine.{checksum, bad_line}
use sim68xx.Loader.{Text, Scanf, Locals, failed, load_file}
use sim68xx.Loader.Record.{IsScanf, digit_value, store, with_ram}
use sim68xx.Loader.File.{
  Line, bytes, header, last, texts, data_line, stored_all, IsLine, load_file-texts, load_file_stops,
}
use sim68xx.Tests.{busy}

abbrev join : ℕ → Option ℕ → Option ℕ → Option ℕ
join base (some a) (some b) = some (a * base + b)
join base _ _ = none

abbrev digits : ℕ → Text → Option ℕ
digits width s =
    let high = join 16 (digit_value (s 0)) (digit_value (s 1)) in
    if width == 2 then high else join 256 high (join 16 (digit_value (s 2)) (digit_value (s 3)))

instance scanf : Scanf
scanf = record { scan_hex = digits }

scanf-IsScanf : IsScanf scanf
unfolding scanf
scanf-IsScanf = record {
  two = λ s h l p q. rw (p, q) refl;
  four = λ s d e f g p q r t. rw (p, q) (rw (r, t) (ap some (omega arith)));
}

-- A header, three bytes at f000 and the end, each with a line feed.
abbrev line_feed : List ℕ
line_feed = b'\n' ∷ []

abbrev first_line : Line
first_line = header (b'0' ∷ b'3' ∷ line_feed)

abbrev other_lines : List Line
other_lines = bytes 0xf000 (0xff ∷ 0x00 ∷ 0xa7 ∷ []) line_feed ∷ last line_feed ∷ []

abbrev locals : Locals
locals = record { nbytes = 7; val = 8; csum = 9; addr = 10; errcode = 11 }

other_lines-IsLine : All IsLine other_lines
other_lines-IsLine = (
  ((omega arith, (omega arith, (omega arith, tt))), omega arith, omega arith, omega arith),
  (tt, tt),
)

load_file-texts_example :
    load_file (some (texts (first_line ∷ other_lines))) 2 (λ i. 0x55) locals busy
    ≡ (0, with_ram (store 0xf000 (0xff ∷ 0x00 ∷ 0xa7 ∷ []) busy.mem.ram) busy)
load_file-texts_example =
    load_file-texts first_line other_lines 2 (λ i. 0x55) locals busy scanf-IsScanf
      (tt, other_lines-IsLine)

load_file_stops_example :
    load_file
      (some (texts other_lines ++ (data_line 0x10 (1 ∷ []) 0xff line_feed ∷ [] ∷ [])))
      2
      (λ i. 0x55)
      locals
      busy
    ≡ (
      failed,
      record (with_ram (store 0x10 (1 ∷ []) (stored_all other_lines busy.mem.ram)) busy) {
        messages = bad_line 3 ∷ checksum 0xea 0xff ∷ busy.messages;
      },
    )
load_file_stops_example =
    load_file_stops other_lines 0x10 (1 ∷ []) 0xff line_feed ([] ∷ []) 2 (λ i. 0x55) locals busy
      scanf-IsScanf other_lines-IsLine ((omega arith, tt), omega arith, omega arith, omega arith)
      (omega arith) (λ e. absurd (omega arith))
