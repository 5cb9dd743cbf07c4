-- ===== src/Loader/File.antt =====
-- A whole S19 file: the records of a program printed and loaded, and a record with a wrong checksum.
use mathlib.Core.List.{append-nil}
use mathlib.Core.Path.{subst}
use sim68xx.Common.{
  ℕ, suc, ◌+◌, ◌≤◌, ◌<◌, true, false, ltb, ◌==◌, some, List, [], ◌∷◌, ◌++◌, All, ◌≡◌, ◌≢◌, refl, ap,
  ◌∙◌, arith,
}
use sim68xx.Common.Lists.{length, get_or}
use sim68xx.Machine.{Machine, report, checksum, bad_line}
use sim68xx.Loader.{Text, Scanf, Locals, failed, load_line_s19, load_lines, load_file, fgets}
use sim68xx.Loader.Record.{IsScanf, record_line, right_sum, store, with_ram, IsByte, Reads}
use sim68xx.Loader.Line.{load_line_s19_lem}

-- A line: data at an address, or the header or the end of a file, with what follows on the line.
pub data Line : Type 0 where
  bytes : ℕ → List ℕ → List ℕ → Line
  header last : List ℕ → Line

-- A data line with a checksum.
abbrev pub data_line : ℕ → List ℕ → ℕ → List ℕ → List ℕ
data_line addr values csum rest = record_line addr values csum ++ rest

abbrev pub text : Line → List ℕ
text (bytes addr values rest) = data_line addr values (right_sum addr values) rest
text (header rest) = b'S' ∷ b'0' ∷ rest
text (last rest) = b'S' ∷ b'9' ∷ rest

abbrev pub texts : List Line → List (List ℕ)
texts [] = []
texts (line ∷ lines) = text line ∷ texts lines

abbrev pub stored : Line → (ℕ → ℕ) → ℕ → ℕ
stored (bytes addr values rest) ram = store addr values ram
stored (header rest) ram = ram
stored (last rest) ram = ram

abbrev pub stored_all : List Line → (ℕ → ℕ) → ℕ → ℕ
stored_all [] ram = ram
stored_all (line ∷ lines) ram = stored_all lines (stored line ram)

-- Up to 252 bytes within memory: what the format and the simulated memory have room for.
abbrev pub Fits : ℕ → List ℕ → Type 0
Fits addr values =
    All IsByte values × (length values ≤ 252) × (addr + length values ≤ 65536) × (addr < 65536)

abbrev pub IsLine : Line → Type 0
IsLine (bytes addr values rest) = Fits addr values
IsLine _ = Unit

Reads-chars :
    (cs : List ℕ) (buf : Text) (pos : ℕ)
    → ((i : ℕ) → i < length cs → buf (pos + i) ≡ get_or cs i 0)
    → Reads buf pos cs
Reads-chars [] buf pos h = tt
Reads-chars (c ∷ cs) buf pos h =
    let here : pos + 0 ≡ pos = omega arith in
    (
      rw here at (h 0 (omega arith)),
      Reads-chars cs buf (pos + 1) (λ i below.
          let next : pos + suc i ≡ pos + 1 + i = omega arith in
          rw next at (h (suc i) (omega arith))),
    )

Reads-front :
    (cs rest : List ℕ) (buf : Text) (pos : ℕ) → Reads buf pos (cs ++ rest) → Reads buf pos cs
Reads-front [] rest buf pos h = tt
Reads-front (c ∷ cs) rest buf pos (h, more) = (h, Reads-front cs rest buf (pos + 1) more)

Reads-fgets : (line : List ℕ) (buf : Text) → Reads (fgets line buf) 0 line
Reads-fgets line buf = Reads-chars line (fgets line buf) 0 (λ i below.
    let inside : ltb (0 + i) (length line) ≡ true = ground arith in
    let start : 0 + i ≡ i = omega arith in rw inside (rw start refl))

module _ ⦃c : Scanf⦄ where
  load_line-text :
      (line : Line) (buf : Text) (l : Locals) (m : Machine)
      → IsScanf c
      → IsLine line
      → load_line_s19 (fgets (text line) buf) 0 l m ≡ (0, with_ram (stored line m.mem.ram) m)
  unfolding load_line_s19
  load_line-text (header rest) buf l m law ok =
      let reads = Reads-fgets (text (header rest)) buf in rw (reads.0, reads.1.0) refl
  load_line-text (last rest) buf l m law ok =
      let reads = Reads-fgets (text (last rest)) buf in rw (reads.0, reads.1.0) refl
  load_line-text (bytes addr values rest) buf l m law (all, size, inside, small) =
      let csum = right_sum addr values in
      let line = record_line addr values csum in
      let same : csum == csum ≡ true = ground arith in
      load_line_s19_lem addr values csum (fgets (line ++ rest) buf) l m law all size inside small
        (omega arith)
        (Reads-front line rest (fgets (line ++ rest) buf) 0 (Reads-fgets (line ++ rest) buf))
      ∙ rw same refl

  load_lines_step :
      (line : List ℕ) (more : List (List ℕ)) (line_no code : ℕ) (buf : Text) (l : Locals)
      (m : Machine)
      → {r : ℕ × Machine} → load_line_s19 (fgets line buf) 0 l m ≡ r
      → load_lines (line ∷ more) line_no code buf l m ≡ elim (r.0 == 0) [
        | true ↦ load_lines more (line_no + 1) r.0 (fgets line buf) l r.1
        | false ↦ (r.0, (report (bad_line line_no) r.1).1)
      ]
  unfolding load_lines
  load_lines_step line more line_no code buf l m loaded =
      ap
        (λ (r : ℕ × Machine). elim (r.0 == 0) [
          | true ↦ load_lines more (line_no + 1) r.0 (fgets line buf) l r.1
          | false ↦ (r.0, (report (bad_line line_no) r.1).1)
        ])
        loaded

  -- The result after good lines: that of the last, or what it was.
  abbrev code_after : List Line → ℕ → ℕ
  code_after [] code = code
  code_after (line ∷ lines) code = code_after lines 0

  code_after_good : (lines : List Line) → code_after lines 0 ≡ 0
  code_after_good [] = refl
  code_after_good (line ∷ lines) = code_after_good lines

  -- Good lines leave the buffer in some state and go on.
  load_lines-texts :
      (lines : List Line) (more : List (List ℕ)) (line_no code : ℕ) (buf : Text) (l : Locals)
      (m : Machine)
      → IsScanf c
      → All IsLine lines
      → (buf' : Text) × (load_lines (texts lines ++ more) line_no code buf l m
          ≡ load_lines more
              (line_no + length lines)
              (code_after lines code)
              buf'
              l
              (with_ram (stored_all lines m.mem.ram) m))
  unfolding load_lines
  load_lines-texts [] more line_no code buf l m law ok =
      let here : line_no + 0 ≡ line_no = omega arith in (buf, rw here refl)
  load_lines-texts (line ∷ lines) more line_no code buf l m law (good, ok) =
      let text' = fgets (text line) buf in
      let m' = with_ram (stored line m.mem.ram) m in
      let loaded = load_line-text line buf l m law good in
      let (buf', rest) = load_lines-texts lines more (line_no + 1) 0 text' l m' law ok in
      let count : line_no + 1 + length lines ≡ line_no + suc (length lines) = omega arith in
      (
        buf',
        load_lines_step (text line) (texts lines ++ more) line_no code buf l m loaded
            ∙ rest
            ∙ rw count refl,
      )

  -- A file of S0, S1 and S9 lines whose S1 records are well formed loads: the result is 0, and
  -- nothing but the bytes of the records, each at its address, has changed.
  pub load_file-texts :
      (line : Line) (lines : List Line) (errno : ℕ) (buf : Text) (l : Locals) (m : Machine)
      → IsScanf c
      → All IsLine (line ∷ lines)
      → load_file (some (texts (line ∷ lines))) errno buf l m
        ≡ (0, with_ram (stored_all (line ∷ lines) m.mem.ram) m)
  unfolding load_file load_lines
  load_file-texts line lines errno buf l m law ok =
      let all = load_lines-texts (line ∷ lines) [] 1 l.errcode buf l m law ok in
      subst
        (λ ls.
          load_lines ls 1 l.errcode buf l m
          ≡ (code_after lines 0, with_ram (stored_all (line ∷ lines) m.mem.ram) m))
        (append-nil (texts (line ∷ lines))) all.1
      ∙ rw (code_after_good lines) refl

  -- At the first record with a wrong checksum the load stops with -1 and a message that names the
  -- line. The bytes of that record are in memory all the same; the lines behind it are not read.
  pub load_file_stops :
      (lines : List Line) (addr : ℕ) (values : List ℕ) (csum : ℕ) (rest : List ℕ)
      (more : List (List ℕ)) (errno : ℕ) (buf : Text) (l : Locals) (m : Machine)
      → IsScanf c
      → All IsLine lines
      → Fits addr values
      → csum < 256
      → csum ≢ right_sum addr values
      → let ram = store addr values (stored_all lines m.mem.ram) in
        load_file (some (texts lines ++ (data_line addr values csum rest ∷ more))) errno buf l m ≡ (
          failed,
          record (with_ram ram m) {
            messages =
                bad_line (1 + length lines) ∷ checksum (right_sum addr values) csum ∷ m.messages;
          },
        )
  unfolding load_file load_lines report
  load_file_stops lines addr values csum rest more errno buf l m law ok (all, size, inside, small)
        byte wrong =
      let line = data_line addr values csum rest in
      let right = right_sum addr values in
      let (buf', good) = load_lines-texts lines (line ∷ more) 1 l.errcode buf l m law ok in
      let m' = with_ram (stored_all lines m.mem.ram) m in
      let m'' = with_ram (store addr values m'.mem.ram) m' in
      let differ : csum == right ≡ false = ground arith in
      let loaded =
        load_line_s19_lem addr values csum (fgets line buf') l m' law all size inside small byte (
          Reads-front (record_line addr values csum) rest (fgets line buf') 0
            (Reads-fgets line buf')) in
      let refused : load_line_s19 (fgets line buf') 0 l m'
          ≡ (failed, (report (checksum right csum) m'').1) =
        loaded ∙ rw differ refl in
      good
      ∙ load_lines_step line more (1 + length lines) (code_after lines l.errcode) buf' l m' refused
