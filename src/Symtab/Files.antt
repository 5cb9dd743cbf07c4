-- ===== src/Symtab/Files.antt =====
-- Whole symbol files, and names that do not fit.
use sim68xx.Common.{
  ℕ, zero, suc, ◌+◌, ◌≤◌, ◌<◌, ltb, ◌==◌, true, false, none, some, List, [], ◌∷◌, ◌++◌, u32, All,
  ◌≡◌, refl, sym, ap, ◌∙◌, arith, Bool-cases, inl, inr, ◌⊎◌,
}
use mathlib.Core.List.{append-nil, append_assoc}
use sim68xx.Common.Lists.{length, get_or}
use sim68xx.Symtab.{
  Symtab, maxsyms, maxsymsize, sym_add, strcmp, differ, past_end, find_text, undefined,
  sym_find_value, SymbolScanf, starts_with_space, read_asm68xx_file,
}
use sim68xx.Symtab.Entries.{
  IsName, Entry, HoldsFrom, same_text, strcmp_lem, HoldsFrom-count, HoldsFrom-append,
}

-- A comparison with the text itself, when no null was stored.
strcmp_self :
    (cs : List ℕ) (array : ℕ → ℕ) (j : ℕ)
    → j ≤ maxsymsize
    → maxsymsize ≤ j + length cs
    → ((k : ℕ) → array (j + k) ≡ get_or cs k 0)
    → strcmp cs array j ≡ past_end
unfolding strcmp
strcmp_self [] array j below long chars = ground arith
strcmp_self (c ∷ cs) array j below long chars = elim (Bool-cases (j == maxsymsize)) [
  | inl e ↦ rw e refl
  | inr e ↦
      let here : j + 0 ≡ j = omega arith in
      let first : array j ≡ c = rw here at (chars 0) in
      let same : array j == c ≡ true = ground arith in
      let tail = λ (k : ℕ).
        let next : j + 1 + k ≡ j + suc k = omega arith in ap array next ∙ chars (suc k) in
      let inside : j + 1 ≤ maxsymsize = ground arith in
      rw e (rw same (strcmp_self cs array (j + 1) inside (omega arith) tail))
]

longer_differs : (text other : List ℕ) → length other < length text → same_text text other ≡ false
longer_differs [] other h = absurd (omega arith)
longer_differs (c ∷ cs) [] h = refl
longer_differs (c ∷ cs) (d ∷ ds) h = ground (arith, longer_differs cs ds (omega arith))

overlong_loop :
    (text : List ℕ) (left i : ℕ) (t t' : Symtab) (es : List Entry)
    → All (λ c. 0 < c) text
    → maxsymsize ≤ length text
    → HoldsFrom i t es
    → ((k : ℕ) → k < t.nsymbols → t'.name k ≡ t.name k)
    → ((j : ℕ) → t'.name t.nsymbols j ≡ get_or text j 0)
    → left ≡ length es + 1
    → find_text left i text t' ≡ undefined
unfolding find_text
overlong_loop text zero i t t' es plain long h kept new size = absurd (omega arith)
overlong_loop text (suc left) i t t' [] plain long h kept new size =
    let chars = λ (k : ℕ).
      let start : 0 + k ≡ k = omega arith in
      ap (t'.name i) start ∙ ap (λ (n : ℕ). t'.name n k) (sym h) ∙ new k in
    rw (strcmp_self text (t'.name i) 0 (omega arith) (omega arith) chars, find_text) refl
overlong_loop text (suc left) i t t' ((other, v) ∷ es) plain long ((room, good), chars, at, rest)
      kept new size =
    let count = HoldsFrom-count (i + 1) t es rest in
    let name_i : t'.name i ≡ t.name i = kept i (omega arith) in
    let compared =
      strcmp_lem text other (t.name i) 0 plain good (omega arith)
        (λ k. let start : 0 + k ≡ k = omega arith in ap (t.name i) start ∙ chars k) in
    let differs : same_text text other ≡ false = longer_differs text other (omega arith) in
    let unlike : strcmp text (t'.name i) 0 ≡ differ =
      ap (λ (a : ℕ → ℕ). strcmp text a 0) name_i ∙ compared ∙ rw differs refl in
    rw (unlike, find_text)
      (overlong_loop text left (i + 1) t t' es plain long rest kept new (omega arith))

-- A name of 32 characters or more is stored without a null: to look it up after it was added to a
-- table with room, whose names fit, reads behind the array.
pub sym_find_value_overlong :
    (v : ℕ) (text : List ℕ) (t : Symtab) (es : List Entry)
    → All (λ c. 0 < c) text
    → maxsymsize ≤ length text
    → HoldsFrom 0 t es
    → t.nsymbols < maxsyms
    → sym_find_value text (sym_add v text t).1 ≡ undefined
unfolding sym_find_value sym_add
sym_find_value_overlong v text t es plain long h room =
    let fits : ltb t.nsymbols maxsyms ≡ true = ground arith in
    let count = HoldsFrom-count 0 t es h in
    let own : t.nsymbols == t.nsymbols ≡ true = ground arith in
    rw fits (
      overlong_loop text (t.nsymbols + 1) 0 t _ es plain long h
        (λ k below. let old : k == t.nsymbols ≡ false = ground arith in rw old refl)
        (λ j. rw own refl) (omega arith))

length-append : (es fs : List Entry) → length (es ++ fs) ≡ length es + length fs
length-append [] fs = omega arith
length-append (e ∷ es) fs = omega (arith, length-append es fs)

abbrev pub IsSymbol : Entry → Type 0
IsSymbol (text, v) = IsName text

-- The white space of `isspace` in the C locale.
abbrev pub IsSpace : ℕ → Type 0
IsSpace c = (c ≡ b' ') ⊎ ((9 ≤ c) × (c ≤ 13))

-- The first character of a line is white space.
abbrev pub IsIndented : List ℕ → Type 0
IsIndented [] = ⊥
IsIndented (c ∷ cs) = IsSpace c

-- What the lines of a file list: some have a symbol each, the others are passed over.
pub data Lists (Has : List ℕ → ℕ → List ℕ → Type 0) (Lacks : List ℕ → Type 0)
    : List (List ℕ) → List Entry → Type 0 where
  ended : Lists Has Lacks [] []
  listed :
      {line : List ℕ} {v : ℕ} {text : List ℕ} {lines : List (List ℕ)} {es : List Entry}
      → Has line v text
      → Lists Has Lacks lines es
      → Lists Has Lacks (line ∷ lines) ((text, u32 v) ∷ es)
  passed :
      {line : List ℕ} {lines : List (List ℕ)} {es : List Entry}
      → Lacks line
      → Lists Has Lacks lines es
      → Lists Has Lacks (line ∷ lines) es

-- A reader that adds the symbols of such lines, line after line.
record Adds (Has : List ℕ → ℕ → List ℕ → Type 0) (Lacks : List ℕ → Type 0)
    (read : List (List ℕ) → Symtab → Symtab) : Type 0 where
  at_end : (t : Symtab) → read [] t ≡ t
  at_symbol :
      (line : List ℕ) (v : ℕ) (text : List ℕ) (lines : List (List ℕ)) (t : Symtab)
      → Has line v text
      → read (line ∷ lines) t ≡ read lines (sym_add v text t).1
  at_other :
      (line : List ℕ) (lines : List (List ℕ)) (t : Symtab)
      → Lacks line
      → read (line ∷ lines) t ≡ read lines t

Adds-HoldsFrom :
    {Has : List ℕ → ℕ → List ℕ → Type 0} {Lacks : List ℕ → Type 0}
    {read : List (List ℕ) → Symtab → Symtab} {lines : List (List ℕ)} {new : List Entry} (t : Symtab)
    (es : List Entry)
    → Adds Has Lacks read
    → Lists Has Lacks lines new
    → HoldsFrom 0 t es
    → All IsSymbol new
    → length es + length new ≤ maxsyms
    → HoldsFrom 0 (read lines t) (es ++ new)
Adds-HoldsFrom t es adds ended h names room = rw (adds.at_end t) (rw (append-nil es) h)
Adds-HoldsFrom t es adds (listed {line} {v} {text} {lines} {es = new} has rest) h (name, names)
      room =
    let count = HoldsFrom-count 0 t es h in
    let added = HoldsFrom-append 0 v text t es name h (omega arith) in
    let longer = length-append es ((text, u32 v) ∷ []) in
    rw (adds.at_symbol line v text lines t has) (
      rw (← append_assoc es ((text, u32 v) ∷ []) new) (
        Adds-HoldsFrom (sym_add v text t).1 (es ++ ((text, u32 v) ∷ [])) adds rest added names
          (omega arith)))
Adds-HoldsFrom t es adds (passed {line} {lines} lacks rest) h names room =
    rw (adds.at_other line lines t lacks) (Adds-HoldsFrom t es adds rest h names room)

IsIndented-starts : (line : List ℕ) → IsIndented line → starts_with_space line ≡ true
IsIndented-starts [] h = absurd h
IsIndented-starts (c ∷ cs) h = ground arith

not_indented : (line : List ℕ) → ¬ IsIndented line → starts_with_space line ≡ false
not_indented [] h = refl
not_indented (c ∷ cs) h = elim (Bool-cases (starts_with_space (c ∷ cs))) [
  | inl e ↦ absurd (h (ground arith))
  | inr e ↦ e
]

module _ ⦃s : SymbolScanf⦄ where
  -- A line of a .map file has a symbol when it is indented and both items convert.
  abbrev pub HasMapSymbol : List ℕ → ℕ → List ℕ → Type 0
  HasMapSymbol line v text = IsIndented line × (s.scan_value_name line ≡ some (v, text))

  abbrev pub LacksMapSymbol : List ℕ → Type 0
  LacksMapSymbol line = (¬ IsIndented line) ⊎ (s.scan_value_name line ≡ none)

  -- A line of a .sym file has a symbol when it is not indented and both items convert.
  abbrev HasSymSymbol : List ℕ → ℕ → List ℕ → Type 0
  HasSymSymbol line v text = (¬ IsIndented line) × (s.scan_name_value line ≡ some (text, v))

  abbrev LacksSymSymbol : List ℕ → Type 0
  LacksSymSymbol line = IsIndented line ⊎ (s.scan_name_value line ≡ none)

  asm68xx-Adds : Adds HasSymSymbol LacksSymSymbol read_asm68xx_file
  unfolding read_asm68xx_file
  asm68xx-Adds = record {
    at_end = λ t. refl;
    at_symbol = λ line v text lines t h. rw (not_indented line h.0) (rw h.1 refl);
    at_other = λ line lines t h. elim h [
      | inl out ↦ rw (IsIndented-starts line out) refl
      | inr bad ↦ elim (Bool-cases (starts_with_space line)) [
        | inl e ↦ rw e refl
        | inr e ↦ rw e (rw bad refl)
      ]
    ];
  }

  -- The same for a .sym file and its lines that are not indented.
  read_asm68xx_file_refines :
      (lines : List (List ℕ)) (new : List Entry) (t : Symtab) (es : List Entry)
      → Lists HasSymSymbol LacksSymSymbol lines new
      → HoldsFrom 0 t es
      → All IsSymbol new
      → length es + length new ≤ maxsyms
      → HoldsFrom 0 (read_asm68xx_file lines t) (es ++ new)
  read_asm68xx_file_refines lines new t es lists h names room =
      Adds-HoldsFrom t es asm68xx-Adds lists h names room
