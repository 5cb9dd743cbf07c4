-- ===== src/Symtab.antt =====
-- src/base/symtab.c: the symbol table. A name is a `char` array of `maxsymsize` elements, which
-- `strncpy` leaves without a null when the text is as long; a text given to the table is the list of
-- its characters before the null.
pub mod Entries
pub mod Files
use sim68xx.Common.{
  ℕ, zero, suc, ◌+◌, ◌-◌, ◌^◌, ltb, leb, ◌&&◌, ◌||◌, ◌==◌, Bool, true, false, if◌then◌else◌, Option,
  none, some, List, [], ◌∷◌, ◌++◌, u32,
}
use sim68xx.Common.Lists.{get_or}
use sim68xx.Machine.{update}

abbrev pub maxsymsize : ℕ
maxsymsize = 32

abbrev pub maxsyms : ℕ
maxsyms = 1024

-- `symtab`, with the fields of `syms` as two arrays.
pub record Symtab : Type 0 where
  pub nsymbols : ℕ
  pub value : ℕ → ℕ
  pub name : ℕ → ℕ → ℕ

-- `strncpy (name, text, MAXSYMSIZE)`: the characters, then nulls, within the array.
abbrev pub strncpy : List ℕ → ℕ → ℕ
strncpy text j = get_or text j 0

-- `sym_add`: 0, or -1 if the table is full.
unfoldable pub sym_add : ℕ → List ℕ → Symtab → ℕ × Symtab
sym_add v text t =
    if ltb t.nsymbols maxsyms
    then (
      0,
      record t {
        nsymbols = t.nsymbols + 1;
        value = update t.value t.nsymbols (u32 v);
        name = λ i. if i == t.nsymbols then strncpy text else t.name i;
      },
    )
    else (2 ^ 32 - 1, t)

-- The loop of `sym_find_name`, from index `i` on with `left` symbols to go: the index found.
unfoldable pub find_value : ℕ → ℕ → ℕ → Symtab → Option ℕ
find_value zero i v t = none
find_value (suc left) i v t =
    let rest = find_value left (i + 1) v t in if t.value i == v then some i else rest

-- `sym_find_name`: the name, or none.
unfoldable pub sym_find_name : ℕ → Symtab → Option (ℕ → ℕ)
unfolding find_value
sym_find_name v t = elim (find_value t.nsymbols 0 v t) [ some i ↦ some (t.name i) | none ↦ none ]

-- What `strcmp (text, name) == 0` gives, or that it reads behind the array `name`.
pub data Compared : Type 0 where
  equal differ past_end : Compared

unfoldable pub strcmp : List ℕ → (ℕ → ℕ) → ℕ → Compared
strcmp [] array j = if j == maxsymsize then past_end else if array j == 0 then equal else differ
strcmp (c ∷ cs) array j =
    let rest = strcmp cs array (j + 1) in
    if j == maxsymsize then past_end else if array j == c then rest else differ

-- The result of `sym_find_value`: 1 with the value, or 0.
pub data Lookup : Type 0 where
  found : ℕ → Lookup
  missing undefined : Lookup

unfoldable pub find_text : ℕ → ℕ → List ℕ → Symtab → Lookup
unfolding strcmp
find_text zero i text t = missing
find_text (suc left) i text t =
    let rest = find_text left (i + 1) text t in
    elim (strcmp text (t.name i) 0) [
      | equal ↦ found (t.value i)
      | differ ↦ rest
      | past_end ↦ undefined
    ]

unfoldable pub sym_find_value : List ℕ → Symtab → Lookup
unfolding find_text
sym_find_value text t = find_text t.nsymbols 0 text t

-- `sscanf` of the C library on a line: `" %04x %s "` and `"%s %04x"`, when both items convert.
pub record SymbolScanf : Type 0 where
  pub scan_value_name : List ℕ → Option (ℕ × List ℕ)
  pub scan_name_value : List ℕ → Option (List ℕ × ℕ)

-- `isspace (buf[0])`; an empty line has a null there.
abbrev pub starts_with_space : List ℕ → Bool
starts_with_space [] = false
starts_with_space (c ∷ cs) = c == b' ' || leb 9 c && leb c 13

-- The result of `sym_add` is dropped.
abbrev pub add_symbol : Option (ℕ × List ℕ) → Symtab → Symtab
add_symbol none t = t
add_symbol (some (v, text)) t = (sym_add v text t).1

module _ ⦃s : SymbolScanf⦄ where
  -- The symbol that a line of a .map file, and of a .sym file, adds.
  abbrev pub aslink_symbol : List ℕ → Option (ℕ × List ℕ)
  aslink_symbol line = if starts_with_space line then s.scan_value_name line else none

  abbrev pub asm68xx_symbol : List ℕ → Option (ℕ × List ℕ)
  asm68xx_symbol line =
      if starts_with_space line
      then none
      else elim (s.scan_name_value line) [ some (text, v) ↦ some (v, text) | none ↦ none ]

  unfoldable pub read_aslink_file : List (List ℕ) → Symtab → Symtab
  unfolding sym_add
  read_aslink_file [] t = t
  read_aslink_file (line ∷ lines) t = read_aslink_file lines (add_symbol (aslink_symbol line) t)

  unfoldable pub read_asm68xx_file : List (List ℕ) → Symtab → Symtab
  unfolding sym_add
  read_asm68xx_file [] t = t
  read_asm68xx_file (line ∷ lines) t = read_asm68xx_file lines (add_symbol (asm68xx_symbol line) t)

-- The text in front of the last dot, if there is one.
unfoldable pub base_name : List ℕ → Option (List ℕ)
base_name [] = none
base_name (c ∷ cs) = elim (base_name cs) [
  | some base ↦ some (c ∷ base)
  | none ↦ if c == b'.' then some [] else none
]

module _ ⦃s : SymbolScanf⦄ where
  -- `sym_readfile` with what `fopen` gives for a name: the lines of the file, or none. There is no
  -- result where the C function has none: `ass` is uninitialised when a symbol file is named, and a
  -- load file without a dot makes it take the length of a null pointer.
  unfoldable pub sym_readfile :
      (List ℕ → Option (List (List ℕ))) → List ℕ → Option (List ℕ) → Symtab → Option (ℕ × Symtab)
  unfolding base_name read_aslink_file read_asm68xx_file
  sym_readfile fopen loadfile (some symfile) t = elim (fopen symfile) [
    | some lines ↦ none
    | none ↦ some (2 ^ 32 - 1, t)
  ]
  sym_readfile fopen loadfile none t = elim (base_name loadfile) [
    | none ↦ none
    | some base ↦ elim (fopen (base ++ (b'.' ∷ b'm' ∷ b'a' ∷ b'p' ∷ []))) [
      | some lines ↦ some (0, read_aslink_file lines t)
      | none ↦ elim (fopen (base ++ (b'.' ∷ b's' ∷ b'y' ∷ b'm' ∷ []))) [
        | some lines ↦ some (0, read_asm68xx_file lines t)
        | none ↦ some (2 ^ 32 - 1, t)
      ]
    ]
  ]
