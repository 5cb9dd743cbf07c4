-- ===== src/Tests/Symbols.antt =====
-- The symbol table's theorems at small tables.
use sim68xx.Common.{
  ℕ, ◌+◌, ◌-◌, ◌^◌, ◌≤◌, ◌<◌, ◌≡◌, ◌⊎◌, ◌==◌, if◌then◌else◌, refl, arith, none, some, List, [], ◌∷◌,
  All,
}
use sim68xx.Common.Lists.{length, get_or}
use sim68xx.Symtab.{
  Symtab, maxsyms, strncpy, sym_add, sym_find_value, found, undefined, SymbolScanf,
}
use sim68xx.Symtab.Entries.{HoldsFrom, IsName, Entry, sym_find_value_refines, sym_add_refines}
use sim68xx.Symtab.Files.{sym_find_value_overlong}

abbrev main : List ℕ
main = b'm' ∷ b'a' ∷ b'i' ∷ b'n' ∷ []

abbrev loop : List ℕ
loop = b'l' ∷ b'o' ∷ b'o' ∷ b'p' ∷ []

-- Two symbols.
abbrev two : Symtab
two = record {
  nsymbols = 2;
  value = λ i. 0xf000 + i;
  name = λ i. if i == 0 then strncpy main else strncpy loop;
}

abbrev entries : List Entry
entries = (main, 0xf000) ∷ (loop, 0xf001) ∷ []

main-IsName : IsName main
main-IsName = (omega arith, (omega arith, (omega arith, (omega arith, (omega arith, tt)))))

loop-IsName : IsName loop
loop-IsName = (omega arith, (omega arith, (omega arith, (omega arith, (omega arith, tt)))))

two-HoldsFrom : HoldsFrom 0 two entries
two-HoldsFrom = (main-IsName, (λ j. refl), refl, (loop-IsName, (λ j. refl), refl, refl))

sym_find_value_refines_example : sym_find_value loop two ≡ found 0xf001
sym_find_value_refines_example = sym_find_value_refines loop two entries loop-IsName two-HoldsFrom

sym_add_refines_example :
    let (r, t') = sym_add 7 main two in
    (t'.nsymbols ≤ maxsyms)
    × (((length entries < maxsyms)
          × (r ≡ 0)
          × HoldsFrom 0 t' ((main, 0xf000) ∷ (loop, 0xf001) ∷ (main, 7) ∷ []))
        ⊎ ((length entries ≡ maxsyms) × (r ≡ 2 ^ 32 - 1) × (t' ≡ two)))
sym_add_refines_example = sym_add_refines 7 main two entries main-IsName two-HoldsFrom (omega arith)

-- 32 characters.
abbrev long_name : List ℕ
long_name =
    1 ∷ 2 ∷ 3 ∷ 4 ∷ 5 ∷ 6 ∷ 7 ∷ 8 ∷ 9 ∷ 10 ∷ 11 ∷ 12 ∷ 13 ∷ 14 ∷ 15 ∷ 16 ∷ 17 ∷ 18 ∷ 19 ∷ 20 ∷ 21
    ∷ 22 ∷ 23 ∷ 24 ∷ 25 ∷ 26 ∷ 27 ∷ 28 ∷ 29 ∷ 30 ∷ 31 ∷ 32 ∷ []

long_name_plain : All (λ c. 0 < c) long_name
long_name_plain = ground arith

sym_find_value_overlong_example : sym_find_value long_name (sym_add 7 long_name two).1 ≡ undefined
sym_find_value_overlong_example =
    sym_find_value_overlong 7 long_name two entries long_name_plain (omega arith) two-HoldsFrom
      (omega arith)

-- A scanner that reads one digit and one character.
instance scanf : SymbolScanf
scanf = record {
  scan_value_name = λ line. some (get_or line 1 0 - b'0', get_or line 2 0 ∷ []);
  scan_name_value = λ line. none;
}
