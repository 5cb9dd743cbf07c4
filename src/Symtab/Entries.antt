-- ===== src/Symtab/Entries.antt =====
-- The table as a list of entries, and what adding and finding are on the list.
use sim68xx.Common.{
  ℕ, zero, suc, ◌+◌, ◌-◌, ◌^◌, ◌≤◌, ◌<◌, ltb, ◌==◌, Bool, true, false, if◌then◌else◌, List, [], ◌∷◌,
  ◌++◌, u32, All, ◌≡◌, refl, ap, ◌∙◌, arith, Bool-cases, inl, inr, ◌⊎◌,
}
use sim68xx.Common.Lists.{length, get_or}
use sim68xx.Symtab.{
  Symtab, maxsyms, maxsymsize, sym_add, strcmp, equal, differ, find_text, Lookup, found, missing,
  sym_find_value,
}

-- A name that fits the array with its null, and has none inside.
abbrev pub IsName : List ℕ → Type 0
IsName text = (length text < maxsymsize) × All (λ c. 0 < c) text

abbrev pub Entry : Type 0
Entry = List ℕ × ℕ

-- The symbols from index `i` on are the entries.
abbrev pub HoldsFrom : ℕ → Symtab → List Entry → Type 0
HoldsFrom i t [] = t.nsymbols ≡ i
HoldsFrom i t ((text, v) ∷ entries) =
    IsName text
    × ((j : ℕ) → t.name i j ≡ get_or text j 0)
    × (t.value i ≡ v)
    × HoldsFrom (i + 1) t entries

abbrev pub same_text : List ℕ → List ℕ → Bool
same_text [] [] = true
same_text [] (d ∷ ds) = false
same_text (c ∷ cs) [] = false
same_text (c ∷ cs) (d ∷ ds) = if d == c then same_text cs ds else false

-- The value of the first entry with the name.
abbrev pub lookup : List ℕ → List Entry → Lookup
lookup text [] = missing
lookup text ((other, v) ∷ entries) = if same_text text other then found v else lookup text entries

pub HoldsFrom-count :
    (i : ℕ) (t : Symtab) (es : List Entry) → HoldsFrom i t es → t.nsymbols ≡ i + length es
HoldsFrom-count i t [] h = omega arith
HoldsFrom-count i t (e ∷ es) h = omega (arith, HoldsFrom-count (i + 1) t es h.3)

first_of : (array : ℕ → ℕ) (j v : ℕ) → array (j + 0) ≡ v → array j ≡ v
first_of array j v h = let same : j + 0 ≡ j = omega arith in rw same at h

-- `strcmp` decides equality of texts where a null fits.
pub strcmp_lem :
    (text other : List ℕ) (array : ℕ → ℕ) (j : ℕ)
    → All (λ c. 0 < c) text
    → All (λ c. 0 < c) other
    → j + length other < maxsymsize
    → ((k : ℕ) → array (j + k) ≡ get_or other k 0)
    → strcmp text array j ≡ (if same_text text other then equal else differ)
unfolding strcmp
strcmp_lem [] [] array j p q room h = ground (arith, first_of array j 0 (h 0))
strcmp_lem [] (d ∷ ds) array j p q room h = ground (arith, first_of array j d (h 0), q.0)
strcmp_lem (c ∷ cs) [] array j p q room h = ground (arith, first_of array j 0 (h 0), p.0)
strcmp_lem (c ∷ cs) (d ∷ ds) array j (p, ps) (q, qs) room h =
    let tail =
      λ (k : ℕ). let next : j + 1 + k ≡ j + suc k = omega arith in ap array next ∙ h (suc k) in
    ground
      (arith, first_of array j d (h 0), strcmp_lem cs ds array (j + 1) ps qs (omega arith) tail)

find_text_lem :
    (text : List ℕ) (left i : ℕ) (t : Symtab) (es : List Entry)
    → IsName text
    → HoldsFrom i t es
    → length es ≡ left
    → find_text left i text t ≡ lookup text es
unfolding find_text
find_text_lem text zero i t [] name h size = refl
find_text_lem text zero i t (e ∷ es) name h size = absurd (omega arith)
find_text_lem text (suc left) i t [] name h size = absurd (omega arith)
find_text_lem text (suc left) i t ((other, v) ∷ es) name ((room, plain), chars, at, rest) size =
    let compared =
      strcmp_lem text other (t.name i) 0 name.1 plain (omega arith)
        (λ k. let start : 0 + k ≡ k = omega arith in ap (t.name i) start ∙ chars k) in
    let behind = find_text_lem text left (i + 1) t es name rest (omega arith) in
    rw (compared, find_text)
      (elim (Bool-cases (same_text text other)) [
        | inl e ↦ rw e (ap found at)
        | inr e ↦ rw e behind
      ])

-- In a table whose names fit, a name that fits is found with the value of the first symbol of that
-- name, and else is missing.
pub sym_find_value_refines :
    (text : List ℕ) (t : Symtab) (es : List Entry)
    → IsName text
    → HoldsFrom 0 t es
    → sym_find_value text t ≡ lookup text es
unfolding sym_find_value
sym_find_value_refines text t es name h =
    find_text_lem text t.nsymbols 0 t es name h (omega (arith, HoldsFrom-count 0 t es h))

-- A table with one more symbol.
pub HoldsFrom-append :
    (i v : ℕ) (text : List ℕ) (t : Symtab) (es : List Entry)
    → IsName text
    → HoldsFrom i t es
    → t.nsymbols < maxsyms
    → HoldsFrom i (sym_add v text t).1 (es ++ ((text, u32 v) ∷ []))
unfolding sym_add
HoldsFrom-append i v text t [] name h room =
    let fits : ltb t.nsymbols maxsyms ≡ true = ground arith in
    let own : i == t.nsymbols ≡ true = ground arith in
    rw fits (name, (λ j. rw own refl), ground arith, ap (λ (n : ℕ). n + 1) h)
HoldsFrom-append i v text t ((other, w) ∷ es) name (n, chars, at, rest) room =
    let fits : ltb t.nsymbols maxsyms ≡ true = ground arith in
    let size = HoldsFrom-count (i + 1) t es rest in
    let old : i == t.nsymbols ≡ false = ground arith in
    let behind = HoldsFrom-append (i + 1) v text t es name rest room in
    rw fits (n, (λ j. rw old (chars j)), ground arith, rw fits at behind)

-- Adding a name that fits returns 0 and puts the symbol behind the others while there are fewer than
-- 1024; else it returns -1 and changes nothing. The limit is kept.
pub sym_add_refines :
    (v : ℕ) (text : List ℕ) (t : Symtab) (es : List Entry)
    → IsName text
    → HoldsFrom 0 t es
    → t.nsymbols ≤ maxsyms
    → let (r, t') = sym_add v text t in
      (t'.nsymbols ≤ maxsyms)
      × (((length es < maxsyms) × (r ≡ 0) × HoldsFrom 0 t' (es ++ ((text, u32 v) ∷ [])))
          ⊎ ((length es ≡ maxsyms) × (r ≡ 2 ^ 32 - 1) × (t' ≡ t)))
unfolding sym_add
sym_add_refines v text t es name h limit =
    let size = HoldsFrom-count 0 t es h in
    elim (Bool-cases (ltb t.nsymbols maxsyms)) [
      | inl e ↦
          let room : t.nsymbols < maxsyms = ground arith in
          let behind = HoldsFrom-append 0 v text t es name h room in
          rw e (omega arith, inl (omega arith, refl, rw e at behind))
      | inr e ↦ rw e (limit, inr (ground arith, refl, refl))
    ]
