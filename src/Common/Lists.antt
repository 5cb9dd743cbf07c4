-- ===== src/Common/Lists.antt =====
-- Lists of numbers with lengths on the native ℕ.
use sim68xx.Common.{ℕ, zero, suc, ◌+◌, List, [], ◌∷◌, All}

abbrev pub length {ℓ} : {A : Type ℓ} → List A → ℕ
length [] = 0
length (x ∷ xs) = suc (length xs)

abbrev pub total : List ℕ → ℕ
total [] = 0
total (n ∷ ns) = n + total ns

abbrev pub tail {ℓ} : {A : Type ℓ} → List A → List A
tail [] = []
tail (x ∷ xs) = xs

-- The first `n` elements, or all if there are fewer.
abbrev pub take {ℓ} : {A : Type ℓ} → ℕ → List A → List A
take n [] = []
take zero (x ∷ xs) = []
take (suc n) (x ∷ xs) = x ∷ take n xs

-- The element at an index, or `d` past the end.
abbrev pub get_or {ℓ} : {A : Type ℓ} → List A → ℕ → A → A
get_or [] i d = d
get_or (x ∷ xs) zero d = x
get_or (x ∷ xs) (suc i) d = get_or xs i d

-- What is left without the first `n` elements.
abbrev pub drop {ℓ} : {A : Type ℓ} → ℕ → List A → List A
drop zero xs = xs
drop (suc n) [] = []
drop (suc n) (x ∷ xs) = drop n xs

-- What holds of all elements and of the default holds of what is found.
pub get_or-All {ℓ κ} :
    {A : Type ℓ} (P : A → Type κ) (l : List A) (i : ℕ) (d : A) → All P l → P d → P (get_or l i d)
get_or-All P [] i d h hd = hd
get_or-All P (x ∷ xs) zero d (p, h) hd = p
get_or-All P (x ∷ xs) (suc i) d (p, h) hd = get_or-All P xs i d h hd

-- The elements of two lists of one length are related one by one.
abbrev pub Paired {ℓ} : {A B : Type ℓ} → (A → B → Type 0) → List A → List B → Type 0
Paired P [] [] = Unit
Paired P (x ∷ xs) (y ∷ ys) = P x y × Paired P xs ys
Paired P _ _ = ⊥

pub get_or-Paired {ℓ} :
    {A B : Type ℓ} (P : A → B → Type 0) (xs : List A) (ys : List B) (i : ℕ) (d : A) (e : B)
    → Paired P xs ys
    → P d e
    → P (get_or xs i d) (get_or ys i e)
get_or-Paired P [] [] i d e h hd = hd
get_or-Paired P [] (y ∷ ys) i d e h hd = absurd h
get_or-Paired P (x ∷ xs) [] i d e h hd = absurd h
get_or-Paired P (x ∷ xs) (y ∷ ys) zero d e (p, h) hd = p
get_or-Paired P (x ∷ xs) (y ∷ ys) (suc i) d e (p, h) hd = get_or-Paired P xs ys i d e h hd
