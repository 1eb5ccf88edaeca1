-- ===== src/Cdb/Addition/Order.antt =====
-- The order of the sort fields of src/storage/binary/cdb_add.rs, and a stable sort by it.
use libopod.Base.{ℕ, ◌≡◌, refl, ap₂, ◌∙◌, List, [], ◌∷◌, arith}
use libopod.Base.Tests.{ltb, ◌==◌, if◌then◌else◌}

pub data Ordering : Type 0 where
  less equal greater : Ordering

pub data SortField : Type 0 where
  text : List ℕ → SortField
  number : ℕ → SortField

-- the first difference decides
abbrev pub then_with : Ordering → Ordering → Ordering
then_with less o = less
then_with equal o = o
then_with greater o = greater

abbrev pub compare_numbers : ℕ → ℕ → Ordering
compare_numbers a b = if ltb a b then less else if a == b then equal else greater

abbrev pub compare_text : List ℕ → List ℕ → Ordering
compare_text [] [] = equal
compare_text [] (y ∷ ys) = less
compare_text (x ∷ xs) [] = greater
compare_text (x ∷ xs) (y ∷ ys) = then_with (compare_numbers x y) (compare_text xs ys)

-- a text is less than a number
abbrev pub compare_field : SortField → SortField → Ordering
compare_field (text a) (text b) = compare_text a b
compare_field (text a) (number b) = less
compare_field (number a) (text b) = greater
compare_field (number a) (number b) = compare_numbers a b

unfoldable pub compare_fields : List SortField → List SortField → Ordering
compare_fields [] [] = equal
compare_fields [] (y ∷ ys) = less
compare_fields (x ∷ xs) [] = greater
compare_fields (x ∷ xs) (y ∷ ys) = then_with (compare_field x y) (compare_fields xs ys)

abbrev pub Entry : Type 0
Entry = List SortField × ℕ

-- An entry is placed before the first one that is not less.
abbrev pub insert_by :
    (List SortField → List SortField → Ordering) → Entry → List Entry → List Entry
insert_by compare x [] = x ∷ []
insert_by compare x (y ∷ ys) =
    let rest = insert_by compare x ys in
    elim (compare x.0 y.0) as (λ _. List Entry) [
      | less ↦ x ∷ y ∷ ys
      | equal ↦ x ∷ y ∷ ys
      | greater ↦ y ∷ rest
    ]

-- a stable sort by the keys, as `slice::sort_by`
unfoldable pub sort_by : (List SortField → List SortField → Ordering) → List Entry → List Entry
sort_by compare [] = []
sort_by compare (x ∷ xs) = insert_by compare x (sort_by compare xs)

abbrev pub reverse : Ordering → Ordering
reverse less = greater
reverse equal = equal
reverse greater = less

then_with-reverse : (a b : Ordering) → then_with (reverse a) (reverse b) ≡ reverse (then_with a b)
then_with-reverse less b = refl
then_with-reverse equal b = refl
then_with-reverse greater b = refl

compare_numbers-flip : (a b : ℕ) → compare_numbers b a ≡ reverse (compare_numbers a b)
compare_numbers-flip a b = ground arith

compare_text-flip : (xs ys : List ℕ) → compare_text ys xs ≡ reverse (compare_text xs ys)
compare_text-flip [] [] = refl
compare_text-flip [] (y ∷ ys) = refl
compare_text-flip (x ∷ xs) [] = refl
compare_text-flip (x ∷ xs) (y ∷ ys) =
    ap₂ then_with (compare_numbers-flip x y) (compare_text-flip xs ys)
    ∙ then_with-reverse (compare_numbers x y) (compare_text xs ys)

compare_field-flip : (x y : SortField) → compare_field y x ≡ reverse (compare_field x y)
compare_field-flip (text a) (text b) = compare_text-flip a b
compare_field-flip (text a) (number b) = refl
compare_field-flip (number a) (text b) = refl
compare_field-flip (number a) (number b) = compare_numbers-flip a b

pub compare_fields-flip :
    (xs ys : List SortField) → compare_fields ys xs ≡ reverse (compare_fields xs ys)
unfolding compare_fields
compare_fields-flip [] [] = refl
compare_fields-flip [] (y ∷ ys) = refl
compare_fields-flip (x ∷ xs) [] = refl
compare_fields-flip (x ∷ xs) (y ∷ ys) =
    ap₂ then_with (compare_field-flip x y) (compare_fields-flip xs ys)
    ∙ then_with-reverse (compare_field x y) (compare_fields xs ys)
