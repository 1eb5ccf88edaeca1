-- ===== src/Cdb/Addition/Sorted.antt =====
-- The sorted index with a new track: the order of its entries, and their positions.
use libopod.Base.{
  ℕ, suc, ◌+◌, ◌≤◌, ◌<◌, ◌≡◌, ◌⊎◌, inl, inr, refl, sym, ap, ◌∙◌, false, List, [], ◌∷◌, arith,
}
use mathlib.Core.Path.{subst}
use libopod.Base.Tests.{◌==◌, ==_iff, Bool-cases}
use libopod.Base.Lists.{length, count_if}
use libopod.Error.{ok, ok-injective, >>=-eq-ok}
use libopod.Sort.{Unicode}
use libopod.Cdb.Index.{u32_from}
use libopod.Cdb.Index.Writes.{u32_from_inv}
use libopod.Cdb.Index.Values.{AllBelow}
use libopod.Cdb.Addition.Order.{
  Ordering, less, equal, greater, reverse, SortField, Entry, compare_fields, compare_fields-flip,
  insert_by, sort_by,
}
use libopod.Cdb.Addition.{
  ParsedTrack, CdbTrackAddition, positions, entry_of, entries_with, sorted_index, sort_fields,
  from_addition,
}

-- in the order of the fields, and of the positions where these are equal
abbrev pub Precedes : Entry → Entry → Type 0
Precedes x y = (compare_fields x.0 y.0 ≡ less) ⊎ ((compare_fields x.0 y.0 ≡ equal) × (x.1 < y.1))

abbrev pub Follow : Entry → List Entry → Type 0
Follow x [] = Unit {0}
Follow x (y ∷ ys) = Precedes x y × Follow y ys

abbrev pub IsSorted : List Entry → Type 0
IsSorted [] = Unit {0}
IsSorted (x ∷ xs) = Follow x xs

-- the positions are `p` or more
abbrev AtLeast : ℕ → List Entry → Type 0
AtLeast p [] = Unit {0}
AtLeast p (x ∷ xs) = (p ≤ x.1) × AtLeast p xs

AtLeast-weaken : (p : ℕ) (xs : List Entry) → AtLeast (suc p) xs → AtLeast p xs
AtLeast-weaken p [] h = tt
AtLeast-weaken p (x ∷ xs) h = (omega (arith, h.0), AtLeast-weaken p xs h.1)

pub Ordering-cases : (o : Ordering) → (o ≡ less) ⊎ ((o ≡ equal) ⊎ (o ≡ greater))
Ordering-cases less = inl refl
Ordering-cases equal = inr (inl refl)
Ordering-cases greater = inr (inr refl)

-- what the insertion does, for each outcome of the comparison
pub insert_less :
    (x y : Entry) (ys : List Entry)
    → (compare_fields x.0 y.0 ≡ less) ⊎ (compare_fields x.0 y.0 ≡ equal)
    → insert_by compare_fields x (y ∷ ys) ≡ x ∷ y ∷ ys
insert_less x y ys (inl h) = rw (insert_by, h) refl
insert_less x y ys (inr h) = rw (insert_by, h) refl

pub insert_greater :
    (x y : Entry) (ys : List Entry)
    → compare_fields x.0 y.0 ≡ greater
    → insert_by compare_fields x (y ∷ ys) ≡ y ∷ insert_by compare_fields x ys
insert_greater x y ys h = rw (insert_by, h) refl

AtLeast-insert_by :
    (p : ℕ) (x : Entry) (ys : List Entry)
    → p ≤ x.1
    → AtLeast p ys
    → AtLeast p (insert_by compare_fields x ys)
AtLeast-insert_by p x [] le h = (le, tt)
AtLeast-insert_by p x (y ∷ ys) le h = elim (Ordering-cases (compare_fields x.0 y.0)) [
  | inl first ↦ rw (insert_less x y ys (inl first)) (le, h)
  | inr (inl same) ↦ rw (insert_less x y ys (inr same)) (le, h)
  | inr (inr last) ↦ rw (insert_greater x y ys last) (h.0, AtLeast-insert_by p x ys le h.1)
]

Follow-insert_by :
    (z x : Entry) (ys : List Entry)
    → Precedes z x
    → Follow z ys
    → AtLeast (suc x.1) ys
    → Follow z (insert_by compare_fields x ys)
Follow-insert_by z x [] zx h low = (zx, tt)
Follow-insert_by z x (y ∷ ys) zx h low = elim (Ordering-cases (compare_fields x.0 y.0)) [
  | inl first ↦ rw (insert_less x y ys (inl first)) (zx, (inl first, h.1))
  | inr (inl same) ↦ rw (insert_less x y ys (inr same)) (zx, (inr (same, low.0), h.1))
  | inr (inr last) ↦
      let back = compare_fields-flip x.0 y.0 ∙ ap reverse last in
      rw (insert_greater x y ys last) (h.0, Follow-insert_by y x ys (inl back) h.1 low.1)
]

IsSorted-insert_by :
    (x : Entry) (ys : List Entry)
    → IsSorted ys
    → AtLeast (suc x.1) ys
    → IsSorted (insert_by compare_fields x ys)
IsSorted-insert_by x [] h low = tt
IsSorted-insert_by x (y ∷ ys) h low = elim (Ordering-cases (compare_fields x.0 y.0)) [
  | inl first ↦ rw (insert_less x y ys (inl first)) (inl first, h)
  | inr (inl same) ↦ rw (insert_less x y ys (inr same)) (inr (same, low.0), h)
  | inr (inr last) ↦
      let back = compare_fields-flip x.0 y.0 ∙ ap reverse last in
      rw (insert_greater x y ys last) (Follow-insert_by y x ys (inl back) h low.1)
]

abbrev occurs : ℕ → List Entry → ℕ
occurs p xs = count_if (λ v. v == p) (positions xs)

AllBelow-insert_by :
    (m : ℕ) (x : Entry) (ys : List Entry)
    → x.1 < m
    → AllBelow m (positions ys)
    → AllBelow m (positions (insert_by compare_fields x ys))
AllBelow-insert_by m x [] lt h = (lt, tt)
AllBelow-insert_by m x (y ∷ ys) lt h = elim (Ordering-cases (compare_fields x.0 y.0)) [
  | inl first ↦ rw (insert_less x y ys (inl first)) (lt, h)
  | inr (inl same) ↦ rw (insert_less x y ys (inr same)) (lt, h)
  | inr (inr last) ↦ rw (insert_greater x y ys last) (h.0, AllBelow-insert_by m x ys lt h.1)
]

occurs_other :
    (p : ℕ) (x : Entry) (xs : List Entry) → (x.1 ≡ p → ⊥) → occurs p (x ∷ xs) ≡ occurs p xs
occurs_other p x xs h = ground arith

occurs_here :
    (p : ℕ) (x : Entry) (xs : List Entry) → x.1 ≡ p → occurs p (x ∷ xs) ≡ suc (occurs p xs)
occurs_here p x xs h = ground arith

occurs-insert_by :
    (p : ℕ) (x : Entry) (ys : List Entry)
    → occurs p (insert_by compare_fields x ys) ≡ occurs p (x ∷ ys)
occurs-insert_by p x [] = refl
occurs-insert_by p x (y ∷ ys) = elim (Ordering-cases (compare_fields x.0 y.0)) [
  | inl first ↦ rw (insert_less x y ys (inl first)) refl
  | inr (inl same) ↦ rw (insert_less x y ys (inr same)) refl
  | inr (inr last) ↦ rw (insert_greater x y ys last) (ground (arith, occurs-insert_by p x ys))
]

length-insert_by :
    (x : Entry) (ys : List Entry) → length (insert_by compare_fields x ys) ≡ suc (length ys)
length-insert_by x [] = refl
length-insert_by x (y ∷ ys) = elim (Ordering-cases (compare_fields x.0 y.0)) [
  | inl first ↦ rw (insert_less x y ys (inl first)) refl
  | inr (inl same) ↦ rw (insert_less x y ys (inr same)) refl
  | inr (inr last) ↦ rw (insert_greater x y ys last) (ap suc (length-insert_by x ys))
]

-- the positions count up from `k`
abbrev pub Numbered : ℕ → List ParsedTrack → Type 0
Numbered k [] = Unit {0}
Numbered k (t ∷ ts) = (t.position ≡ k) × Numbered (suc k) ts

-- Every position up to that of the new track stands in the index, once; nothing else does; and the
-- entries are in order.
pub record IsIndex (count : ℕ) (indexed : List Entry) : Type 0 where
  pub sorted : IsSorted indexed
  pub size : length indexed ≡ count
  pub bounded : AllBelow count (positions indexed)
  pub once : (p : ℕ) → p < count → occurs p indexed ≡ 1

module _ (u : Unicode) (sort_type : ℕ) (fields : List SortField) where
  abbrev all : List ParsedTrack → ℕ → List Entry
  all tracks new = sort_by compare_fields (entries_with u sort_type tracks (fields, new))

  all-AtLeast :
      (k new : ℕ) (tracks : List ParsedTrack)
      → Numbered k tracks
      → new ≡ k + length tracks
      → AtLeast k (all tracks new)
  unfolding sort_by
  all-AtLeast k new [] n e = (omega (arith, e), tt)
  all-AtLeast k new (t ∷ ts) n e =
      AtLeast-insert_by k (entry_of u sort_type t) (all ts new) (omega (arith, n.0))
        (AtLeast-weaken k (all ts new) (all-AtLeast (suc k) new ts n.1 (omega (arith, e))))

  all-IsSorted :
      (k new : ℕ) (tracks : List ParsedTrack)
      → Numbered k tracks
      → new ≡ k + length tracks
      → IsSorted (all tracks new)
  unfolding sort_by
  all-IsSorted k new [] n e = tt
  all-IsSorted k new (t ∷ ts) n e =
      IsSorted-insert_by (entry_of u sort_type t) (all ts new)
        (all-IsSorted (suc k) new ts n.1 (omega (arith, e)))
        (rw n.0 (all-AtLeast (suc k) new ts n.1 (omega (arith, e))))

  length-all : (new : ℕ) (tracks : List ParsedTrack) → length (all tracks new) ≡ suc (length tracks)
  unfolding sort_by
  length-all new [] = refl
  length-all new (t ∷ ts) =
      length-insert_by (entry_of u sort_type t) (all ts new) ∙ ap suc (length-all new ts)

  all-AllBelow :
      (m k new : ℕ) (tracks : List ParsedTrack)
      → Numbered k tracks
      → new ≡ k + length tracks
      → new < m
      → AllBelow m (positions (all tracks new))
  unfolding sort_by
  all-AllBelow m k new [] n e lt = (lt, tt)
  all-AllBelow m k new (t ∷ ts) n e lt =
      AllBelow-insert_by m (entry_of u sort_type t) (all ts new) (omega (arith, n.0, e, lt))
        (all-AllBelow m (suc k) new ts n.1 (omega (arith, e)) lt)

  -- a position before `k` does not occur, one from `k` on up to the new one occurs once
  occurs-all :
      (p k new : ℕ) (tracks : List ParsedTrack)
      → Numbered k tracks
      → new ≡ k + length tracks
      → (p < k → occurs p (all tracks new) ≡ 0) × (k ≤ p → p ≤ new → occurs p (all tracks new) ≡ 1)
  unfolding sort_by
  occurs-all p k new [] n e = (ground arith, ground arith)
  occurs-all p k new (t ∷ ts) n e =
      let rest = occurs-all p (suc k) new ts n.1 (omega (arith, e)) in
      let x = entry_of u sort_type t in
      let step = occurs-insert_by p x (all ts new) in
      (
        (λ lt.
            step ∙ occurs_other p x (all ts new) (omega (arith, n.0, lt)) ∙ rest.0 (omega arith)),
        λ le up. elim (Bool-cases (p == k)) [
          | inl same ↦
              let eq = (==_iff p k).0 same in
              step ∙ occurs_here p x (all ts new) (n.0 ∙ sym eq) ∙ ap suc (rest.0 (omega arith))
          | inr other ↦
              let less : suc k ≤ p = behind k p le other in
              step ∙ occurs_other p x (all ts new) (omega (arith, n.0)) ∙ rest.1 less up
        ],
      )
    where
      behind : (k p : ℕ) → k ≤ p → (p == k) ≡ false → suc k ≤ p
      behind k p le h = ground arith

-- The sorted index that is built with a new track, where the tracks are numbered from 0 on: every
-- position from 0 to that of the new track occurs exactly once, and the entries are in the order of
-- their sort fields, those with equal fields in the order of their positions.
pub sorted_index-IsIndex :
    (u : Unicode) (tracks : List ParsedTrack) (addition : CdbTrackAddition) (sort_type : ℕ)
    {indexed : List Entry}
    → Numbered 0 tracks
    → sorted_index u tracks addition sort_type ≡ ok indexed
    → IsIndex (suc (length tracks)) indexed
unfolding sorted_index u32_from
sorted_index-IsIndex u tracks addition sort_type n h =
    let (new, position, rest) = >>=-eq-ok (u32_from (length tracks)) _ h in
    let fields = sort_fields u (from_addition addition) sort_type in
    let number = (u32_from_inv (length tracks) position).0 in
    let e : new ≡ 0 + length tracks = omega (arith, number) in
    subst (IsIndex (suc (length tracks))) (ok-injective rest) (record {
      sorted = all-IsSorted u sort_type fields 0 new tracks n e;
      bounded =
          all-AllBelow u sort_type fields (suc (length tracks)) 0 new tracks n e (omega arith);
      size = length-all u sort_type fields new tracks;
      once =
          λ p lt. (occurs-all u sort_type fields p 0 new tracks n e).1 (omega arith) (omega arith);
    })
