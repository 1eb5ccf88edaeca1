-- ===== src/Cdb/Addition/Keys.antt =====
-- The fields by which the entries of a sorted index are ordered, against the tracks at their positions.
use libopod.Base.{
  ℕ, suc, ◌+◌, ◌≡◌, refl, sym, ap, ◌∙◌, Option, none, some, inl, inr, List, [], ◌∷◌, arith,
}
use mathlib.Core.Path.{subst}
use libopod.Base.Tests.{◌==◌, if◌then◌else◌}
use libopod.Base.Lists.{length}
use libopod.Error.{ok, ok-injective, >>=-eq-ok}
use libopod.Sort.{Unicode, sort_key}
use libopod.Cdb.Index.{u32_from}
use libopod.Cdb.Index.Writes.{u32_from_inv}
use libopod.Cdb.Addition.Order.{SortField, text, number, Entry, compare_fields, insert_by, sort_by}
use libopod.Cdb.Addition.Sorted.{Numbered, Ordering-cases, insert_less, insert_greater}
use libopod.Cdb.Addition.{
  ParsedTrack, CdbTrackAddition, CdbSortView, prefer, view_at, from_track, from_addition, entry_of,
  entries_with, sorted_index, sort_fields, index_letter_source,
}

abbrev pub first_field : List SortField → Option SortField
first_field [] = none
first_field (x ∷ xs) = some x

abbrev pub last_field : List SortField → Option SortField
last_field [] = none
last_field (x ∷ []) = some x
last_field (x ∷ y ∷ ys) = last_field (y ∷ ys)

-- what a track is sorted by in the first place: the season and the episode are numbers, any other
-- sort type goes by the text whose first letter stands in the jump table
abbrev pub primary : Unicode → CdbSortView → ℕ → SortField
primary u v sort_type =
    if sort_type == 0x1e
    then number v.season
    else if sort_type == 0x1f
    then number v.episode
    else text (sort_key u (index_letter_source u v sort_type))

-- The fields are those of the view: they begin with its primary one, and the title decides last.
pub record IsKeyed (u : Unicode) (sort_type : ℕ) (v : CdbSortView) (fields : List SortField)
    : Type 0 where
  pub fields_are : fields ≡ sort_fields u v sort_type
  pub first : first_field fields ≡ some (primary u v sort_type)
  pub last : last_field fields ≡ some (text (sort_key u (prefer v.sort_name v.title)))

sort_fields-first :
    (u : Unicode) (v : CdbSortView) (sort_type : ℕ)
    → first_field (sort_fields u v sort_type) ≡ some (primary u v sort_type)
unfolding sort_fields index_letter_source
sort_fields-first u v sort_type = ground arith

sort_fields-last :
    (u : Unicode) (v : CdbSortView) (sort_type : ℕ)
    → last_field (sort_fields u v sort_type) ≡ some (text (sort_key u (prefer v.sort_name v.title)))
unfolding sort_fields
sort_fields-last u v sort_type = ground arith

sort_fields-IsKeyed :
    (u : Unicode) (v : CdbSortView) (sort_type : ℕ)
    → IsKeyed u sort_type v (sort_fields u v sort_type)
sort_fields-IsKeyed u v sort_type = record {
  fields_are = refl;
  first = sort_fields-first u v sort_type;
  last = sort_fields-last u v sort_type;
}

module _ (u : Unicode) (sort_type : ℕ) (f : ℕ → CdbSortView) where
  -- each entry has the fields of the view at its position
  abbrev pub AllKeyed : List Entry → Type 0
  AllKeyed [] = Unit {0}
  AllKeyed (x ∷ xs) = IsKeyed u sort_type (f x.1) x.0 × AllKeyed xs

  AllKeyed-insert_by :
      (x : Entry) (ys : List Entry)
      → IsKeyed u sort_type (f x.1) x.0
      → AllKeyed ys
      → AllKeyed (insert_by compare_fields x ys)
  AllKeyed-insert_by x [] k h = (k, tt)
  AllKeyed-insert_by x (y ∷ ys) k h = elim (Ordering-cases (compare_fields x.0 y.0)) [
    | inl first ↦ rw (insert_less x y ys (inl first)) (k, h)
    | inr (inl same) ↦ rw (insert_less x y ys (inr same)) (k, h)
    | inr (inr last) ↦ rw (insert_greater x y ys last) (h.0, AllKeyed-insert_by x ys k h.1)
  ]

  module _ (addition : CdbTrackAddition) where
    -- the views from `k` on are those of the tracks, then that of the addition
    abbrev Views : ℕ → List ParsedTrack → Type 0
    Views k [] = f k ≡ from_addition addition
    Views k (t ∷ ts) = (f k ≡ from_track t) × Views (suc k) ts

    Views-from :
        (k : ℕ) (ts : List ParsedTrack)
        → ((j : ℕ) → f (k + j) ≡ view_at u ts addition j)
        → Views k ts
    Views-from k [] h = ap f (omega arith) ∙ h 0
    Views-from k (t ∷ ts) h =
        (ap f (omega arith) ∙ h 0, Views-from (suc k) ts (λ j. ap f (omega arith) ∙ h (suc j)))

    all-AllKeyed :
        (k new : ℕ) (ts : List ParsedTrack)
        → Numbered k ts
        → new ≡ k + length ts
        → Views k ts
        → AllKeyed (
            sort_by compare_fields
              (entries_with u sort_type ts (sort_fields u (from_addition addition) sort_type, new)))
    unfolding sort_by
    all-AllKeyed k new [] n e h =
        (keyed (from_addition addition) new (ap f (omega (arith, e)) ∙ h), tt)
      where
        keyed :
            (v : CdbSortView) (p : ℕ)
            → f p ≡ v
            → IsKeyed u sort_type (f p) (sort_fields u v sort_type)
        keyed v p same =
            subst (λ w. IsKeyed u sort_type w (sort_fields u v sort_type)) (sym same)
              (sort_fields-IsKeyed u v sort_type)
    all-AllKeyed k new (t ∷ ts) n e h =
        AllKeyed-insert_by (entry_of u sort_type t)
          (sort_by compare_fields
            (entries_with u sort_type ts (sort_fields u (from_addition addition) sort_type, new)))
          (subst (λ w. IsKeyed u sort_type w (sort_fields u (from_track t) sort_type))
            (sym (ap f n.0 ∙ h.0)) (sort_fields-IsKeyed u (from_track t) sort_type))
          (all-AllKeyed (suc k) new ts n.1 (omega (arith, e)) h.1)

-- Each entry of a sorted index has the fields of the track at its position, the new one being the last.
pub sorted_index-AllKeyed :
    (u : Unicode) (tracks : List ParsedTrack) (addition : CdbTrackAddition) (sort_type : ℕ)
    {indexed : List Entry}
    → Numbered 0 tracks
    → sorted_index u tracks addition sort_type ≡ ok indexed
    → AllKeyed u sort_type (view_at u tracks addition) indexed
unfolding sorted_index u32_from
sorted_index-AllKeyed u tracks addition sort_type n h =
    let (new, position, rest) = >>=-eq-ok (u32_from (length tracks)) _ h in
    let number = (u32_from_inv (length tracks) position).0 in
    subst (AllKeyed u sort_type (view_at u tracks addition)) (ok-injective rest) (
      all-AllKeyed u sort_type (view_at u tracks addition) addition 0 new tracks n
        (omega (arith, number))
        (Views-from u sort_type (view_at u tracks addition) addition 0 tracks
          (λ j. ap (view_at u tracks addition) (omega arith))))
