-- ===== src/Cdb/Tracks/Kept.antt =====
-- The tracks of a list as byte strings: which are kept, and how positions move.
use libopod.Base.{ℕ, suc, ◌+◌, ◌<◌, ◌≡◌, refl, ap, ◌∙◌, false, List, [], ◌∷◌, map, arith}
use libopod.Base.Tests.{◌==◌, if◌then◌else◌}
use libopod.Base.Lists.{length, slice, count_if, get_elem?}
use libopod.Bytes.{from_le_bytes}
use libopod.Cdb.Index.{contains, renumber, u32_mod}
use libopod.Cdb.Index.Renumber.{Once, retain, retain-renumber}
use libopod.Cdb.Tracks.{RemovedTrack, mhit_track_id, mhit_db_track_id}

abbrev pub persistent_id_of : List ℕ → ℕ
persistent_id_of track = from_le_bytes (slice track mhit_db_track_id (mhit_db_track_id + 8))

abbrev pub track_id_of : List ℕ → ℕ
track_id_of track = from_le_bytes (slice track mhit_track_id (mhit_track_id + 4))

abbrev pub kept : List ℕ → List (List ℕ) → List (List ℕ)
kept removals [] = []
kept removals (t ∷ ts) =
    if contains removals (persistent_id_of t) then kept removals ts else t ∷ kept removals ts

-- the records of the others, whose positions are counted from `i`
abbrev pub cut_out : List ℕ → ℕ → List (List ℕ) → List RemovedTrack
cut_out removals i [] = []
cut_out removals i (t ∷ ts) =
    if contains removals (persistent_id_of t)
    then record { persistent_id = persistent_id_of t; track_id = track_id_of t; position = i }
      ∷ cut_out removals (i + 1) ts
    else cut_out removals (i + 1) ts

abbrev pub positions : List RemovedTrack → List ℕ
positions = map (λ t. t.position)

pub length-kept :
    (removals : List ℕ) (i : ℕ) (ts : List (List ℕ))
    → length (kept removals ts) + length (cut_out removals i ts) ≡ length ts
length-kept removals i [] = refl
length-kept removals i (t ∷ ts) = ground (arith, length-kept removals (i + 1) ts)

-- positions before the first are not among those cut out
not_before :
    (removals : List ℕ) (i j : ℕ) (ts : List (List ℕ))
    → j < i
    → contains (positions (cut_out removals i ts)) j ≡ false
not_before removals i j [] h = refl
not_before removals i j (t ∷ ts) h = ground (arith, not_before removals (i + 1) j ts (omega arith))

none_before :
    (removals : List ℕ) (i j : ℕ) (ts : List (List ℕ))
    → j < i
    → count_if (λ p. p == j) (positions (cut_out removals i ts)) ≡ 0
none_before removals i j [] h = refl
none_before removals i j (t ∷ ts) h =
    ground (arith, none_before removals (i + 1) j ts (omega arith))

-- No position is cut out twice.
pub cut_out-Once :
    (removals : List ℕ) (i : ℕ) (ts : List (List ℕ)) → Once (positions (cut_out removals i ts))
cut_out-Once removals i [] v = omega arith
cut_out-Once removals i (t ∷ ts) v =
    ground
      (arith, cut_out-Once removals (i + 1) ts v, none_before removals (i + 1) i ts (omega arith))

retain_past :
    (p : ℕ) (ps : List ℕ) (i : ℕ) (ts : List (List ℕ))
    → p < i
    → retain (p ∷ ps) i ts ≡ retain ps i ts
retain_past p ps i [] h = refl
retain_past p ps i (t ∷ ts) h = ground (arith, retain_past p ps (suc i) ts (omega arith))

kept-eq-retain :
    (removals : List ℕ) (i : ℕ) (ts : List (List ℕ))
    → kept removals ts ≡ retain (positions (cut_out removals i ts)) i ts
kept-eq-retain removals i [] = refl
kept-eq-retain removals i (t ∷ ts) =
    let next : i + 1 ≡ suc i = omega arith in
    let ih = rw next at (kept-eq-retain removals (i + 1) ts) in
    ground (
      arith,
      ih,
      next,
      not_before removals (i + 1) i ts (omega arith),
      retain_past i (positions (cut_out removals (suc i) ts)) (suc i) ts (omega arith),
    )

-- A track that is kept stands, among the kept ones, at the position that `renumber` computes
-- from its old one and the positions that were cut out.
pub kept-renumber :
    (removals : List ℕ) (ts : List (List ℕ)) (p : ℕ)
    → p < u32_mod
    → contains (positions (cut_out removals 0 ts)) p ≡ false
    → get_elem? (kept removals ts) (renumber (positions (cut_out removals 0 ts)) p) ≡ get_elem? ts p
kept-renumber removals ts p fits free =
    ap (λ t. get_elem? t (renumber (positions (cut_out removals 0 ts)) p))
      (kept-eq-retain removals 0 ts)
    ∙ retain-renumber (positions (cut_out removals 0 ts)) ts p (cut_out-Once removals 0 ts) fits
        free
