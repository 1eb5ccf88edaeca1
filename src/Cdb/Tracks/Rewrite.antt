-- ===== src/Cdb/Tracks/Rewrite.antt =====
-- What `rewrite_track_dataset` returns.
use libopod.Base.{
  ℕ, ◌+◌, ◌-◌, ◌≤◌, ◌<◌, ◌≡◌, sym, ap, ◌∙◌, true, false, List, [], ◌∷◌, ◌++◌, flatten, append-nil,
  inl, inr, arith,
}
use libopod.Base.Tests.{◌==◌, ==_iff}
use libopod.Base.Lists.{
  length, take, drop, slice, count_if, get_elem?, length-take, take-append-drop, drop-append_at,
  drop_all,
}
use libopod.Base.Tests.{Bool-cases}
use libopod.Cdb.Header.{ListHeader, list_header, list_header_inv, list_header-magic}
use libopod.Error.{ok, >>=-eq-ok, ensure-eq-ok, ok-injective}
use libopod.Bytes.{read_u32}
use libopod.Cdb.Chunk.{mhsd, mhlt, chunk_header}
use libopod.Cdb.Index.{contains, renumber, u32_mod, finish_mhod}
use libopod.Cdb.Index.Writes.{finish_mhod_lem, finish_mhod-drop}
use libopod.Cdb.Tracks.{
  RemovedTrack, Walk, walk_tracks, all_found, close_tracks, rewrite_track_dataset,
}
use libopod.Cdb.Tracks.Kept.{kept, cut_out, positions, length-kept, kept-renumber}
use libopod.Cdb.Tracks.Walk.{IsWalk, AllMhit, walk_tracks-IsWalk}

all_found_inv :
    (removals : List ℕ) (removed : List RemovedTrack) (r : ℕ)
    → all_found removals removed ≡ true
    → contains removals r ≡ true
    → count_if (λ track. track.persistent_id == r) removed ≡ 1
unfolding all_found
all_found_inv [] removed r h k = cc
all_found_inv (x ∷ removals) removed r h k = elim (Bool-cases (x == r)) [
  | inl same ↦
      let e = (==_iff x r).0 same in
      let one : count_if (λ track. track.persistent_id == x) removed ≡ 1 = ground arith in
      rw (← e) one
  | inr other ↦ all_found_inv removals removed r (ground arith) (ground arith)
]

close_tracks_inv :
    (dataset removals : List ℕ) (lh : ListHeader) (w : Walk) {r : List ℕ × List RemovedTrack}
    → close_tracks dataset removals lh w ≡ ok r
    → (w.2 ≡ length dataset)
      × (all_found removals w.1 ≡ true)
      × (r.1 ≡ w.1)
      × (finish_mhod (lh.list + 4) w.0 (lh.count - length w.1) ≡ ok r.0)
unfolding close_tracks
close_tracks_inv dataset removals lh w {r} e =
    let (ends, e1) = ensure-eq-ok (w.2 == length dataset) _ _ e in
    let (found, e2) = ensure-eq-ok (all_found removals w.1) _ _ e1 in
    let (output, finished, e3) =
      >>=-eq-ok (finish_mhod (lh.list + 4) w.0 (lh.count - length w.1)) _ e2 in
    let same : (output, w.1) ≡ r = ok-injective e3 in
    (
      (==_iff w.2 (length dataset)).0 ends,
      found,
      sym (ap (λ t. t.1) same),
      finished ∙ ap (λ t. ok t.0) same,
    )

-- `out` is the track dataset `dataset` without the tracks whose persistent ID is requested, and
-- `removed` tells which those were.
pub record IsCutOut (dataset removals out : List ℕ) (removed : List RemovedTrack) : Type 0 where
  pub list : ℕ
  pub end : ℕ
  pub body : ℕ
  pub tracks : List (List ℕ)
  pub header : chunk_header dataset 0 mhsd ≡ ok (record { header_length = list; end = end })
  pub whole : dataset ≡ take body dataset ++ flatten tracks
  pub list_magic : slice dataset list (list + 4) ≡ mhlt
  pub list_length : read_u32 dataset (list + 4) ≡ ok (body - list)
  pub list_fits : list ≤ body
  pub all_mhit : AllMhit tracks
  pub old_count : read_u32 dataset (list + 8) ≡ ok (length tracks)
  pub rest : drop body out ≡ flatten (kept removals tracks)
  pub new_count : read_u32 out (list + 8) ≡ ok (length (kept removals tracks))
  pub length_field : read_u32 out 8 ≡ ok (length out)
  pub removed_are : removed ≡ cut_out removals 0 tracks
  pub found :
      (r : ℕ)
      → contains removals r ≡ true
      → count_if (λ track. track.persistent_id == r) removed ≡ 1

IsCutOut-close :
    (dataset removals : List ℕ) (lh : ListHeader) (w : Walk) {r : List ℕ × List RemovedTrack}
    → list_header dataset mhlt ≡ ok lh
    → IsWalk dataset removals lh.count 0 lh.body (take lh.body dataset) [] w
    → close_tracks dataset removals lh w ≡ ok r
    → IsCutOut dataset removals r.0 r.1
IsCutOut-close dataset removals lh w {r} headed walk closed =
    let (long, behind, fits, counted, accepted) = list_header_inv dataset mhlt headed in
    let (ends, found, removed_is, finished) = close_tracks_inv dataset removals lh w closed in
    let stop : drop w.2 dataset ≡ [] = drop_all w.2 dataset (omega (arith, ends)) in
    let finish = finish_mhod_lem (lh.list + 4) w.0 (lh.count - length w.1) (omega arith) finished in
    let field : lh.list + 4 + 4 ≡ lh.list + 8 = omega arith in
    let left : lh.count - length w.1 ≡ length (kept removals walk.tracks) =
      omega (arith, length-kept removals 0 walk.tracks, walk.number, ap length walk.removed_are) in
    record {
      list = lh.list;
      end = accepted.0;
      body = lh.body;
      tracks = walk.tracks;
      header = accepted.1;
      whole =
          sym (take-append-drop lh.body dataset)
          ∙ ap (λ t. take lh.body dataset ++ t)
              (walk.cut
                ∙ ap (λ t. flatten walk.tracks ++ t) stop
                ∙ append-nil (flatten walk.tracks));
      list_magic = (list_header-magic dataset mhlt headed).0;
      list_length = (list_header-magic dataset mhlt headed).1;
      list_fits = omega (arith, behind);
      all_mhit = walk.all_mhit;
      old_count = counted ∙ ap ok (sym walk.number);
      rest =
          finish_mhod-drop (lh.list + 4) w.0 (lh.count - length w.1) lh.body (omega arith)
            (omega arith) finished
          ∙ ap (drop lh.body) walk.output_is
          ∙ drop-append_at lh.body (take lh.body dataset) (flatten (kept removals walk.tracks))
              (omega (arith, length-take lh.body dataset));
      new_count = rw field at finish.2 ∙ ap ok left;
      length_field = finish.1;
      removed_are = removed_is ∙ walk.removed_are;
      found = λ q k.
          ap (count_if (λ track. track.persistent_id == q)) removed_is
          ∙ all_found_inv removals w.1 q found k;
    }

-- A track dataset that is rewritten was a dataset with a list header, whose magic and length stand in
-- it, followed up to the end by as many tracks as its count field says; each of these is one chunk with the
-- track's magic, of the length that it gives itself, and a header of 0x78 bytes or more. The new one
-- holds the tracks whose ID was not requested, in their order and byte for byte; its count and
-- length fields say so; and every requested ID was that of exactly one of the tracks, whose IDs
-- and positions are returned.
pub rewrite_track_dataset-IsCutOut :
    (dataset removals : List ℕ) {r : List ℕ × List RemovedTrack}
    → rewrite_track_dataset dataset removals ≡ ok r
    → IsCutOut dataset removals r.0 r.1
unfolding rewrite_track_dataset
rewrite_track_dataset-IsCutOut dataset removals {r} e =
    let (lh, headed, e1) = >>=-eq-ok (list_header dataset mhlt) _ e in
    let (w, walked, e2) =
      >>=-eq-ok (walk_tracks dataset removals lh.count 0 lh.body (take lh.body dataset) []) _ e1 in
    let fits = (list_header_inv dataset mhlt headed).2 in
    IsCutOut-close dataset removals lh w headed
      (walk_tracks-IsWalk dataset removals lh.count 0 lh.body (take lh.body dataset) [] fits walked)
      e2

-- The track at old position `p`, if it is not one of the removed, stands among the tracks of the
-- rewritten dataset at the position that `renumber` gives for the sorted indexes.
pub rewrite_track_dataset-renumber :
    (dataset removals : List ℕ) {r : List ℕ × List RemovedTrack} (p : ℕ)
    → (e : rewrite_track_dataset dataset removals ≡ ok r) → p < u32_mod
    → contains (positions r.1) p ≡ false
    → let c = rewrite_track_dataset-IsCutOut dataset removals e in
      get_elem? (kept removals c.tracks) (renumber (positions r.1) p) ≡ get_elem? c.tracks p
rewrite_track_dataset-renumber dataset removals {r} p e fits free =
    let c = rewrite_track_dataset-IsCutOut dataset removals e in
    let same = ap positions c.removed_are in
    let free' : contains (positions (cut_out removals 0 c.tracks)) p ≡ false = rw same at free in
    ap (λ t. get_elem? (kept removals c.tracks) (renumber t p)) same
    ∙ kept-renumber removals c.tracks p fits free'
