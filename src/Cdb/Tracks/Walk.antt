-- ===== src/Cdb/Tracks/Walk.antt =====
-- The loop of `rewrite_track_dataset` as a cut of the dataset into tracks.
use libopod.Base.{
  ℕ, zero, suc, ◌+◌, ◌≤◌, ◌≡◌, refl, sym, ap, ◌∙◌, true, false, List, [], ◌∷◌, ◌++◌, flatten,
  append-nil, append_assoc, inl, inr, arith,
}
use libopod.Base.Tests.{Bool-cases}
use libopod.Base.Lists.{length, slice, drop, slice-append-drop}
use libopod.Base.Slices.{slice-slice}
use libopod.Error.{ok, >>=-eq-ok, ok-injective}
use libopod.Bytes.{from_le_bytes, read_u32}
use libopod.Bytes.Laws.{read_u32_inv, read_u64_inv}
use libopod.Cdb.Chunk.{ChunkHeader, chunk_header, mhit}
use libopod.Cdb.Chunk.Bounds.{chunk_header_bounds, chunk_header-length_field}
use libopod.Cdb.Chunk.Whole.{IsChunk, chunk_header-IsChunk}
use libopod.Cdb.Index.{contains, u32_from}
use libopod.Cdb.Tracks.{
  RemovedTrack, Walk, read_track, removed_track, walk_tracks, mhit_db_track_id, mhit_track_id,
}
use libopod.Cdb.Tracks.Kept.{kept, cut_out, persistent_id_of, track_id_of}

-- One chunk with the track's magic, whose header has room for the persistent ID.
pub record IsMhit (track : List ℕ) : Type 0 where
  pub chunk : IsChunk mhit track
  pub header_length : ℕ
  pub header_field : read_u32 track 4 ≡ ok header_length
  pub long : mhit_db_track_id + 8 ≤ header_length

abbrev pub AllMhit : List (List ℕ) → Type 0
AllMhit [] = Unit {0}
AllMhit (track ∷ tracks) = IsMhit track × AllMhit tracks

-- What a track that is read lies in.
record IsTrack (dataset : List ℕ) (offset : ℕ) (t : ChunkHeader × ℕ) : Type 0 where
  long : offset + 0x78 ≤ t.0.end
  fits : t.0.end ≤ length dataset
  identified : t.1 ≡ persistent_id_of (slice dataset offset t.0.end)
  is_mhit : IsMhit (slice dataset offset t.0.end)

-- the checks of `read_track` in one statement
read_track_inv :
    (dataset : List ℕ) (offset : ℕ) {t : ChunkHeader × ℕ}
    → read_track dataset offset ≡ ok t
    → (offset + 0x78 ≤ t.0.end)
      × (t.0.end ≤ length dataset)
      × (t.1
          ≡ from_le_bytes
              (slice dataset (offset + mhit_db_track_id) (offset + mhit_db_track_id + 8)))
unfolding read_track
read_track_inv dataset offset {t} e = ground (
  arith,
  chunk_header_bounds dataset offset mhit {h = t.0},
  read_u64_inv dataset (offset + mhit_db_track_id) {v = t.1},
)

read_track_header :
    (dataset : List ℕ) (offset : ℕ) {t : ChunkHeader × ℕ}
    → read_track dataset offset ≡ ok t
    → (chunk_header dataset offset mhit ≡ ok t.0) × (mhit_db_track_id + 8 ≤ t.0.header_length)
unfolding read_track
read_track_header dataset offset {t} e = ground (arith, e)

read_track-IsTrack :
    (dataset : List ℕ) (offset : ℕ) {t : ChunkHeader × ℕ}
    → read_track dataset offset ≡ ok t
    → IsTrack dataset offset t
read_track-IsTrack dataset offset {t} e =
    let i = read_track_inv dataset offset e in
    let (header, long) = read_track_header dataset offset e in
    record {
      long = i.0;
      fits = i.1;
      identified =
          i.2
          ∙ ap from_le_bytes (
              sym (
                slice-slice dataset offset t.0.end mhit_db_track_id (mhit_db_track_id + 8)
                  (offset + mhit_db_track_id) (offset + mhit_db_track_id + 8) (omega arith)
                  (omega (arith, i.0)) refl (omega arith)));
      is_mhit = record {
        chunk = chunk_header-IsChunk dataset offset mhit header;
        header_length = t.0.header_length;
        header_field = chunk_header-length_field dataset offset mhit header;
        long = long;
      };
    }

removed_track-eq :
    (dataset : List ℕ) (offset pid position end : ℕ) {gone : RemovedTrack}
    → offset + 0x78 ≤ end
    → removed_track dataset offset pid position ≡ ok gone
    → gone ≡ record {
      persistent_id = pid;
      track_id = track_id_of (slice dataset offset end);
      position = position;
    }
unfolding removed_track u32_from
removed_track-eq dataset offset pid position end {gone} long e = ground (
  arith,
  e,
  read_u32_inv dataset (offset + mhit_track_id) {v = gone.track_id},
  ap from_le_bytes (
      slice-slice dataset offset end mhit_track_id (mhit_track_id + 4) (offset + mhit_track_id)
        (offset + mhit_track_id + 4) (omega arith) (omega arith) refl (omega arith)),
)

-- A run of the loop: the tracks that it went over, and what it did with them.
pub record IsWalk (dataset removals : List ℕ) (left position offset : ℕ) (output : List ℕ)
    (removed : List RemovedTrack) (w : Walk) : Type 0 where
  pub tracks : List (List ℕ)
  pub number : length tracks ≡ left
  pub all_mhit : AllMhit tracks
  pub cut : drop offset dataset ≡ flatten tracks ++ drop w.2 dataset
  pub within : w.2 ≤ length dataset
  pub output_is : w.0 ≡ output ++ flatten (kept removals tracks)
  pub removed_are : w.1 ≡ removed ++ cut_out removals position tracks

pub cut_one :
    (dataset : List ℕ) (offset end : ℕ) (ts : List (List ℕ)) (stop : ℕ)
    → offset ≤ end
    → drop end dataset ≡ flatten ts ++ drop stop dataset
    → drop offset dataset ≡ flatten (slice dataset offset end ∷ ts) ++ drop stop dataset
unfolding flatten
cut_one dataset offset end ts stop long e =
    sym (slice-append-drop offset end dataset long)
    ∙ ap (λ t. slice dataset offset end ++ t) e
    ∙ sym (append_assoc (slice dataset offset end) (flatten ts) (drop stop dataset))

module _ (dataset removals : List ℕ) where
  module _ {left position offset : ℕ} {output : List ℕ} {removed : List RemovedTrack} {w : Walk}
      (end : ℕ) (long : offset ≤ end) (mhit_at : IsMhit (slice dataset offset end)) where
    IsWalk-kept :
        contains removals (persistent_id_of (slice dataset offset end)) ≡ false
        → IsWalk dataset removals left
            (position + 1)
            end
            (output ++ (slice dataset offset end))
            removed
            w
        → IsWalk dataset removals (suc left) position offset output removed w
    unfolding flatten
    IsWalk-kept miss ih = record {
      tracks = slice dataset offset end ∷ ih.tracks;
      number = ap suc ih.number;
      all_mhit = (mhit_at, ih.all_mhit);
      cut = cut_one dataset offset end ih.tracks w.2 long ih.cut;
      within = ih.within;
      output_is = rw miss (
          ih.output_is
          ∙ append_assoc output (slice dataset offset end) (flatten (kept removals ih.tracks)));
      removed_are = rw miss ih.removed_are;
    }

    IsWalk-removed :
        (gone : RemovedTrack)
        → contains removals (persistent_id_of (slice dataset offset end)) ≡ true
        → gone ≡ record {
          persistent_id = persistent_id_of (slice dataset offset end);
          track_id = track_id_of (slice dataset offset end);
          position = position;
        }
        → IsWalk dataset removals left (position + 1) end output (removed ++ (gone ∷ [])) w
        → IsWalk dataset removals (suc left) position offset output removed w
    IsWalk-removed gone hit is ih = record {
      tracks = slice dataset offset end ∷ ih.tracks;
      number = ap suc ih.number;
      all_mhit = (mhit_at, ih.all_mhit);
      cut = cut_one dataset offset end ih.tracks w.2 long ih.cut;
      within = ih.within;
      output_is = rw hit ih.output_is;
      removed_are = rw hit (
          ih.removed_are
          ∙ append_assoc removed (gone ∷ []) (cut_out removals (position + 1) ih.tracks)
          ∙ ap (λ t. removed ++ (t ∷ cut_out removals (position + 1) ih.tracks)) is);
    }

  walk_tracks_round :
      (left position offset : ℕ) (output : List ℕ) (removed : List RemovedTrack) {w : Walk}
      → walk_tracks dataset removals (suc left) position offset output removed ≡ ok w
      → (t : ChunkHeader × ℕ) × (read_track dataset offset ≡ ok t)
  unfolding walk_tracks
  walk_tracks_round left position offset output removed e =
      let (t, read, _) = >>=-eq-ok (read_track dataset offset) _ e in (t, read)

  walk_tracks_kept :
      (left position offset : ℕ) (output : List ℕ) (removed : List RemovedTrack) {w : Walk}
      {t : ChunkHeader × ℕ}
      → walk_tracks dataset removals (suc left) position offset output removed ≡ ok w
      → read_track dataset offset ≡ ok t
      → contains removals t.1 ≡ false
      → walk_tracks dataset removals left
          (position + 1)
          t.0.end
          (output ++ slice dataset offset t.0.end)
          removed
        ≡ ok w
  unfolding walk_tracks
  walk_tracks_kept left position offset output removed e read miss = ground arith

  walk_tracks_removed :
      (left position offset : ℕ) (output : List ℕ) (removed : List RemovedTrack) {w : Walk}
      {t : ChunkHeader × ℕ}
      → walk_tracks dataset removals (suc left) position offset output removed ≡ ok w
      → read_track dataset offset ≡ ok t
      → contains removals t.1 ≡ true
      → (gone : RemovedTrack) × (removed_track dataset offset t.1 position ≡ ok gone)
        × (walk_tracks dataset removals left (position + 1) t.0.end output (removed ++ (gone ∷ []))
            ≡ ok w)
  unfolding walk_tracks
  walk_tracks_removed left position offset output removed {t = t} e read hit =
      >>=-eq-ok (removed_track dataset offset t.1 position) _ (ground (arith, e, read, hit))

  pub walk_tracks-IsWalk :
      (left position offset : ℕ) (output : List ℕ) (removed : List RemovedTrack) {w : Walk}
      → offset ≤ length dataset
      → walk_tracks dataset removals left position offset output removed ≡ ok w
      → IsWalk dataset removals left position offset output removed w
  walk_tracks-IsWalk zero position offset output removed {w} h e =
      let same : (output, removed, offset) ≡ w = ok-injective (unfold walk_tracks in e) in
      rw (← same) (record {
        tracks = [];
        number = refl;
        all_mhit = tt;
        cut = unfold flatten in refl;
        within = h;
        output_is = unfold flatten in sym (append-nil output);
        removed_are = sym (append-nil removed);
      })
  walk_tracks-IsWalk (suc left) position offset output removed {w} h e =
      let (t, read) = walk_tracks_round left position offset output removed e in
      let is = read_track-IsTrack dataset offset read in
      elim (Bool-cases (contains removals t.1)) [
        | inr miss ↦
            IsWalk-kept t.0.end (omega (arith, is.long)) is.is_mhit (rw is.identified at miss) (
              walk_tracks-IsWalk left (position + 1) t.0.end
                (output ++ slice dataset offset t.0.end) removed is.fits
                (walk_tracks_kept left position offset output removed e read miss))
        | inl hit ↦
            let (gone, made, rest) =
              walk_tracks_removed left position offset output removed e read hit in
            IsWalk-removed t.0.end (omega (arith, is.long)) is.is_mhit gone
              (rw is.identified at hit)
              (removed_track-eq dataset offset t.1 position t.0.end is.long made
                ∙ ap
                    (λ x. record {
                      persistent_id = x;
                      track_id = track_id_of (slice dataset offset t.0.end);
                      position = position;
                    })
                    is.identified)
              (walk_tracks-IsWalk left (position + 1) t.0.end output (removed ++ (gone ∷ []))
                is.fits rest)
      ]
