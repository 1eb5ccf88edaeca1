-- ===== src/Cdb/Tracks.antt =====
-- `rewrite_track_dataset` of src/storage/binary/cdb_edit.rs: the tracks with a requested persistent
-- ID are cut out of the track list. A persistent ID is its 64-bit number.
pub mod Kept
pub mod Walk
pub mod Rewrite
use libopod.Base.{ℕ, zero, suc, ◌+◌, ◌-◌, Bool, true, false, ◌&&◌, not, List, [], ◌∷◌, ◌++◌}
use libopod.Base.Tests.{ltb, ◌==◌, if◌then◌else◌}
use libopod.Base.Lists.{length, take, slice, count_if}
use libopod.Error.{Result, ok, err, ◌>>=◌, ◌>>◌, ensure}
use libopod.Bytes.{read_u32, read_u64}
use libopod.Cdb.Chunk.{
  mhsd, mhlt, mhit, malformed_at, unverified, require_magic, read_usize, checked_end, chunk_header,
  ChunkHeader,
}
use libopod.Cdb.Header.{ListHeader, list_header}
use libopod.Cdb.Index.{contains, u32_from, finish_mhod}

abbrev pub mhit_db_track_id : ℕ
mhit_db_track_id = 0x70

abbrev pub mhit_track_id : ℕ
mhit_track_id = 0x10

pub record RemovedTrack : Type 0 where
  pub persistent_id : ℕ
  pub track_id : ℕ
  pub position : ℕ

-- the output, the removed tracks, and the offset behind the last track
abbrev pub Walk : Type 0
Walk = List ℕ × List RemovedTrack × ℕ

-- What one round reads of the track at `offset`: its header and its persistent ID.
unfoldable pub read_track : List ℕ → ℕ → Result (ChunkHeader × ℕ)
read_track dataset offset = do
  track ← chunk_header dataset offset mhit
  ensure (not (ltb track.header_length (mhit_db_track_id + 8))) (malformed_at (offset + 4))
  persistent_id ← read_u64 dataset (offset + mhit_db_track_id)
  ok (track, persistent_id)

-- the record that is kept of a track that is cut out
unfoldable pub removed_track : List ℕ → ℕ → ℕ → ℕ → Result RemovedTrack
removed_track dataset offset persistent_id position = do
  track_id ← read_u32 dataset (offset + mhit_track_id)
  position32 ← u32_from position
  ok (record { persistent_id = persistent_id; track_id = track_id; position = position32 })

module _ (dataset removals : List ℕ) where
  unfoldable pub walk_tracks : ℕ → ℕ → ℕ → List ℕ → List RemovedTrack → Result Walk
  walk_tracks zero position offset output removed = ok (output, removed, offset)
  walk_tracks (suc left) position offset output removed = do
    t ← read_track dataset offset
    elim (contains removals t.1) [
      | true ↦ do
        gone ← removed_track dataset offset t.1 position
        walk_tracks left (position + 1) t.0.end output (removed ++ (gone ∷ []))
      | false ↦
          walk_tracks left (position + 1) t.0.end (output ++ slice dataset offset t.0.end) removed
    ]

-- each requested ID was found exactly once
unfoldable pub all_found : List ℕ → List RemovedTrack → Bool
all_found [] removed = true
all_found (requested ∷ rest) removed =
    (count_if (λ track. track.persistent_id == requested) removed == 1) && all_found rest removed

-- the checks behind the loop, and the last writes: the count field stands eight bytes into the
-- list's header
unfoldable pub close_tracks :
    List ℕ → List ℕ → ListHeader → Walk → Result (List ℕ × List RemovedTrack)
close_tracks dataset removals lh walked = do
  ensure (walked.2 == length dataset) (malformed_at walked.2)
  ensure (all_found removals walked.1) unverified
  output ← finish_mhod (lh.list + 4) walked.0 (lh.count - length walked.1)
  ok (output, walked.1)

unfoldable pub rewrite_track_dataset : List ℕ → List ℕ → Result (List ℕ × List RemovedTrack)
rewrite_track_dataset dataset removals = do
  lh ← list_header dataset mhlt
  walked ← walk_tracks dataset removals lh.count 0 lh.body (take lh.body dataset) []
  close_tracks dataset removals lh walked
