-- ===== src/Tests/Tracks.antt =====
-- A track is cut out of a dataset of two.
use libopod.Base.{◌≡◌, refl, [], ◌∷◌, arith}
use libopod.Base.Lists.{get_elem?}
use libopod.Error.{ok}
use libopod.Bytes.{get_range, read_u32, read_u64, write_u32, to_le_bytes, from_le_bytes}
use libopod.Cdb.Chunk.{chunk_header, require_magic, read_usize, checked_end}
use libopod.Cdb.Header.{list_header}
use libopod.Cdb.Index.{finish_mhod, u32_from, renumber}
use libopod.Cdb.Tracks.{
  RemovedTrack, rewrite_track_dataset, read_track, removed_track, walk_tracks, close_tracks,
  all_found,
}
use libopod.Cdb.Tracks.Kept.{kept}
use libopod.Cdb.Tracks.Rewrite.{
  IsCutOut, rewrite_track_dataset-IsCutOut, rewrite_track_dataset-renumber,
}
use libopod.Tests.Data.{tracks_before, tracks_after}

abbrev first_track : RemovedTrack
first_track = record { persistent_id = 1000; track_id = 7; position = 0 }

cuts_first : rewrite_track_dataset tracks_before (1000 ∷ []) ≡ ok (tracks_after, first_track ∷ [])
unfolding rewrite_track_dataset list_header chunk_header require_magic read_usize checked_end
    read_u32 read_u64 get_range from_le_bytes read_track removed_track walk_tracks close_tracks
    all_found finish_mhod u32_from to_le_bytes write_u32
cuts_first = refl

rewrite_track_dataset-IsCutOut_example :
    IsCutOut tracks_before (1000 ∷ []) tracks_after (first_track ∷ [])
rewrite_track_dataset-IsCutOut_example =
    rewrite_track_dataset-IsCutOut tracks_before (1000 ∷ []) cuts_first

rewrite_track_dataset-renumber_example :
    let c = rewrite_track_dataset-IsCutOut tracks_before (1000 ∷ []) cuts_first in
    get_elem? (kept (1000 ∷ []) c.tracks) (renumber (0 ∷ []) 1) ≡ get_elem? c.tracks 1
rewrite_track_dataset-renumber_example =
    rewrite_track_dataset-renumber tracks_before (1000 ∷ []) 1 cuts_first (omega arith) refl
