-- ===== src/Tests/Playlists.antt =====
-- The first of two tracks leaves a playlist.
use libopod.Base.{ℕ, ◌≡◌, refl, List, [], ◌∷◌, arith}
use libopod.Error.{ok}
use libopod.Bytes.{get_range, read_u32, read_u64, write_u32, to_le_bytes, from_le_bytes}
use libopod.Cdb.Chunk.{chunk_header, require_magic, read_usize, checked_end}
use libopod.Cdb.Index.{rewrite_mhod52, entries52, saturating_mul, finish_mhod, u32_from, renumber}
use libopod.Cdb.Tracks.{RemovedTrack}
use libopod.Cdb.Playlists.{rewrite_playlist, rewrite_playlist_dataset}
use libopod.Cdb.Positions.Moved.{IsPositioned}
use libopod.Cdb.Playlists.Rewrite.{IsKept, rewrite_playlist-IsKept}
use libopod.Cdb.Playlists.Dataset.{IsMapped, rewrite_playlist_dataset-IsMapped}
use libopod.Tests.Data.{playlist_before, playlist_after, playlist_dataset, item}

abbrev pub gone : RemovedTrack
gone = record { persistent_id = 1000; track_id = 7; position = 0 }

rewrites_playlist : rewrite_playlist playlist_before (gone ∷ []) ≡ ok playlist_after
unfolding rewrite_playlist chunk_header require_magic read_usize checked_end read_u32 read_u64
    get_range from_le_bytes rewrite_mhod52 entries52 saturating_mul finish_mhod u32_from renumber
    to_le_bytes write_u32
rewrites_playlist = refl

rewrite_playlist-IsKept_example : IsKept playlist_before (gone ∷ []) playlist_after
rewrite_playlist-IsKept_example =
    rewrite_playlist-IsKept playlist_before (gone ∷ []) rewrites_playlist

-- the item that stays has its position where it is looked for
positioned : IsPositioned (item 8 6) 76 6
unfolding read_u32 from_le_bytes get_range
positioned = record {
  child = 52;
  more = 0;
  child_header = 24;
  total = 44;
  header_field = refl;
  child_count = refl;
  magic_is = refl;
  child_header_field = refl;
  total_field = refl;
  long = omega arith;
  room = omega arith;
  addressed = omega arith;
  kind = refl;
  at_is = refl;
  inside = omega arith;
  value = refl;
}

abbrev pub dataset_before : List ℕ
dataset_before = playlist_dataset 320 playlist_before

abbrev pub dataset_after : List ℕ
dataset_after = playlist_dataset 220 playlist_after

pub rewrites_dataset : rewrite_playlist_dataset dataset_before (gone ∷ []) ≡ ok dataset_after
unfolding rewrite_playlist_dataset chunk_header require_magic read_usize checked_end read_u32
    read_u64 get_range from_le_bytes rewrite_mhod52 entries52 saturating_mul finish_mhod u32_from
    renumber to_le_bytes write_u32
rewrites_dataset = refl

rewrite_playlist_dataset-IsMapped_example : IsMapped dataset_before (gone ∷ []) dataset_after
rewrite_playlist_dataset-IsMapped_example =
    rewrite_playlist_dataset-IsMapped dataset_before (gone ∷ []) rewrites_dataset
