-- ===== src/Tests/Removal.antt =====
-- A track is removed from a whole file, which is signed again. The stream is stored, not packed.
use libopod.Base.{ℕ, ◌≡◌, refl, ◌∙◌, false, Option, some, List, [], ◌∷◌, ◌++◌, flatten, arith}
use libopod.Base.Lists.{length, take, slice}
use libopod.Error.{ok}
use libopod.Bytes.{get_range, read_u32, from_le_bytes, read_u64, write_u32, to_le_bytes}
use libopod.Cdb.Chunk.{chunk_header, require_magic, read_usize, checked_end}
use libopod.Cdb.Inspect.{
  decode_payload, inspect_cdb, scan_datasets, CdbDatasetInfo, CdbInfo, max_uncompressed_bytes,
}
use libopod.Cdb.Hashab.{valid}
use libopod.Cdb.Split.{split_datasets}
use libopod.Cdb.Tracks.{rewrite_track_dataset}
use libopod.Cdb.Index.{finish_mhod, u32_from}
use libopod.Cdb.Removal.{
  is_empty, remove_tracks_from_cdb, rewrite_datasets, rewrite_first, rewrite_playlists,
  is_track_dataset, finalize_cdb,
}
use libopod.Cdb.Removal.Assemble.{IsAssembled}
use libopod.Cdb.Removal.Final.{finalize_cdb_returns, finalize_cdb-IsAssembled}
use libopod.Cdb.Removal.Whole.{
  IsRemoved, remove_tracks_from_cdb-IsRemoved, remove_tracks_from_cdb-finalize_cdb,
}
use libopod.Tests.Playlists.{gone, rewrites_dataset}
use libopod.Cdb.Header.{list_header}
use libopod.Cdb.Tracks.{walk_tracks, read_track, removed_track, all_found, close_tracks}
use libopod.Hashab.{verify_database_signature}
use libopod.Hashab.Implements.{hashab}
use libopod.Tests.Data.{
  digest, guid, file_header, tracks_before, tracks_after, playlist_dataset, playlist_before,
  playlist_after,
}

abbrev pub stored : ℕ → List ℕ → Option (List ℕ)
stored limit bytes = some (take limit bytes)

abbrev pub store : List ℕ → Option (List ℕ)
store bytes = some bytes

stored-store :
    (limit : ℕ) (bytes compressed : List ℕ)
    → store bytes ≡ some compressed
    → stored limit compressed ≡ some (take limit bytes)
stored-store limit bytes compressed h = cc

abbrev pub old_payload : List ℕ
old_payload = tracks_before ++ playlist_dataset 320 playlist_before

abbrev pub old_file : List ℕ
old_file = file_header 816 ++ old_payload

abbrev new_payload : List ℕ
new_payload = tracks_after ++ playlist_dataset 220 playlist_after

abbrev header : List ℕ
header = file_header 816

abbrev new_infos : List CdbDatasetInfo
new_infos =
    record { kind = 1; header_length = 16; total_length = 148 }
    ∷ record { kind = 2; header_length = 16; total_length = 220 }
    ∷ []

scans : scan_datasets new_payload 2 ≡ some (ok new_infos)
unfolding scan_datasets libopod.Cdb.Inspect.scan_step read_u32 from_le_bytes
scans = refl

finalize_cdb_returns_example :
    (out : List ℕ) × (finalize_cdb stored store (hashab digest) header new_payload guid
      ≡ some (ok out))
unfolding read_u32 from_le_bytes
finalize_cdb_returns_example =
    finalize_cdb_returns stored store digest header new_payload guid stored-store (omega arith)
      (omega arith) 2 new_payload refl refl refl (omega arith) scans refl (omega arith)

abbrev new_file : List ℕ
new_file = finalize_cdb_returns_example.0

finalize_cdb-IsAssembled_example :
    (compressed : List ℕ) × IsAssembled header compressed new_file
    × (decode_payload stored new_file (length header) ≡ ok new_payload)
    × (slice new_file 0x30 0x32 ≡ to_le_bytes 2 3)
    × (verify_database_signature digest new_file guid ≡ some valid)
finalize_cdb-IsAssembled_example =
    finalize_cdb-IsAssembled stored store digest header new_payload guid stored-store (omega arith)
      (omega arith) finalize_cdb_returns_example.1

-- the magic, the length and the count of the file
reads_header : read_usize old_file 4 ≡ ok 228
unfolding read_usize read_u32 get_range from_le_bytes
reads_header = refl

decodes : decode_payload stored old_file 228 ≡ ok old_payload
unfolding decode_payload
decodes = refl

counts : read_usize old_file 0x14 ≡ ok 2
unfolding read_usize read_u32 get_range from_le_bytes
counts = refl

abbrev old_datasets : List (List ℕ)
old_datasets = tracks_before ∷ playlist_dataset 320 playlist_before ∷ []

splits : split_datasets 3 old_payload 2 ≡ some (ok old_datasets)
unfolding split_datasets read_usize read_u32 get_range from_le_bytes checked_end
    libopod.Cdb.Split.split_step require_magic
splits = refl

cuts :
    rewrite_first old_datasets (1000 ∷ [])
    ≡ ok (tracks_after ∷ playlist_dataset 320 playlist_before ∷ [], gone ∷ [])
unfolding rewrite_first is_track_dataset rewrite_track_dataset chunk_header list_header
    require_magic read_usize checked_end walk_tracks read_track removed_track all_found close_tracks
    read_u32 read_u64 get_range from_le_bytes u32_from to_le_bytes write_u32 finish_mhod
cuts = refl

maps :
    rewrite_playlists (tracks_after ∷ playlist_dataset 320 playlist_before ∷ []) (gone ∷ [])
    ≡ ok (tracks_after ∷ playlist_dataset 220 playlist_after ∷ [])
unfolding rewrite_playlists read_u32 from_le_bytes
maps = rw rewrites_dataset refl

rewrites : rewrite_datasets (1000 ∷ []) old_datasets ≡ ok new_payload
unfolding rewrite_datasets flatten
rewrites = rw (cuts, maps) refl

removes :
    remove_tracks_from_cdb stored store (hashab digest) 3 old_file guid (1000 ∷ [])
    ≡ some (ok new_file)
removes =
    remove_tracks_from_cdb-finalize_cdb stored store digest 3 old_file guid (1000 ∷ []) 228 2
      old_payload new_payload old_datasets refl reads_header decodes counts splits rewrites
    ∙ finalize_cdb_returns_example.1

remove_tracks_from_cdb-IsRemoved_example :
    (is_empty (1000 ∷ []) ≡ false)
    × IsRemoved stored store digest 3 old_file guid (1000 ∷ []) new_file
unfolding read_u32 from_le_bytes
remove_tracks_from_cdb-IsRemoved_example =
    remove_tracks_from_cdb-IsRemoved stored store digest 3 old_file guid (1000 ∷ []) removes refl
      (omega arith)
