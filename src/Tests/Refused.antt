-- ===== src/Tests/Refused.antt =====
-- Removals from files that an inspection accepts: where they end, and one that is refused.
use libopod.Base.{ℕ, ◌≡◌, refl, suc, none, some, List, [], ◌∷◌, ◌++◌}
use libopod.Base.Lists.{length}
use libopod.Error.{Result, ok, err}
use libopod.Bytes.{read_u16, read_u32, from_le_bytes}
use libopod.Cdb.Chunk.{unverified, require_magic, read_usize, checked_end}
use libopod.Cdb.Inspect.{
  decode_payload, inspect_cdb, scan_datasets, CdbInfo, inspect_header, scan_step, describe,
}
use libopod.Cdb.Split.{split_datasets, split_step}
use libopod.Cdb.Removal.{remove_tracks_from_cdb, is_track_dataset}
use libopod.Cdb.Removal.Returns.{remove_tracks_from_cdb_returns, remove_tracks_from_cdb_untracked}
use libopod.Hashab.Implements.{hashab}
use libopod.Tests.Data.{digest, guid, file_header, playlist_dataset, playlist_before}
use libopod.Tests.Removal.{stored, store, old_file}

-- what the inspection of the old file says, where no device is given
abbrev old_info : CdbInfo
old_info = record {
  physical_bytes = 816;
  header_length = 228;
  version = 0;
  declared_children = 2;
  checksum_scheme = 0;
  checksum_indicator = 0;
  compression_flag = 1;
  hashab_version_prefix = (0, 0);
  hashab_signature_status = none;
  uncompressed_payload_bytes = 588;
  datasets =
      record { kind = 1; header_length = 16; total_length = 268 }
      ∷ record { kind = 2; header_length = 16; total_length = 320 }
      ∷ [];
}

inspects : inspect_cdb stored (hashab digest) old_file none ≡ some (ok old_info)
unfolding inspect_cdb inspect_header read_u32 from_le_bytes read_u16 decode_payload scan_datasets
    scan_step describe
inspects = refl

remove_tracks_from_cdb_returns_example :
    (payload : List ℕ) × (decode_payload stored old_file 228 ≡ ok payload)
    × ((r : Result (List ℕ)) × (remove_tracks_from_cdb stored store
            (hashab digest)
            (suc (length payload))
            old_file
            guid
            (1000 ∷ [])
          ≡ some r))
remove_tracks_from_cdb_returns_example =
    remove_tracks_from_cdb_returns stored store (hashab digest) old_file none guid (1000 ∷ [])
      inspects

-- a file of two datasets with playlists
abbrev untracked_payload : List ℕ
untracked_payload = playlist_dataset 320 playlist_before ++ playlist_dataset 320 playlist_before

abbrev untracked_file : List ℕ
untracked_file = file_header 868 ++ untracked_payload

abbrev untracked_info : CdbInfo
untracked_info = record {
  physical_bytes = 868;
  header_length = 228;
  version = 0;
  declared_children = 2;
  checksum_scheme = 0;
  checksum_indicator = 0;
  compression_flag = 1;
  hashab_version_prefix = (0, 0);
  hashab_signature_status = none;
  uncompressed_payload_bytes = 640;
  datasets =
      record { kind = 2; header_length = 16; total_length = 320 }
      ∷ record { kind = 2; header_length = 16; total_length = 320 }
      ∷ [];
}

inspects_untracked :
    inspect_cdb stored (hashab digest) untracked_file none ≡ some (ok untracked_info)
unfolding inspect_cdb inspect_header read_u32 from_le_bytes read_u16 decode_payload scan_datasets
    scan_step describe
inspects_untracked = refl

remove_tracks_from_cdb_untracked_example :
    remove_tracks_from_cdb stored store (hashab digest) 3 untracked_file guid (1000 ∷ [])
    ≡ some (err unverified)
unfolding decode_payload split_datasets split_step require_magic read_usize checked_end read_u32
    from_le_bytes is_track_dataset
remove_tracks_from_cdb_untracked_example =
    remove_tracks_from_cdb_untracked stored store (hashab digest) 3 untracked_file untracked_payload
      (playlist_dataset 320 playlist_before ∷ playlist_dataset 320 playlist_before ∷ []) none guid
      (1000 ∷ []) inspects_untracked refl refl refl
