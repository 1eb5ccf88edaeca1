-- ===== src/Cdb/Removal.antt =====
-- `remove_tracks_from_cdb` and `finalize_cdb` of src/storage/binary/cdb_edit.rs. zlib is a third
-- party's: `inflate` is that of the inspection, `deflate` gives the compressed stream, or nothing
-- where it fails. The fuel is that of `split_datasets`.
pub mod Assemble
pub mod Signed
pub mod Final
pub mod Whole
pub mod Returns
use libopod.Base.{
  ℕ, zero, suc, ◌+◌, Bool, true, false, ◌||◌, not, Option, none, some, List, [], ◌∷◌, ◌++◌, flatten,
}
use libopod.Base.Tests.{ltb, ◌==◌, if◌then◌else◌}
use libopod.Base.Lists.{length, take, get_elem?}
use libopod.Error.{Result, Run, ok, err, ◌>>=◌, ◌>>◌, ensure, and_then, then_run, run_run}
use libopod.Bytes.{read_u32, write_u16, write_u32}
use libopod.Cdb.Chunk.{malformed_at, unverified, read_usize}
use libopod.Cdb.Hashab.{Hashab, SignatureStatus, valid, legacy_scheme4_then3, invalid}
use libopod.Cdb.Inspect.{CdbInfo, decode_payload, inspect_cdb}
use libopod.Cdb.Split.{split_datasets}
use libopod.Cdb.Index.{u32_from}
use libopod.Cdb.Tracks.{RemovedTrack, rewrite_track_dataset}
use libopod.Cdb.Playlists.{rewrite_playlist_dataset}

abbrev pub is_empty : List ℕ → Bool
is_empty [] = true
is_empty (x ∷ xs) = false

-- `read_u32(dataset, 12).ok() == Some(1)`
unfoldable pub is_track_dataset : List ℕ → Bool
is_track_dataset dataset = elim (read_u32 dataset 12) [ err e ↦ false | ok kind ↦ kind == 1 ]

-- The first type-1 dataset is replaced by the rewritten one.
unfoldable pub rewrite_first : List (List ℕ) → List ℕ → Result (List (List ℕ) × List RemovedTrack)
unfolding rewrite_track_dataset
rewrite_first [] removals = err unverified
rewrite_first (d ∷ ds) removals = elim (is_track_dataset d) [
  | true ↦ do r ← rewrite_track_dataset d removals; ok (r.0 ∷ ds, r.1)
  | false ↦ do r ← rewrite_first ds removals; ok (d ∷ r.0, r.1)
]

-- the loop over the datasets that hold playlists
unfoldable pub rewrite_playlists : List (List ℕ) → List RemovedTrack → Result (List (List ℕ))
unfolding rewrite_playlist_dataset
rewrite_playlists [] removed = ok []
rewrite_playlists (d ∷ ds) removed = do
  kind ← read_u32 d 12
  rewritten ←
      if kind == 2 || kind == 3 || kind == 5 then rewrite_playlist_dataset d removed else ok d
  rest ← rewrite_playlists ds removed
  ok (rewritten ∷ rest)

unfoldable pub rewrite_datasets : List ℕ → List (List ℕ) → Result (List ℕ)
unfolding rewrite_first rewrite_playlists
rewrite_datasets removals datasets = do
  r ← rewrite_first datasets removals
  rewritten ← rewrite_playlists r.0 r.1
  ok (flatten rewritten)

-- `status == Some(DatabaseSignatureStatus::Valid)`
abbrev pub is_valid : Option SignatureStatus → Bool
is_valid none = false
is_valid (some valid) = true
is_valid (some legacy_scheme4_then3) = false
is_valid (some invalid) = false

-- the header with its flag and length fields set, the new stream behind it
unfoldable pub patch_header : List ℕ → List ℕ → Result (List ℕ)
patch_header header compressed = do
  output ← write_u16 (header ++ compressed) 0xa8 1
  output_len ← u32_from (length output)
  write_u32 output 8 output_len

module _ (inflate : ℕ → List ℕ → Option (List ℕ)) (deflate : List ℕ → Option (List ℕ))
    (hashab : Hashab) where
  -- the file that is signed
  unfoldable pub assemble_cdb : List ℕ → List ℕ → Result (List ℕ)
  unfolding patch_header
  assemble_cdb header uncompressed = elim (deflate uncompressed) [
    | none ↦ err (malformed_at (length header))
    | some compressed ↦ patch_header header compressed
  ]

  unfoldable pub sign_cdb : List ℕ → List ℕ → List ℕ → Result (List ℕ)
  unfolding assemble_cdb
  sign_cdb header uncompressed firewire_guid = do
    output ← assemble_cdb header uncompressed
    hashab.sign_database output firewire_guid

  unfoldable pub finalize_cdb : List ℕ → List ℕ → List ℕ → Run (List ℕ)
  unfolding sign_cdb inspect_cdb
  finalize_cdb header uncompressed firewire_guid =
      then_run (sign_cdb header uncompressed firewire_guid) λ output.
        and_then (inspect_cdb inflate hashab output (some firewire_guid))
          λ inspected. ensure (is_valid inspected.hashab_signature_status) unverified >> ok output

  unfoldable pub remove_tracks_from_cdb : ℕ → List ℕ → List ℕ → List ℕ → Run (List ℕ)
  unfolding finalize_cdb rewrite_datasets split_datasets decode_payload
  remove_tracks_from_cdb fuel bytes firewire_guid removals =
      then_run (ensure (not (is_empty removals)) unverified >> read_usize bytes 4) λ header_length.
        then_run (decode_payload inflate bytes header_length) λ payload.
          then_run (read_usize bytes 0x14) λ dataset_count.
            run_run
              (and_then (split_datasets fuel payload dataset_count) (rewrite_datasets removals))
              λ uncompressed. finalize_cdb (take header_length bytes) uncompressed firewire_guid
