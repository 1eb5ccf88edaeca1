-- ===== src/Cdb/Playlists.antt =====
-- `rewrite_playlist` and `rewrite_playlist_dataset` of src/storage/binary/cdb_edit.rs. The map from
-- sort types to removed slots is a list of pairs, of which the first counts.
pub mod Items
pub mod Rewrite
pub mod Dataset
use libopod.Base.{
  ℕ, zero, suc, ◌+◌, Bool, true, false, ◌||◌, not, Option, none, some, List, [], ◌∷◌, ◌++◌, map,
}
use libopod.Base.Tests.{ltb, leb, ◌==◌, if◌then◌else◌}
use libopod.Base.Lists.{length, take, slice}
use libopod.Error.{Result, ok, err, ◌>>=◌, ◌>>◌, ensure}
use libopod.Bytes.{read_u32, read_u64, write_u32}
use libopod.Cdb.Chunk.{mhlp, mhyp, mhip, mhod, malformed_at, read_usize, chunk_header, ChunkHeader}
use libopod.Cdb.Header.{ListHeader, list_header}
use libopod.Cdb.Index.{contains, u32_from, finish_mhod, rewrite_mhod52, rewrite_mhod53}
use libopod.Cdb.Tracks.{RemovedTrack}
use libopod.Cdb.Positions.{mhip_position, rewrite_mhip_position}

abbrev pub mhip_track_id : ℕ
mhip_track_id = 0x18

abbrev pub mhip_persistent_id : ℕ
mhip_persistent_id = 0x2c

abbrev pub Removals : Type 0
Removals = List (ℕ × List ℕ)

-- `index_removals.get(&sort_type).map_or(&[], Vec::as_slice)`
abbrev pub removals_of : Removals → ℕ → List ℕ
removals_of [] sort_type = []
removals_of ((t, slots) ∷ rest) sort_type =
    if t == sort_type then slots else removals_of rest sort_type

unfoldable pub rewrite_sorted : List ℕ → ℕ → List ℕ → Removals → Result (List ℕ × Removals)
unfolding rewrite_mhod52
rewrite_sorted chunk header_length removed_positions index_removals = do
  r ← rewrite_mhod52 chunk removed_positions
  sort_type ← read_u32 chunk header_length
  ok (r.0, (sort_type, r.1) ∷ index_removals)

unfoldable pub rewrite_jump : List ℕ → ℕ → Removals → Result (List ℕ × Removals)
unfolding rewrite_mhod53
rewrite_jump chunk header_length index_removals = do
  sort_type ← read_u32 chunk header_length
  bytes ← rewrite_mhod53 chunk (removals_of index_removals sort_type)
  ok (bytes, index_removals)

-- One child of a playlist's header: its new bytes, and the removed slots by sort type.
unfoldable pub rewrite_mhod : List ℕ → ℕ → List ℕ → Removals → Result (List ℕ × Removals)
unfolding rewrite_sorted rewrite_jump
rewrite_mhod chunk header_length removed_positions index_removals = read_u32 chunk 12 >>= λ kind.
    if kind == 52
    then rewrite_sorted chunk header_length removed_positions index_removals
    else if kind == 53
    then rewrite_jump chunk header_length index_removals
    else ok (chunk, index_removals)

module _ (playlist removed_positions : List ℕ) where
  -- the loop over these children: the output, and the offset behind the last one
  unfoldable pub walk_mhods : ℕ → ℕ → List ℕ → Removals → Result (List ℕ × ℕ)
  unfolding rewrite_mhod
  walk_mhods zero offset output index_removals = ok (output, offset)
  walk_mhods (suc left) offset output index_removals = do
    h ← chunk_header playlist offset mhod
    r ← rewrite_mhod (slice playlist offset h.end) h.header_length removed_positions index_removals
    walk_mhods left h.end (output ++ r.0) r.1

-- `(header_length >= 0x2c + 8).then(|| read_u64(chunk, 0x2c)).transpose()`
unfoldable pub persistent_id_of : List ℕ → ℕ → Result (Option ℕ)
persistent_id_of chunk header_length =
    if leb (mhip_persistent_id + 8) header_length
    then (read_u64 chunk mhip_persistent_id >>= λ id. ok (some id))
    else ok none

-- whether an item is one of a removed track
unfoldable pub is_removed : List RemovedTrack → List ℕ → ℕ → Result Bool
unfolding persistent_id_of
is_removed removed chunk header_length = do
  track_id ← read_u32 chunk mhip_track_id
  persistent_id ← persistent_id_of chunk header_length
  ok (
      contains (map (λ track. track.track_id) removed) track_id
      || elim persistent_id as (λ _. Bool) [
        | none ↦ false
        | some id ↦ contains (map (λ track. track.persistent_id) removed) id
      ])

abbrev pub push_value : List ℕ → Option ℕ → List ℕ
push_value values none = values
push_value values (some value) = values ++ (value ∷ [])

-- the items that are kept, the positions of the others, and the offset behind the last one
abbrev pub Items : Type 0
Items = List (List ℕ) × List ℕ × ℕ

module _ (playlist : List ℕ) (removed : List RemovedTrack) where
  unfoldable pub walk_mhips : ℕ → ℕ → List (List ℕ) → List ℕ → Result Items
  unfolding is_removed mhip_position
  walk_mhips zero offset mhips values = ok (mhips, values, offset)
  walk_mhips (suc left) offset mhips values = do
    h ← chunk_header playlist offset mhip
    gone ← is_removed removed (slice playlist offset h.end) h.header_length
    elim gone [
      | true ↦ do
        value ← mhip_position (slice playlist offset h.end)
        walk_mhips left h.end mhips (push_value values value)
      | false ↦ walk_mhips left h.end (mhips ++ (slice playlist offset h.end ∷ [])) values
    ]

-- the kept items, with their positions moved up
unfoldable pub append_mhips : List (List ℕ) → List ℕ → List ℕ → Result (List ℕ)
unfolding rewrite_mhip_position
append_mhips [] values output = ok output
append_mhips (chunk ∷ rest) values output = do
  rewritten ← rewrite_mhip_position chunk values
  append_mhips rest values (output ++ rewritten)

unfoldable pub rewrite_playlist : List ℕ → List RemovedTrack → Result (List ℕ)
unfolding walk_mhods walk_mhips append_mhips finish_mhod
rewrite_playlist playlist removed = do
  header ← chunk_header playlist 0 mhyp
  ensure (not (ltb header.header_length 20)) (malformed_at 4)
  mhod_count ← read_usize playlist 12
  mhip_count ← read_usize playlist 16
  children ←
      walk_mhods playlist (map (λ track. track.position) removed) mhod_count header.header_length
        (take header.header_length playlist) []
  items ← walk_mhips playlist removed mhip_count children.1 [] []
  ensure (items.2 == length playlist) (malformed_at items.2)
  output ← append_mhips items.0 items.1 children.0
  finish_mhod 12 output (length items.0)

module _ (dataset : List ℕ) (removed : List RemovedTrack) where
  unfoldable pub walk_playlists : ℕ → ℕ → List ℕ → Result (List ℕ × ℕ)
  unfolding rewrite_playlist
  walk_playlists zero offset output = ok (output, offset)
  walk_playlists (suc left) offset output = do
    h ← chunk_header dataset offset mhyp
    rewritten ← rewrite_playlist (slice dataset offset h.end) removed
    walk_playlists left h.end (output ++ rewritten)

unfoldable pub rewrite_playlist_dataset : List ℕ → List RemovedTrack → Result (List ℕ)
unfolding walk_playlists list_header
rewrite_playlist_dataset dataset removed = do
  lh ← list_header dataset mhlp
  walked ← walk_playlists dataset removed lh.count lh.body (take lh.body dataset)
  ensure (walked.1 == length dataset) (malformed_at walked.1)
  output_len ← u32_from (length walked.0)
  write_u32 walked.0 8 output_len
