-- ===== src/Cdb/Positions.antt =====
-- The position that a playlist item carries, in src/storage/binary/cdb_edit.rs:
-- `mhod_child_claimed_end`, `mhip_value_offset`, `mhip_position` and `rewrite_mhip_position`.
pub mod Moved
use libopod.Base.{
  ℕ, zero, suc, ◌+◌, min, Bool, true, false, ◌&&◌, ◌||◌, not, Option, none, some, List,
}
use libopod.Base.Tests.{ltb, leb, ◌==◌, if◌then◌else◌}
use libopod.Base.Lists.{length}
use libopod.Error.{Result, ok, err, ◌>>=◌, ◌>>◌, ensure}
use libopod.Bytes.{read_u32, write_u32, get_range}
use libopod.Cdb.Chunk.{mhip, mhod, is_some_of, usize_mod, malformed_at, read_usize, chunk_header}
use libopod.Cdb.Index.{renumber}

-- the end that a child claims, if the bytes are those of a plausible child
unfoldable pub mhod_child_claimed_end : List ℕ → ℕ → Option ℕ
unfolding get_range
mhod_child_claimed_end bytes offset =
    if is_some_of (get_range bytes offset 4) mhod
    then elim (read_u32 bytes (offset + 4)) [
      | err e ↦ none
      | ok header_length ↦ elim (read_u32 bytes (offset + 8)) [
        | err e ↦ none
        | ok total_length ↦
            if ltb header_length 12
              || ltb total_length header_length
              || not (ltb (offset + total_length) usize_mod)
            then none
            else some (offset + total_length)
      ]
    ]
    else none

abbrev pub mhip_value_offset : Bool → ℕ
mhip_value_offset truncated = if truncated then 16 else 24

-- the loop over the children
unfoldable pub position_loop : ℕ → List ℕ → ℕ → Result (Option ℕ)
unfolding mhod_child_claimed_end
position_loop zero chunk offset = ok none
position_loop (suc left) chunk offset = elim (mhod_child_claimed_end chunk offset) [
  | none ↦ ok none
  | some claimed_end ↦ do
    let end = min claimed_end (length chunk)
    let value_offset = offset + mhip_value_offset (ltb (length chunk) claimed_end)
    kind ← read_u32 chunk (offset + 12)
    elim (kind == 100 && leb (value_offset + 4) (length chunk) && leb (value_offset + 4) end) [
      | true ↦ do value ← read_u32 chunk value_offset; ok (some value)
      | false ↦ position_loop left chunk end
    ]
]

unfoldable pub mhip_position : List ℕ → Result (Option ℕ)
unfolding position_loop
mhip_position chunk = do
  header ← chunk_header chunk 0 mhip
  ensure (not (ltb header.header_length 16)) (malformed_at 4)
  child_count ← read_usize chunk 12
  position_loop child_count chunk header.header_length

-- The value at an offset, moved up by the removed ones before it.
unfoldable pub shift_value : List ℕ → ℕ → List ℕ → Result (List ℕ)
unfolding renumber
shift_value chunk value_offset removed_values = do
  value ← read_u32 chunk value_offset
  write_u32 chunk value_offset (renumber removed_values value)

-- one child: the chunk with its value rewritten, if it has one
unfoldable pub rewrite_child : List ℕ → ℕ → ℕ → List ℕ → Result (List ℕ)
unfolding shift_value
rewrite_child chunk offset claimed_end removed_values = do
  let value_offset = offset + mhip_value_offset (ltb (length chunk) claimed_end)
  kind ← read_u32 chunk (offset + 12)
  (if kind == 100 && leb (value_offset + 4) (length chunk)
      then shift_value chunk value_offset removed_values
      else ok chunk)

unfoldable pub rewrite_children : ℕ → List ℕ → ℕ → List ℕ → Result (List ℕ)
unfolding mhod_child_claimed_end rewrite_child
rewrite_children zero chunk offset removed_values = ok chunk
rewrite_children (suc left) chunk offset removed_values =
    elim (mhod_child_claimed_end chunk offset) [
      | none ↦ ok chunk
      | some claimed_end ↦ do
        rewritten ← rewrite_child chunk offset claimed_end removed_values
        let end = min claimed_end (length chunk)
        elim (end == length rewritten) [
          | true ↦ ok rewritten
          | false ↦ rewrite_children left rewritten end removed_values
        ]
    ]

unfoldable pub rewrite_mhip_position : List ℕ → List ℕ → Result (List ℕ)
unfolding rewrite_children
rewrite_mhip_position chunk removed_values = do
  header ← chunk_header chunk 0 mhip
  child_count ← read_usize chunk 12
  rewrite_children child_count chunk header.header_length removed_values
