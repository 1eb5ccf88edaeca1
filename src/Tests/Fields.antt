-- ===== src/Tests/Fields.antt =====
-- Fields and chunk headers of small buffers.
use libopod.Base.{ℕ, ◌+◌, ◌≤◌, ◌<◌, ◌≡◌, refl, List, [], ◌∷◌, arith}
use libopod.Base.Lists.{length}
use libopod.Error.{ok}
use libopod.Bytes.{get_range, read_u32, write_le, read_le, to_le_bytes, from_le_bytes}
use libopod.Bytes.Laws.{read_le-write_le}
use libopod.Cdb.Chunk.{mhod, mhlt, chunk_header, require_magic, read_usize, checked_end, usize_mod}
use libopod.Cdb.Header.{list_header}
use libopod.Cdb.Chunk.Bounds.{chunk_header_bounds}
use libopod.Tests.Data.{jump_before, tracks_before, zeros}

abbrev written : List ℕ
written = 0 ∷ 0 ∷ 0 ∷ 0 ∷ 4 ∷ 3 ∷ 2 ∷ 1 ∷ []

writes_field : write_le 4 (zeros 8) 4 0x01020304 ≡ ok written
unfolding write_le to_le_bytes
writes_field = refl

read_le-write_le_example : read_le 4 written 4 ≡ ok 0x01020304
read_le-write_le_example = read_le-write_le 4 (zeros 8) 4 0x01020304 (omega arith) writes_field

jump_header : chunk_header jump_before 0 mhod ≡ ok (record { header_length = 12; end = 52 })
unfolding chunk_header require_magic read_usize checked_end read_u32 get_range from_le_bytes
jump_header = refl

chunk_header_bounds_example :
    (12 ≤ 12) × (0 + 12 ≤ 52) × (52 ≤ length jump_before) × (52 < usize_mod)
chunk_header_bounds_example = chunk_header_bounds jump_before 0 mhod jump_header

track_list : list_header tracks_before mhlt ≡ ok (record { list = 16; body = 28; count = 2 })
unfolding list_header chunk_header require_magic read_usize checked_end read_u32 get_range
    from_le_bytes
track_list = refl
