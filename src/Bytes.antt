-- ===== src/Bytes.antt =====
-- Little-endian fields of a byte buffer: `read_u32`, `read_u64`, `write_u16`, `write_u32` and
-- `write_u64` of src/storage/binary/cdb_edit.rs, and `le_u16`, `le_u32` of cdb.rs beside it.
-- A byte is a number below 256, a buffer a list of them. An offset is a `usize`; the sum of an
-- offset and a field's width does not wrap, since an offset into a buffer is below 2 ^ 63.
pub mod Laws
pub mod Frame
use libopod.Base.{ℕ, zero, suc, ◌+◌, ◌*◌, ◌/◌, ◌%◌, ◌^◌, ◌<◌, Option, none, some, List, [], ◌∷◌}
use libopod.Base.Tests.{leb, if◌then◌else◌}
use libopod.Base.Lists.{length, slice, splice}
use libopod.Error.{Result, ok, err, Error, malformed, itunes_cdb}

abbrev pub IsBytes : List ℕ → Type 0
IsBytes [] = Unit {0}
IsBytes (b ∷ bs) = (b < 256) × IsBytes bs

unfoldable pub from_le_bytes : List ℕ → ℕ
from_le_bytes [] = 0
from_le_bytes (b ∷ bs) = b + 256 * from_le_bytes bs

-- the low `n` bytes of a number
unfoldable pub to_le_bytes : ℕ → ℕ → List ℕ
to_le_bytes zero v = []
to_le_bytes (suc n) v = (v % 256) ∷ to_le_bytes n (v / 256)

-- `bytes.get(offset..offset + n)`
unfoldable pub get_range : List ℕ → ℕ → ℕ → Option (List ℕ)
get_range bytes offset n =
    if leb (offset + n) (length bytes) then some (slice bytes offset (offset + n)) else none

unfoldable pub read_le : ℕ → List ℕ → ℕ → Result ℕ
unfolding get_range
read_le n bytes offset = elim (get_range bytes offset n) [
  | none ↦ err (malformed itunes_cdb offset)
  | some value ↦ ok (from_le_bytes value)
]

unfoldable pub read_u16 : List ℕ → ℕ → Result ℕ
unfolding read_le
read_u16 = read_le 2

unfoldable pub read_u32 : List ℕ → ℕ → Result ℕ
unfolding read_le
read_u32 = read_le 4

unfoldable pub read_u64 : List ℕ → ℕ → Result ℕ
unfolding read_le
read_u64 = read_le 8

unfoldable pub write_le : ℕ → List ℕ → ℕ → ℕ → Result (List ℕ)
write_le n bytes offset value =
    if leb (offset + n) (length bytes)
    then ok (splice bytes offset (to_le_bytes n value))
    else err (malformed itunes_cdb offset)

unfoldable pub write_u16 : List ℕ → ℕ → ℕ → Result (List ℕ)
unfolding write_le
write_u16 = write_le 2

unfoldable pub write_u32 : List ℕ → ℕ → ℕ → Result (List ℕ)
unfolding write_le
write_u32 = write_le 4

unfoldable pub write_u64 : List ℕ → ℕ → ℕ → Result (List ℕ)
unfolding write_le
write_u64 = write_le 8
