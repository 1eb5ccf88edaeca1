-- ===== src/Cdb/Chunk.antt =====
-- `require_magic`, `checked_end`, `usize_value` and `chunk_header` of
-- src/storage/binary/cdb_edit.rs. The host is a 64-bit one.
pub mod Bounds
pub mod Equal
pub mod Whole
use libopod.Base.{
  ℕ, ◌+◌, ◌^◌, Bool, true, false, ◌&&◌, ◌||◌, not, Option, none, some, List, [], ◌∷◌,
}
use libopod.Base.Tests.{ltb, leb, ◌==◌, if◌then◌else◌}
use libopod.Base.Lists.{length}
use libopod.Error.{Result, ok, err, Error, malformed, itunes_cdb, verification, ◌>>=◌, ◌>>◌, ensure}
use libopod.Bytes.{read_u32, get_range}

abbrev pub usize_mod : ℕ
usize_mod = 2 ^ 64

abbrev pub eq_bytes : List ℕ → List ℕ → Bool
eq_bytes [] [] = true
eq_bytes [] (y ∷ ys) = false
eq_bytes (x ∷ xs) [] = false
eq_bytes (x ∷ xs) (y ∷ ys) = (x == y) && eq_bytes xs ys

-- `slice == Some(expected)`
abbrev pub is_some_of : Option (List ℕ) → List ℕ → Bool
is_some_of none expected = false
is_some_of (some value) expected = eq_bytes value expected

abbrev pub mhbd : List ℕ
mhbd = b'm' ∷ b'h' ∷ b'b' ∷ b'd' ∷ []

abbrev pub mhsd : List ℕ
mhsd = b'm' ∷ b'h' ∷ b's' ∷ b'd' ∷ []

abbrev pub mhlt : List ℕ
mhlt = b'm' ∷ b'h' ∷ b'l' ∷ b't' ∷ []

abbrev pub mhit : List ℕ
mhit = b'm' ∷ b'h' ∷ b'i' ∷ b't' ∷ []

abbrev pub mhlp : List ℕ
mhlp = b'm' ∷ b'h' ∷ b'l' ∷ b'p' ∷ []

abbrev pub mhyp : List ℕ
mhyp = b'm' ∷ b'h' ∷ b'y' ∷ b'p' ∷ []

abbrev pub mhip : List ℕ
mhip = b'm' ∷ b'h' ∷ b'i' ∷ b'p' ∷ []

abbrev pub mhod : List ℕ
mhod = b'm' ∷ b'h' ∷ b'o' ∷ b'd' ∷ []

abbrev pub malformed_at : ℕ → Error
malformed_at offset = malformed itunes_cdb offset

abbrev pub unverified : Error
unverified = verification itunes_cdb

unfoldable pub require_magic : List ℕ → ℕ → List ℕ → Result (Unit {0})
unfolding get_range
require_magic bytes offset expected =
    ensure (length expected == 4 && is_some_of (get_range bytes offset 4) expected)
      (malformed_at offset)

unfoldable pub checked_end : ℕ → ℕ → ℕ → ℕ → Result ℕ
checked_end start len bound offset =
    if ltb (start + len) usize_mod
    then (if ltb bound (start + len) then err (malformed_at offset) else ok (start + len))
    else err (malformed_at offset)

unfoldable pub usize_value : ℕ → ℕ → Result ℕ
usize_value value offset = if ltb value usize_mod then ok value else err (malformed_at offset)

-- a length or a count field
unfoldable pub read_usize : List ℕ → ℕ → Result ℕ
unfolding usize_value
read_usize bytes offset = do value ← read_u32 bytes offset; usize_value value offset

pub record ChunkHeader : Type 0 where
  pub header_length : ℕ
  pub end : ℕ

unfoldable pub chunk_header : List ℕ → ℕ → List ℕ → Result ChunkHeader
chunk_header bytes offset magic = do
  require_magic bytes offset magic
  header_length ← read_usize bytes (offset + 4)
  total_length ← read_usize bytes (offset + 8)
  ensure (not (ltb header_length 12 || ltb total_length header_length)) (malformed_at (offset + 4))
  end ← checked_end offset total_length (length bytes) (offset + 8)
  ok (record { header_length = header_length; end = end })
