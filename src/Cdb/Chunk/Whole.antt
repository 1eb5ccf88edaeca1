-- ===== src/Cdb/Chunk/Whole.antt =====
-- A piece of a buffer that is cut along an accepted chunk header, as a chunk of its own.
use libopod.Base.{
  ℕ, ◌+◌, ◌≤◌, ◌≡◌, refl, sym, ap, ◌∙◌, Bool, true, false, ◌&&◌, List, [], ◌∷◌, arith,
}
use libopod.Base.Tests.{◌==◌}
use libopod.Base.Lists.{length, slice, length-slice}
use libopod.Base.Slices.{slice-slice}
use libopod.Error.{ok, >>=-eq-ok, ensure, Error}
use libopod.Bytes.{read_u32, from_le_bytes, get_range}
use libopod.Bytes.Laws.{read_u32_inv, read_u32_in}
use libopod.Cdb.Chunk.{
  require_magic, is_some_of, eq_bytes, checked_end, read_usize, usize_value, ChunkHeader,
  chunk_header,
}
use libopod.Cdb.Chunk.Bounds.{chunk_header_bounds, chunk_header-length_field}
use libopod.Cdb.Chunk.Equal.{eq_bytes→≡}

-- The bytes are one chunk: its magic, the length of its header, and its own length.
pub record IsChunk (magic bytes : List ℕ) : Type 0 where
  pub magic_is : slice bytes 0 4 ≡ magic
  pub header_length : ℕ
  pub header_field : read_u32 bytes 4 ≡ ok header_length
  pub length_field : read_u32 bytes 8 ≡ ok (length bytes)
  pub behind : 12 ≤ header_length
  pub fits : header_length ≤ length bytes

-- each piece is one chunk of that magic
abbrev pub AllChunks : List ℕ → List (List ℕ) → Type 0
AllChunks magic [] = Unit {0}
AllChunks magic (piece ∷ pieces) = IsChunk magic piece × AllChunks magic pieces

is_range :
    (bytes : List ℕ) (offset : ℕ) (expected : List ℕ)
    → is_some_of (get_range bytes offset 4) expected ≡ true
    → eq_bytes (slice bytes offset (offset + 4)) expected ≡ true
unfolding get_range
is_range bytes offset expected h = ground arith

-- the bytes that `require_magic` accepts
pub require_magic_inv :
    (bytes : List ℕ) (offset : ℕ) (expected : List ℕ) {r : Unit {0}}
    → require_magic bytes offset expected ≡ ok r
    → slice bytes offset (offset + 4) ≡ expected
unfolding require_magic
require_magic_inv bytes offset expected h = eq_bytes→≡ (slice bytes offset (offset + 4)) expected (
    is_range bytes offset expected
      (passed (length expected == 4) (is_some_of (get_range bytes offset 4) expected) _ h))
  where
    passed : (a b : Bool) (e : Error) {r : Unit {0}} → ensure (a && b) e ≡ ok r → b ≡ true
    passed true true e h = refl
    passed true false e h = cc
    passed false b e h = cc

chunk_header_end :
    (bytes : List ℕ) (offset : ℕ) (magic : List ℕ) {h : ChunkHeader}
    → chunk_header bytes offset magic ≡ ok h
    → (total : ℕ) × (read_u32 bytes (offset + 8) ≡ ok total) × (h.end ≡ offset + total)
unfolding chunk_header checked_end read_usize usize_value
chunk_header_end bytes offset magic {h} e = ground arith

chunk_header_magic :
    (bytes : List ℕ) (offset : ℕ) (magic : List ℕ) {h : ChunkHeader}
    → chunk_header bytes offset magic ≡ ok h
    → require_magic bytes offset magic ≡ ok tt
unfolding chunk_header
chunk_header_magic bytes offset magic e =
    let (_, first, _) = >>=-eq-ok (require_magic bytes offset magic) _ e in first

-- The piece from an accepted header up to the end that it gives is one chunk.
pub chunk_header-IsChunk :
    (bytes : List ℕ) (offset : ℕ) (magic : List ℕ) {h : ChunkHeader}
    → chunk_header bytes offset magic ≡ ok h
    → IsChunk magic (slice bytes offset h.end)
chunk_header-IsChunk bytes offset magic {h} e =
    let b = chunk_header_bounds bytes offset magic e in
    let size = length-slice bytes offset h.end (omega (arith, b)) b.2 in
    let (total, field, ends) = chunk_header_end bytes offset magic e in
    record {
      magic_is =
          slice-slice bytes offset h.end 0 4 offset (offset + 4) (omega arith) (omega (arith, b))
            (omega arith) refl
          ∙ require_magic_inv bytes offset magic (chunk_header_magic bytes offset magic e);
      header_length = h.header_length;
      header_field = chunk_header-length_field bytes offset magic e;
      length_field =
          read_u32_in (slice bytes offset h.end) 8 (omega (arith, size, b))
          ∙ ap (λ t. ok (from_le_bytes t))
              (slice-slice bytes offset h.end 8 12 (offset + 8) (offset + 8 + 4) (omega arith)
                (omega (arith, b)) refl (omega arith))
          ∙ ap ok (sym (read_u32_inv bytes (offset + 8) field).1 ∙ omega (arith, ends, size));
      behind = b.0;
      fits = omega (arith, b, size);
    }
