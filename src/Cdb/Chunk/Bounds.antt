-- ===== src/Cdb/Chunk/Bounds.antt =====
-- What an accepted chunk header guarantees of the ranges that are cut from the buffer after it.
use libopod.Base.{ℕ, ◌+◌, ◌≤◌, ◌<◌, ◌≡◌, refl, sym, ap, ◌∙◌, List, arith}
use libopod.Base.Lists.{length, slice, length-slice}
use libopod.Base.Slices.{slice-slice}
use libopod.Error.{ok}
use libopod.Bytes.{read_u32, from_le_bytes}
use libopod.Bytes.Laws.{read_u32_inv, read_u32_in}
use libopod.Cdb.Chunk.{usize_mod, usize_value, checked_end, read_usize, ChunkHeader, chunk_header}

pub checked_end_inv :
    (start len bound offset : ℕ) {end : ℕ}
    → checked_end start len bound offset ≡ ok end
    → (end ≡ start + len) × (end ≤ bound) × (end < usize_mod)
unfolding checked_end
checked_end_inv start len bound offset h = ground arith

pub checked_end_in :
    (start len bound offset : ℕ)
    → start + len ≤ bound
    → bound < usize_mod
    → checked_end start len bound offset ≡ ok (start + len)
unfolding checked_end
checked_end_in start len bound offset h k = ground arith

pub read_usize_inv :
    (bytes : List ℕ) (offset : ℕ) {v : ℕ}
    → read_usize bytes offset ≡ ok v
    → (read_u32 bytes offset ≡ ok v) × (v < usize_mod)
unfolding read_usize
read_usize_inv bytes offset h = ground arith

pub read_usize_in :
    (bytes : List ℕ) (offset : ℕ) {v : ℕ}
    → read_u32 bytes offset ≡ ok v
    → v < usize_mod
    → read_usize bytes offset ≡ ok v
unfolding read_usize
read_usize_in bytes offset h k = ground arith

-- A chunk that `chunk_header` accepts lies inside the buffer, and its header inside the chunk.
pub chunk_header_bounds :
    (bytes : List ℕ) (offset : ℕ) (magic : List ℕ) {h : ChunkHeader}
    → chunk_header bytes offset magic ≡ ok h
    → (12 ≤ h.header_length)
      × (offset + h.header_length ≤ h.end)
      × (h.end ≤ length bytes)
      × (h.end < usize_mod)
unfolding chunk_header checked_end
chunk_header_bounds bytes offset magic {h} e = ground arith

pub chunk_header_field :
    (bytes : List ℕ) (offset : ℕ) (magic : List ℕ) {h : ChunkHeader}
    → chunk_header bytes offset magic ≡ ok h
    → read_u32 bytes (offset + 4) ≡ ok h.header_length
unfolding chunk_header read_usize usize_value
chunk_header_field bytes offset magic {h} e = ground (arith, e)

-- The header's length is a field of the chunk's own bytes.
pub chunk_header-length_field :
    (bytes : List ℕ) (offset : ℕ) (magic : List ℕ) {h : ChunkHeader}
    → chunk_header bytes offset magic ≡ ok h
    → read_u32 (slice bytes offset h.end) 4 ≡ ok h.header_length
chunk_header-length_field bytes offset magic {h} e =
    let b = chunk_header_bounds bytes offset magic e in
    let field = read_u32_inv bytes (offset + 4) (chunk_header_field bytes offset magic e) in
    let size = length-slice bytes offset h.end (omega (arith, b)) b.2 in
    read_u32_in (slice bytes offset h.end) 4 (omega (arith, size, b))
    ∙ ap (λ t. ok (from_le_bytes t))
        (slice-slice bytes offset h.end 4 8 (offset + 4) (offset + 4 + 4) (omega arith)
          (omega (arith, b)) refl (omega arith))
    ∙ ap ok (sym field.1)
