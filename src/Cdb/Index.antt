-- ===== src/Cdb/Index.antt =====
-- `rewrite_mhod52` and `rewrite_mhod53` of src/storage/binary/cdb_edit.rs: a sorted index lists
-- track positions, its jump table counts the slots of that index for each first letter.
pub mod Renumber
pub mod Values
pub mod Writes
pub mod Sorted
pub mod Jump
use libopod.Base.{
  ℕ, zero, suc, ◌+◌, ◌-◌, ◌*◌, ◌^◌, Bool, true, false, ◌&&◌, not, List, [], ◌∷◌, ◌++◌, min,
}
use libopod.Base.Tests.{ltb, leb, ◌==◌, if◌then◌else◌}
use libopod.Base.Lists.{length, take, slice, any, count_if}
use libopod.Error.{Result, ok, err, ◌>>=◌, ◌>>◌, ensure}
use libopod.Bytes.{read_u32, write_u32, to_le_bytes}
use libopod.Cdb.Chunk.{
  mhod, malformed_at, unverified, read_usize, checked_end, chunk_header, ChunkHeader, usize_mod,
}

abbrev pub u32_mod : ℕ
u32_mod = 2 ^ 32

-- `u32::try_from(n).map_err(|_| verification(..))`
unfoldable pub u32_from : ℕ → Result ℕ
u32_from n = if ltb n u32_mod then ok n else err unverified

-- `u32::try_from(n).unwrap_or(u32::MAX)`
unfoldable pub u32_or_max : ℕ → ℕ
u32_or_max n = if ltb n u32_mod then n else u32_mod - 1

-- `count.saturating_mul(k)` of a `usize`
unfoldable pub saturating_mul : ℕ → ℕ → ℕ
saturating_mul count k = min (count * k) (usize_mod - 1)

abbrev pub contains : List ℕ → ℕ → Bool
contains xs v = any (λ x. x == v) xs

-- how many of the removed positions lie before `v`
abbrev pub before : List ℕ → ℕ → ℕ
before removed v = count_if (λ position. ltb position v) removed

-- `value.saturating_sub(..)`: a retained position moves up by the removed ones before it
unfoldable pub renumber : List ℕ → ℕ → ℕ
unfolding u32_or_max
renumber removed value = value - u32_or_max (before removed value)

-- The loop over the entries of a sorted index; the result is the new body and the removed slots.
module _ (chunk : List ℕ) (body : ℕ) (removed : List ℕ) where
  unfoldable pub entries52 : ℕ → ℕ → List ℕ → List ℕ → Result (List ℕ × List ℕ)
  entries52 zero index output slots = ok (output, slots)
  entries52 (suc left) index output slots = do
    value ← read_u32 chunk (body + 48 + index * 4)
    elim (contains removed value) [
      | true ↦ do slot ← u32_from index; entries52 left (index + 1) output (slots ++ (slot ∷ []))
      | false ↦ entries52 left (index + 1) (output ++ to_le_bytes 4 (renumber removed value)) slots
    ]

-- The count field of the body and the total length of the chunk, written last.
unfoldable pub finish_mhod : ℕ → List ℕ → ℕ → Result (List ℕ)
finish_mhod body output count = do
  count32 ← u32_from count
  counted ← write_u32 output (body + 4) count32
  output_len ← u32_from (length counted)
  write_u32 counted 8 output_len

unfoldable pub rewrite_mhod52 : List ℕ → List ℕ → Result (List ℕ × List ℕ)
rewrite_mhod52 chunk removed_positions = do
  header ← chunk_header chunk 0 mhod
  ensure (leb 48 (length chunk - header.header_length)) (malformed_at header.header_length)
  count ← read_usize chunk (header.header_length + 4)
  entries ←
      checked_end (header.header_length + 48) (saturating_mul count 4) (length chunk)
        (header.header_length + 4)
  ensure (entries == length chunk) (malformed_at entries)
  walked ←
      entries52 chunk header.header_length removed_positions count 0
        (take (header.header_length + 48) chunk) []
  output ← finish_mhod header.header_length walked.0 (count - length walked.1)
  ok (output, walked.1)

abbrev pub inside : List ℕ → ℕ → ℕ → ℕ
inside slots start end = count_if (λ slot. leb start slot && ltb slot end) slots

-- `start.saturating_add(item_count)` of a `u32`
unfoldable pub group_end : ℕ → ℕ → ℕ
group_end start item_count = min (start + item_count) (u32_mod - 1)

unfoldable pub regroup : List ℕ → ℕ → ℕ → ℕ
unfolding u32_or_max group_end
regroup slots start item_count =
    item_count - u32_or_max (inside slots start (group_end start item_count))

-- One entry of a jump table, at its place in the chunk, with its new start and count.
unfoldable pub entry53 : List ℕ → ℕ → ℕ → ℕ → Result (List ℕ)
entry53 chunk entry_offset start count = do
  entry ← write_u32 (slice chunk entry_offset (entry_offset + 12)) 4 start
  write_u32 entry 8 count

-- The loop over the entries of a jump table; an entry that is left with nothing is dropped.
module _ (chunk : List ℕ) (body : ℕ) (slots : List ℕ) where
  unfoldable pub entries53 : ℕ → ℕ → List ℕ → ℕ → Result (List ℕ × ℕ)
  entries53 zero index output retained = ok (output, retained)
  entries53 (suc left) index output retained = do
    start ← read_u32 chunk (body + 16 + index * 12 + 4)
    item_count ← read_u32 chunk (body + 16 + index * 12 + 8)
    elim (regroup slots start item_count == 0) [
      | true ↦ entries53 left (index + 1) output retained
      | false ↦ do
        entry ←
            entry53 chunk (body + 16 + index * 12) (renumber slots start)
              (regroup slots start item_count)
        entries53 left (index + 1) (output ++ entry) (retained + 1)
    ]

unfoldable pub rewrite_mhod53 : List ℕ → List ℕ → Result (List ℕ)
rewrite_mhod53 chunk removed_slots = do
  header ← chunk_header chunk 0 mhod
  ensure (leb 16 (length chunk - header.header_length)) (malformed_at header.header_length)
  count ← read_usize chunk (header.header_length + 4)
  entries ←
      checked_end (header.header_length + 16) (saturating_mul count 12) (length chunk)
        (header.header_length + 4)
  ensure (entries == length chunk) (malformed_at entries)
  walked ←
      entries53 chunk header.header_length removed_slots count 0
        (take (header.header_length + 16) chunk) 0
  finish_mhod header.header_length walked.0 walked.1
