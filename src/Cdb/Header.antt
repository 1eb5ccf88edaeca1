-- ===== src/Cdb/Header.antt =====
-- The head of a dataset that holds a list, as `rewrite_track_dataset` and
-- `rewrite_playlist_dataset` of src/storage/binary/cdb_edit.rs both read it.
use libopod.Base.{ℕ, ◌+◌, ◌-◌, ◌≤◌, ◌<◌, ◌≡◌, ap, ◌∙◌, true, not, List, arith}
use libopod.Base.Tests.{ltb}
use libopod.Base.Lists.{length, slice}
use libopod.Error.{Result, ok, ◌>>=◌, ◌>>◌, ensure, >>=-eq-ok, ensure-eq-ok, ok-injective}
use libopod.Bytes.{read_u32}
use libopod.Cdb.Chunk.{
  mhsd, malformed_at, require_magic, read_usize, checked_end, chunk_header, ChunkHeader, usize_mod,
}
use libopod.Cdb.Chunk.Bounds.{chunk_header_bounds, checked_end_inv, read_usize_inv}
use libopod.Cdb.Chunk.Whole.{require_magic_inv}

-- where the list's header stands, where its items start, and how many there are
pub record ListHeader : Type 0 where
  pub list : ℕ
  pub body : ℕ
  pub count : ℕ

unfoldable pub list_header : List ℕ → List ℕ → Result ListHeader
list_header dataset magic = do
  header ← chunk_header dataset 0 mhsd
  require_magic dataset header.header_length magic
  list_length ← read_usize dataset (header.header_length + 4)
  ensure (not (ltb list_length 12)) (malformed_at (header.header_length + 4))
  count ← read_usize dataset (header.header_length + 8)
  body ← checked_end header.header_length list_length (length dataset) (header.header_length + 4)
  ok (record { list = header.header_length; body = body; count = count })

not-ltb : (a b : ℕ) → not (ltb a b) ≡ true → b ≤ a
not-ltb a b h = ground arith

list_header_fields :
    (dataset : List ℕ) (h : ChunkHeader) (count body list_length : ℕ) {lh : ListHeader}
    → record { list = h.header_length; body = body; count = count } ≡ lh
    → chunk_header dataset 0 mhsd ≡ ok h
    → 12 ≤ list_length
    → read_u32 dataset (h.header_length + 8) ≡ ok count
    → (body ≡ h.header_length + list_length) × (body ≤ length dataset) × (body < usize_mod)
    → (12 ≤ lh.list)
      × (lh.list + 12 ≤ lh.body)
      × (lh.body ≤ length dataset)
      × (read_u32 dataset (lh.list + 8) ≡ ok lh.count)
      × ((end : ℕ) × (chunk_header dataset 0 mhsd
            ≡ ok (record { header_length = lh.list; end = end })))
list_header_fields dataset h count body list_length same header long counted bounds =
    let b = chunk_header_bounds dataset 0 mhsd header in
    rw (← same) (b.0, omega (arith, bounds, long), bounds.1, counted, (h.end, header))

-- The items start behind the list's header of twelve bytes or more, inside the dataset, and their
-- number is the field eight bytes into that header, which stands behind the dataset's own.
pub list_header_inv :
    (dataset magic : List ℕ) {lh : ListHeader}
    → list_header dataset magic ≡ ok lh
    → (12 ≤ lh.list)
      × (lh.list + 12 ≤ lh.body)
      × (lh.body ≤ length dataset)
      × (read_u32 dataset (lh.list + 8) ≡ ok lh.count)
      × ((end : ℕ) × (chunk_header dataset 0 mhsd
            ≡ ok (record { header_length = lh.list; end = end })))
unfolding list_header
list_header_inv dataset magic {lh} e =
    let (h, header, e1) = >>=-eq-ok (chunk_header dataset 0 mhsd) _ e in
    let (_, _, e2) = >>=-eq-ok (require_magic dataset h.header_length magic) _ e1 in
    let (list_length, _, e3) = >>=-eq-ok (read_usize dataset (h.header_length + 4)) _ e2 in
    let (long, e4) = ensure-eq-ok (not (ltb list_length 12)) _ _ e3 in
    let (count, counted, e5) = >>=-eq-ok (read_usize dataset (h.header_length + 8)) _ e4 in
    let (body, checked, e6) =
      >>=-eq-ok (checked_end h.header_length list_length (length dataset) (h.header_length + 4)) _
        e5 in
    list_header_fields dataset h count body list_length (ok-injective e6) header
      (not-ltb list_length 12 long) (read_usize_inv dataset (h.header_length + 8) counted).0
      (checked_end_inv h.header_length list_length (length dataset) (h.header_length + 4) checked)

-- The list's header starts with the magic, and its own length is the field behind that.
pub list_header-magic :
    (dataset magic : List ℕ) {lh : ListHeader}
    → list_header dataset magic ≡ ok lh
    → (slice dataset lh.list (lh.list + 4) ≡ magic)
      × (read_u32 dataset (lh.list + 4) ≡ ok (lh.body - lh.list))
unfolding list_header
list_header-magic dataset magic {lh} e =
    let (h, header, e1) = >>=-eq-ok (chunk_header dataset 0 mhsd) _ e in
    let (_, first, e2) = >>=-eq-ok (require_magic dataset h.header_length magic) _ e1 in
    let (list_length, field, e3) = >>=-eq-ok (read_usize dataset (h.header_length + 4)) _ e2 in
    let (long, e4) = ensure-eq-ok (not (ltb list_length 12)) _ _ e3 in
    let (count, counted, e5) = >>=-eq-ok (read_usize dataset (h.header_length + 8)) _ e4 in
    let (body, checked, e6) =
      >>=-eq-ok (checked_end h.header_length list_length (length dataset) (h.header_length + 4)) _
        e5 in
    let ends =
      checked_end_inv h.header_length list_length (length dataset) (h.header_length + 4) checked in
    rw (← ok-injective e6) (
      require_magic_inv dataset h.header_length magic first,
      (read_usize_inv dataset (h.header_length + 4) field).0
          ∙ ap (λ (n : ℕ). ok n) (omega (arith, ends)),
    )
