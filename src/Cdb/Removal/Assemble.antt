-- ===== src/Cdb/Removal/Assemble.antt =====
-- The file that `finalize_cdb` signs: a patched header with the compressed stream behind it.
use libopod.Base.{
  ℕ, ◌+◌, ◌≤◌, ◌<◌, ◌≡◌, refl, true, sym, ap, ◌∙◌, Option, some, List, ◌++◌, ◌⊎◌, inl, inr, arith,
}
use libopod.Base.Lists.{
  length, take, drop, slice, splice, length-append, take-append_le, drop-append_at,
}
use libopod.Base.Slices.{slice-append_le, slice-splice_before, slice-splice_after}
use libopod.Base.Tests.{ltb, lt→ltb, Option-cases}
use libopod.Error.{ok, >>=-eq-ok}
use libopod.Bytes.{read_u16, read_u32, to_le_bytes, write_le, write_u16, write_u32}
use libopod.Bytes.Laws.{
  read_le-write_le, read_le-write_le_ne, length-write_le, write_le_in, write_le_inv,
  length-to_le_bytes,
}
use libopod.Bytes.Frame.{read_le-take, drop-write_le, take-write_le}
use libopod.Cdb.Index.{u32_from, u32_mod}
use libopod.Cdb.Index.Writes.{u32_from_inv}
use libopod.Cdb.Hashab.{Hashab}
use libopod.Cdb.Removal.{assemble_cdb, patch_header}

-- A file of a header and a stream, with its length and flag fields set. The header is otherwise as it
-- was, but for the fields of the scheme and of the signature, which are still to be written.
pub record IsAssembled (header compressed out : List ℕ) : Type 0 where
  pub size : length out ≡ length header + length compressed
  pub stream : drop (length header) out ≡ compressed
  pub magic : take 4 out ≡ take 4 header
  pub header_field : read_u32 out 4 ≡ read_u32 header 4
  pub length_field : read_u32 out 8 ≡ ok (length out)
  pub count_field : read_u32 out 0x14 ≡ read_u32 header 0x14
  pub flag : read_u16 out 0xa8 ≡ ok 1
  pub before_length : take 8 out ≡ take 8 header
  pub before_scheme : slice out 12 0x30 ≡ slice header 12 0x30
  pub before_flag : slice out 0x32 0xa8 ≡ slice header 0x32 0xa8
  pub before_signature : slice out 0xaa 0xab ≡ slice header 0xaa 0xab
  pub behind_signature : slice out 0xe4 (length header) ≡ slice header 0xe4 (length header)

-- a range that a write does not touch
slice-write_le :
    (n : ℕ) (bs : List ℕ) (offset v a b : ℕ) {out : List ℕ}
    → write_le n bs offset v ≡ ok out
    → a ≤ b
    → (b ≤ offset) ⊎ (offset + n ≤ a)
    → slice out a b ≡ slice bs a b
slice-write_le n bs offset v a b e le apart =
    let w = write_le_inv n bs offset v e in
    let len = length-to_le_bytes n v in
    ap (λ t. slice t a b) w.1 ∙ elim apart [
      | inl before ↦
          slice-splice_before bs offset (to_le_bytes n v) a b (omega (arith, w.0)) le before
      | inr behind ↦
          slice-splice_after bs offset (to_le_bytes n v) a b (omega (arith, w.0, len))
            (omega (arith, len, behind))
    ]

module _ (header compressed : List ℕ) (long : 0xe4 ≤ length header) where
  write_both :
      {flagged out : List ℕ}
      → write_le 2 (header ++ compressed) 0xa8 1 ≡ ok flagged
      → length flagged < u32_mod
      → write_le 4 flagged 8 (length flagged) ≡ ok out
      → IsAssembled header compressed out
  unfolding read_u16 read_u32
  write_both {flagged} {out} first fits second =
      let whole = length-append header compressed in
      let size1 = length-write_le 2 (header ++ compressed) 0xa8 1 first in
      let size2 = length-write_le 4 flagged 8 (length flagged) second in
      let old = λ (n offset : ℕ) (h : offset + n ≤ 0xa8).
        read_le-write_le_ne 2 n (header ++ compressed) 0xa8 offset 1 first (inl h)
        ∙ read_le-take n (header ++ compressed) header offset (length header)
            (omega (arith, h, long)) (omega (arith, whole)) (omega arith)
            (take-append_le (length header) header compressed (omega arith)) in
      let same =
        λ (a b : ℕ) (le : a ≤ b) (fit : b ≤ length header) (low : (b ≤ 0xa8) ⊎ (0xa8 + 2 ≤ a))
            (high : 8 + 4 ≤ a).
          slice-write_le 4 flagged 8 (length flagged) a b second le (inr high)
          ∙ slice-write_le 2 (header ++ compressed) 0xa8 1 a b first le low
          ∙ slice-append_le header compressed a b le fit in
      record {
        size = size2 ∙ size1 ∙ whole;
        stream =
            drop-write_le 4 flagged 8 (length flagged) (length header) second (omega (arith, long))
            ∙ drop-write_le 2 (header ++ compressed) 0xa8 1 (length header) first
                (omega (arith, long))
            ∙ drop-append_at (length header) header compressed refl;
        magic =
            take-write_le 4 flagged 8 (length flagged) 4 second (omega arith)
            ∙ take-write_le 2 (header ++ compressed) 0xa8 1 4 first (omega arith)
            ∙ take-append_le 4 header compressed (omega (arith, long));
        header_field =
            read_le-write_le_ne 4 4 flagged 8 4 (length flagged) second (inl (omega arith))
            ∙ old 4 4 (omega arith);
        length_field =
            read_le-write_le 4 flagged 8 (length flagged) fits second ∙ ap ok (sym size2);
        count_field =
            read_le-write_le_ne 4 4 flagged 8 0x14 (length flagged) second (inr (omega arith))
            ∙ old 4 0x14 (omega arith);
        flag =
            read_le-write_le_ne 4 2 flagged 8 0xa8 (length flagged) second (inr (omega arith))
            ∙ read_le-write_le 2 (header ++ compressed) 0xa8 1 (omega arith) first;
        before_length =
            take-write_le 4 flagged 8 (length flagged) 8 second (omega arith)
            ∙ take-write_le 2 (header ++ compressed) 0xa8 1 8 first (omega arith)
            ∙ take-append_le 8 header compressed (omega (arith, long));
        before_scheme =
            same 12 0x30 (omega arith) (omega (arith, long)) (inl (omega arith)) (omega arith);
        before_flag =
            same 0x32 0xa8 (omega arith) (omega (arith, long)) (inl (omega arith)) (omega arith);
        before_signature =
            same 0xaa 0xab (omega arith) (omega (arith, long)) (inr (omega arith)) (omega arith);
        behind_signature =
            same 0xe4 (length header) long (omega arith) (inr (omega arith)) (omega arith);
      }

module _ (header : List ℕ) (long : 0xe4 ≤ length header) where
  -- A stream that leaves the file below 4 GiB is put behind the header.
  pub patch_header-IsAssembled :
      (compressed : List ℕ)
      → length header + length compressed < u32_mod
      → (out : List ℕ) × (patch_header header compressed ≡ ok out)
        × IsAssembled header compressed out
  unfolding patch_header write_u16 write_u32 u32_from
  patch_header-IsAssembled compressed small =
      let whole = length-append header compressed in
      let first = write_le_in 2 (header ++ compressed) 0xa8 1 (omega (arith, whole, long)) in
      let flagged = splice (header ++ compressed) 0xa8 (to_le_bytes 2 1) in
      let size1 : length flagged ≡ length (header ++ compressed) =
        length-write_le 2 (header ++ compressed) 0xa8 1 first in
      let second = write_le_in 4 flagged 8 (length flagged) (omega (arith, whole, size1, long)) in
      let fits = lt→ltb (length flagged) u32_mod (omega (arith, size1, whole, small)) in
      (
        splice flagged 8 (to_le_bytes 4 (length flagged)),
        patched first fits second,
        write_both header compressed long first (omega (arith, size1, whole, small)) second,
      )
    where
      patched :
          {flagged out : List ℕ}
          → write_le 2 (header ++ compressed) 0xa8 1 ≡ ok flagged
          → ltb (length flagged) u32_mod ≡ true
          → write_le 4 flagged 8 (length flagged) ≡ ok out
          → patch_header header compressed ≡ ok out
      patched first fits second = rw (first, fits) second

  pub patch_header_inv :
      (compressed : List ℕ) {out : List ℕ}
      → patch_header header compressed ≡ ok out
      → IsAssembled header compressed out
  unfolding patch_header write_u16 write_u32
  patch_header_inv compressed e =
      let (flagged, first, e1) = >>=-eq-ok (write_le 2 (header ++ compressed) 0xa8 1) _ e in
      let (size, checked, e2) = >>=-eq-ok (u32_from (length flagged)) _ e1 in
      let is = u32_from_inv (length flagged) checked in
      write_both header compressed long first is.1 (rw is.0 at e2)

module _ (inflate : ℕ → List ℕ → Option (List ℕ)) (deflate : List ℕ → Option (List ℕ))
    (hashab : Hashab) (header : List ℕ) where
  pub assemble_cdb-patch_header :
      (uncompressed compressed : List ℕ)
      → deflate uncompressed ≡ some compressed
      → assemble_cdb inflate deflate hashab header uncompressed ≡ patch_header header compressed
  unfolding assemble_cdb
  assemble_cdb-patch_header uncompressed compressed e = rw (e, assemble_cdb) refl

  pub assemble_cdb_inv :
      (uncompressed : List ℕ) {out : List ℕ}
      → assemble_cdb inflate deflate hashab header uncompressed ≡ ok out
      → (compressed : List ℕ) × (deflate uncompressed ≡ some compressed)
        × (patch_header header compressed ≡ ok out)
  unfolding assemble_cdb
  assemble_cdb_inv uncompressed e = elim (Option-cases (deflate uncompressed)) [
    | inl failed ↦ absurd (ground (arith, e, failed))
    | inr (compressed, made) ↦
        (compressed, made, sym (assemble_cdb-patch_header uncompressed compressed made) ∙ e)
  ]
