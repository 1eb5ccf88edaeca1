-- ===== src/Cdb/Removal/Signed.antt =====
-- Signing keeps the form of an assembled file, and an assembled file passes the inspection.
use libopod.Base.{
  ℕ, ◌+◌, ◌-◌, ◌≤◌, ◌<◌, ◌≡◌, refl, sym, ap, ◌∙◌, true, Option, some, inl, inr, List, arith,
}
use libopod.Base.Tests.{ltb, lt→ltb, le→leb, le→ltb_false, ==_refl}
use libopod.Base.Lists.{length, take, drop, slice, drop-drop, take_all}
use libopod.Base.Slices.{take-take_le, slice-slice, slice-eq-drop-take}
use libopod.Error.{Error, Result-cases, ok, err}
use libopod.Bytes.{read_u16, read_u32}
use libopod.Bytes.Laws.{read_le_in}
use libopod.Bytes.Frame.{read_le-take, read_le-middle}
use libopod.Cdb.Chunk.{eq_bytes, mhbd, usize_mod}
use libopod.Cdb.Hashab.{Hashab}
use libopod.Cdb.Inspect.{
  CdbInfo, CdbDatasetInfo, inspect_header, decode_payload, describe, max_uncompressed_bytes,
  max_datasets, min_mhbd_header,
}
use libopod.Cdb.Removal.Assemble.{IsAssembled}
use libopod.Hashab.{sign_database}
use libopod.Hashab.Signed.{sign_database_frame}

-- Signing an assembled file.
pub sign_database-IsAssembled :
    (sha1 : List ℕ → List ℕ) (header compressed bytes guid random : List ℕ) {out : List ℕ}
    → 0xe4 ≤ length header
    → IsAssembled header compressed bytes
    → sign_database sha1 bytes guid random ≡ ok out
    → IsAssembled header compressed out
unfolding read_u16 read_u32
sign_database-IsAssembled sha1 header compressed bytes guid random {out} long a e =
    let (same, first, scheme, middle, rest) = sign_database_frame sha1 bytes guid random e in
    let size = a.size in
    let old = λ (offset : ℕ) (h : offset + 4 ≤ 0x30).
      read_le-take 4 out bytes offset 0x30 h (omega (arith, same, size, long))
        (omega (arith, size, long)) first in
    let inner =
      λ (c d c' d' : ℕ) (le : c ≤ d) (fit : 0x32 + d ≤ 0xab) (p : c' ≡ 0x32 + c)
          (q : d' ≡ 0x32 + d).
        sym (slice-slice out 0x32 0xab c d c' d' le fit p q)
        ∙ ap (λ t. slice t c d) middle
        ∙ slice-slice bytes 0x32 0xab c d c' d' le fit p q in
    record {
      size = same ∙ size;
      stream =
          sym (drop-drop (length header - 0xe4) 0xe4 (length header) out (omega (arith, long)))
          ∙ ap (drop (length header - 0xe4)) rest
          ∙ drop-drop (length header - 0xe4) 0xe4 (length header) bytes (omega (arith, long))
          ∙ a.stream;
      magic =
          sym (take-take_le 4 0x30 out (omega arith))
          ∙ ap (take 4) first
          ∙ take-take_le 4 0x30 bytes (omega arith)
          ∙ a.magic;
      header_field = old 4 (omega arith) ∙ a.header_field;
      length_field = old 8 (omega arith) ∙ a.length_field ∙ ap ok (sym same);
      count_field = old 0x14 (omega arith) ∙ a.count_field;
      flag =
          read_le-middle 2 out bytes 0xa8 0x32 0xab (omega arith) (omega arith)
            (omega (arith, same, size, long)) (omega (arith, size, long)) middle
          ∙ a.flag;
      before_length =
          sym (take-take_le 8 0x30 out (omega arith))
          ∙ ap (take 8) first
          ∙ take-take_le 8 0x30 bytes (omega arith)
          ∙ a.before_length;
      before_scheme =
          slice-eq-drop-take out 12 0x30 (omega arith)
          ∙ ap (drop 12) first
          ∙ sym (slice-eq-drop-take bytes 12 0x30 (omega arith))
          ∙ a.before_scheme;
      before_flag = inner 0 0x76 0x32 0xa8 (omega arith) (omega arith) refl refl ∙ a.before_flag;
      before_signature =
          inner 0x78 0x79 0xaa 0xab (omega arith) (omega arith) refl refl ∙ a.before_signature;
      behind_signature = ap (take (length header - 0xe4)) rest ∙ a.behind_signature;
    }

module _ (header compressed out : List ℕ) (a : IsAssembled header compressed out) where
  -- the inspection's checks of the header
  pub inspect_header-IsAssembled :
      (declared : ℕ)
      → 0xe4 ≤ length header
      → length header < usize_mod
      → eq_bytes (take 4 header) mhbd ≡ true
      → read_u32 header 4 ≡ ok (length header)
      → read_u32 header 0x14 ≡ ok declared
      → declared ≤ max_datasets
      → inspect_header out ≡ ok (length header, declared, 1)
  unfolding inspect_header
  inspect_header-IsAssembled declared long host magic own count few =
      let size = a.size in
      let least = le→leb min_mhbd_header (length out) (omega (arith, size, long)) in
      let is_mhbd = ap (λ t. eq_bytes t mhbd) a.magic ∙ magic in
      let field = a.header_field ∙ own in
      let fits : ltb (length header) usize_mod ≡ true = lt→ltb (length header) usize_mod host in
      let low = le→ltb_false (length header) min_mhbd_header (omega (arith, long)) in
      let high = le→ltb_false (length out) (length header) (omega (arith, size)) in
      let counted = a.count_field ∙ count in
      let bounded = le→leb declared max_datasets few in
      rw
        (
          least,
          is_mhbd,
          field,
          fits,
          low,
          high,
          a.length_field,
          ==_refl (length out),
          counted,
          bounded,
          a.flag,
        )
        refl

  no_error :
      (hashab : Hashab) (guid : Option (List ℕ)) (h : ℕ × ℕ × ℕ) (payload : List ℕ)
      (datasets : List CdbDatasetInfo) {version scheme indicator : ℕ} {e : Error}
      → read_u32 out 0x10 ≡ ok version
      → read_u16 out 0x30 ≡ ok scheme
      → read_u16 out 0x70 ≡ ok indicator
      → describe hashab out guid h payload datasets ≡ err e
      → ⊥
  unfolding describe
  no_error hashab guid h payload datasets first second third bad = ground (arith)

  pub describe_ok :
      (hashab : Hashab) (guid : Option (List ℕ)) (h : ℕ × ℕ × ℕ) (payload : List ℕ)
      (datasets : List CdbDatasetInfo)
      → 0xe4 ≤ length header
      → (info : CdbInfo) × (describe hashab out guid h payload datasets ≡ ok info)
  unfolding read_u16 read_u32
  describe_ok hashab guid h payload datasets long =
      let size = a.size in
      elim (Result-cases (describe hashab out guid h payload datasets)) [
        | inl good ↦ good
        | inr (e, bad) ↦ absurd (
            no_error hashab guid h payload datasets
              (read_le_in 4 out 0x10 (omega (arith, size, long)))
              (read_le_in 2 out 0x30 (omega (arith, size, long)))
              (read_le_in 2 out 0x70 (omega (arith, size, long))) bad)
      ]

  -- zlib gives back what it compressed, up to the limit
  pub decode_payload-IsAssembled :
      (inflate : ℕ → List ℕ → Option (List ℕ)) (uncompressed : List ℕ)
      → inflate (max_uncompressed_bytes + 1) compressed
        ≡ some (take (max_uncompressed_bytes + 1) uncompressed)
      → length uncompressed ≤ max_uncompressed_bytes
      → decode_payload inflate out (length header) ≡ ok uncompressed
  unfolding decode_payload
  decode_payload-IsAssembled inflate uncompressed inflated small =
      let size = a.size in
      let inside = le→leb (length header) (length out) (omega (arith, size)) in
      let all = take_all (max_uncompressed_bytes + 1) uncompressed (omega (arith, small)) in
      let fits = le→ltb_false max_uncompressed_bytes (length uncompressed) small in
      let read = ap (inflate (max_uncompressed_bytes + 1)) a.stream ∙ inflated ∙ ap some all in
      rw (inside, read, fits) refl
