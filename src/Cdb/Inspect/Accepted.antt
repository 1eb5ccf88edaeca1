-- ===== src/Cdb/Inspect/Accepted.antt =====
-- What an inspection that succeeds has checked.
use libopod.Base.{ℕ, suc, ◌≤◌, ◌<◌, ◌≡◌, inl, inr, true, Option, some, List, map, arith, flatten}
use libopod.Base.Lists.{length, take}
use libopod.Error.{Result, ok, err, ◌>>=◌, and_then-eq-ok, then_run-eq-ok, Result-cases}
use libopod.Bytes.{read_u32}
use libopod.Cdb.Chunk.{mhbd, eq_bytes, usize_mod}
use libopod.Cdb.Hashab.{Hashab}
use libopod.Cdb.Split.{split_datasets}
use libopod.Cdb.Split.Partition.{split_datasets-flatten}
use libopod.Cdb.Inspect.{
  CdbInfo, CdbDatasetInfo, describe, inspect_header, decode_payload, inspect_cdb, scan_datasets,
  max_datasets, min_mhbd_header,
}
use libopod.Cdb.Inspect.Scan.{total_lengths, scan_datasets_returns, scan_datasets-split_datasets}

pub inspect_header_inv :
    (bytes : List ℕ) {h : ℕ × ℕ × ℕ}
    → inspect_header bytes ≡ ok h
    → (min_mhbd_header ≤ h.0)
      × (h.0 ≤ length bytes)
      × (h.1 ≤ max_datasets)
      × (h.2 ≡ 1)
      × (eq_bytes (take 4 bytes) mhbd ≡ true)
      × (read_u32 bytes 4 ≡ ok h.0)
      × (read_u32 bytes 8 ≡ ok (length bytes))
      × (read_u32 bytes 0x14 ≡ ok h.1)
unfolding inspect_header
inspect_header_inv bytes h = ground arith

inspect_header_small :
    (bytes : List ℕ) {h : ℕ × ℕ × ℕ} → inspect_header bytes ≡ ok h → h.0 < usize_mod
unfolding inspect_header
inspect_header_small bytes h = ground arith

module _ (inflate : ℕ → List ℕ → Option (List ℕ)) (hashab : Hashab) where
  -- Whatever the bytes and the decoder, an inspection ends with a description or an error.
  pub inspect_cdb_returns :
      (bytes : List ℕ) (guid : Option (List ℕ))
      → (r : Result CdbInfo) × (inspect_cdb inflate hashab bytes guid ≡ some r)
  unfolding inspect_cdb
  inspect_cdb_returns bytes guid = elim (Result-cases (inspect_header bytes)) [
    | inr (e, bad) ↦ (err e, rw bad)
    | inl (h, good) ↦ elim (Result-cases (decode_payload inflate bytes h.0)) [
      | inr (e, bad) ↦ (err e, rw (good, bad))
      | inl (payload, decoded) ↦
          let (r, ran) = scan_datasets_returns payload h.1 in
          (r >>= describe hashab bytes guid h payload, rw (good, decoded, ran))
    ]
  ]

  -- the payload that an accepted file holds, cut into its datasets
  pub record IsCut (bytes payload : List ℕ) (info : CdbInfo) : Type 0 where
    pub pieces : List (List ℕ)
    pub decoded : decode_payload inflate bytes info.header_length ≡ ok payload
    pub split :
        split_datasets (suc (length payload)) payload info.declared_children ≡ some (ok pieces)
    pub whole : flatten pieces ≡ payload
    pub number : length pieces ≡ info.declared_children
    pub few : info.declared_children ≤ max_datasets
    pub lengths : map length pieces ≡ total_lengths info.datasets

  describe_inv :
      (bytes : List ℕ) (guid : Option (List ℕ)) (h : ℕ × ℕ × ℕ) (payload : List ℕ)
      (datasets : List CdbDatasetInfo) {info : CdbInfo}
      → describe hashab bytes guid h payload datasets ≡ ok info
      → (info.header_length ≡ h.0) × (info.declared_children ≡ h.1) × (info.datasets ≡ datasets)
  unfolding describe
  describe_inv bytes guid h payload datasets e = ground arith

  IsCut-describe :
      (bytes : List ℕ) (guid : Option (List ℕ)) (h : ℕ × ℕ × ℕ) (payload : List ℕ)
      (datasets : List CdbDatasetInfo) {info : CdbInfo}
      → inspect_header bytes ≡ ok h
      → decode_payload inflate bytes h.0 ≡ ok payload
      → scan_datasets payload h.1 ≡ some (ok datasets)
      → describe hashab bytes guid h payload datasets ≡ ok info
      → (read_u32 bytes 4 ≡ ok info.header_length)
        × (read_u32 bytes 8 ≡ ok (length bytes))
        × (info.header_length ≤ length bytes)
        × ((payload : List ℕ) × IsCut bytes payload info)
  IsCut-describe bytes guid h payload datasets {info} header decoded scanned e =
      let kept = describe_inv bytes guid h payload datasets e in
      let checked = inspect_header_inv bytes header in
      let (pieces, cut, lengths) = scan_datasets-split_datasets payload h.1 scanned in
      let whole = split_datasets-flatten (suc (length payload)) payload h.1 cut in
      (
        rw kept.0 checked.5,
        checked.6,
        rw kept.0 checked.1,
        (
          payload,
          record {
            pieces = pieces;
            decoded = rw kept.0 decoded;
            split = rw kept.1 cut;
            whole = whole.0;
            number = rw kept.1 whole.1;
            few = rw kept.1 checked.2;
            lengths = rw kept.2 lengths;
          },
        ),
      )

  -- An inspection that succeeds describes the file: its length fields are the ones read, and the
  -- decoded payload is cut by `split_datasets` into as many datasets as are declared, of the
  -- reported lengths, which together are the whole payload.
  pub inspect_cdb-IsCut :
      (bytes : List ℕ) (guid : Option (List ℕ)) {info : CdbInfo}
      → inspect_cdb inflate hashab bytes guid ≡ some (ok info)
      → (read_u32 bytes 4 ≡ ok info.header_length)
        × (read_u32 bytes 8 ≡ ok (length bytes))
        × (info.header_length ≤ length bytes)
        × ((payload : List ℕ) × IsCut bytes payload info)
  unfolding inspect_cdb
  inspect_cdb-IsCut bytes guid {info} e =
      let (h, header, e1) = then_run-eq-ok (inspect_header bytes) _ e in
      let (payload, decoded, e2) = then_run-eq-ok (decode_payload inflate bytes h.0) _ e1 in
      let (datasets, scanned, e3) = and_then-eq-ok (scan_datasets payload h.1) _ e2 in
      IsCut-describe bytes guid h payload datasets header decoded scanned e3

  pub inspect_cdb-declared :
      (bytes : List ℕ) (guid : Option (List ℕ)) {info : CdbInfo}
      → inspect_cdb inflate hashab bytes guid ≡ some (ok info)
      → read_u32 bytes 0x14 ≡ ok info.declared_children
  unfolding inspect_cdb
  inspect_cdb-declared bytes guid {info} e =
      let (h, header, e1) = then_run-eq-ok (inspect_header bytes) _ e in
      let (payload, decoded, e2) = then_run-eq-ok (decode_payload inflate bytes h.0) _ e1 in
      let (datasets, scanned, e3) = and_then-eq-ok (scan_datasets payload h.1) _ e2 in
      let kept = describe_inv bytes guid h payload datasets e3 in
      rw (kept.1) (inspect_header_inv bytes header).7

  pub inspect_cdb_small :
      (bytes : List ℕ) (guid : Option (List ℕ)) {info : CdbInfo}
      → inspect_cdb inflate hashab bytes guid ≡ some (ok info)
      → info.header_length < usize_mod
  unfolding inspect_cdb
  inspect_cdb_small bytes guid {info} e =
      let (h, header, e1) = then_run-eq-ok (inspect_header bytes) _ e in
      let (payload, decoded, e2) = then_run-eq-ok (decode_payload inflate bytes h.0) _ e1 in
      let (datasets, scanned, e3) = and_then-eq-ok (scan_datasets payload h.1) _ e2 in
      let kept = describe_inv bytes guid h payload datasets e3 in
      rw (kept.0) (inspect_header_small bytes header)
