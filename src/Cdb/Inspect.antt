-- ===== src/Cdb/Inspect.antt =====
-- `inspect_cdb` and `decode_payload` of src/storage/binary/cdb.rs. The zlib decoder is a third
-- party's: `inflate limit bytes` is what reading at most `limit` decompressed bytes gives, and
-- `none` where the stream is invalid before that.
pub mod Scan
pub mod Accepted
use libopod.Base.{
  ℕ, zero, suc, ◌+◌, ◌-◌, ◌*◌, ◌^◌, Bool, true, false, ◌||◌, not, Option, none, some, List, [], ◌∷◌,
  ◌++◌,
}
use libopod.Base.Tests.{ltb, leb, ◌==◌, if◌then◌else◌}
use libopod.Base.Lists.{length, slice, drop, get_or, take}
use libopod.Error.{
  Result, Run, ok, err, ◌>>=◌, ◌>>◌, ensure, and_then, then_run, unsupported_compression,
}
use libopod.Bytes.{read_u16, read_u32}
use libopod.Cdb.Chunk.{mhbd, mhsd, eq_bytes, malformed_at, usize_mod}
use libopod.Cdb.Hashab.{Hashab, SignatureStatus}

abbrev pub min_mhbd_header : ℕ
min_mhbd_header = 0xad

abbrev pub max_datasets : ℕ
max_datasets = 64

abbrev pub max_uncompressed_bytes : ℕ
max_uncompressed_bytes = 512 * 1024 * 1024

pub record CdbDatasetInfo : Type 0 where
  pub kind : ℕ
  pub header_length : ℕ
  pub total_length : ℕ

pub record CdbInfo : Type 0 where
  pub physical_bytes : ℕ
  pub header_length : ℕ
  pub version : ℕ
  pub declared_children : ℕ
  pub checksum_scheme : ℕ
  pub checksum_indicator : ℕ
  pub compression_flag : ℕ
  pub hashab_version_prefix : ℕ × ℕ
  pub hashab_signature_status : Option SignatureStatus
  pub uncompressed_payload_bytes : ℕ
  pub datasets : List CdbDatasetInfo

-- One round of the loop over the payload, `found` datasets in: the dataset at `offset`, and
-- where it ends.
unfoldable pub scan_step : List ℕ → ℕ → ℕ → ℕ → Result (CdbDatasetInfo × ℕ)
scan_step payload declared offset found = do
  ensure (ltb found declared) (malformed_at offset)
  ensure (leb 16 (length payload - offset)) (malformed_at offset)
  ensure (eq_bytes (slice payload offset (offset + 4)) mhsd) (malformed_at offset)
  header ← read_u32 payload (offset + 4)
  total ← read_u32 payload (offset + 8)
  kind ← read_u32 payload (offset + 12)
  ensure (not (ltb header 16 || ltb total header)) (malformed_at (offset + 4))
  ensure (ltb total usize_mod) (malformed_at (offset + 8))
  ensure (ltb (offset + total) usize_mod) (malformed_at (offset + 8))
  ensure (leb (offset + total) (length payload)) (malformed_at (offset + 8))
  ok (record { kind = kind; header_length = header; total_length = total }, offset + total)

unfoldable pub scan_loop : ℕ → List ℕ → ℕ → ℕ → List CdbDatasetInfo → Run (List CdbDatasetInfo)
scan_loop zero payload declared offset datasets = none
scan_loop (suc fuel) payload declared offset datasets = elim (ltb offset (length payload)) [
  | false ↦ some (ok datasets)
  | true ↦ elim (scan_step payload declared offset (length datasets)) [
    | err e ↦ some (err e)
    | ok t ↦ scan_loop fuel payload declared t.1 (datasets ++ (t.0 ∷ []))
  ]
]

-- `if datasets.len() != declared_children { return malformed(0x14, ..) }`
unfoldable pub declared_count : ℕ → List CdbDatasetInfo → Result (List CdbDatasetInfo)
declared_count declared datasets =
    ensure (length datasets == declared) (malformed_at 0x14) >> ok datasets

-- Every round takes sixteen bytes or more, so this fuel is never used up.
unfoldable pub scan_datasets : List ℕ → ℕ → Run (List CdbDatasetInfo)
unfolding scan_loop declared_count
scan_datasets payload declared =
    and_then (scan_loop (suc (length payload)) payload declared 0 []) (declared_count declared)

module _ (inflate : ℕ → List ℕ → Option (List ℕ)) where
  unfoldable pub decode_payload : List ℕ → ℕ → Result (List ℕ)
  decode_payload bytes header_len =
      if leb header_len (length bytes)
      then elim (inflate (max_uncompressed_bytes + 1) (drop header_len bytes)) [
        | none ↦ err (malformed_at header_len)
        | some payload ↦
            if ltb max_uncompressed_bytes (length payload)
            then err (malformed_at header_len)
            else ok payload
      ]
      else err (malformed_at header_len)

-- The checks that come before the payload is decoded: header length, declared datasets, flag.
unfoldable pub inspect_header : List ℕ → Result (ℕ × ℕ × ℕ)
inspect_header bytes = do
  ensure (leb min_mhbd_header (length bytes)) (malformed_at 0)
  ensure (eq_bytes (take 4 bytes) mhbd) (malformed_at 0)
  header_length ← read_u32 bytes 4
  ensure (ltb header_length usize_mod) (malformed_at 4)
  ensure (not (ltb header_length min_mhbd_header || ltb (length bytes) header_length))
      (malformed_at 4)
  declared_total ← read_u32 bytes 8
  ensure (declared_total == length bytes) (malformed_at 8)
  declared_children ← read_u32 bytes 0x14
  ensure (leb declared_children max_datasets) (malformed_at 0x14)
  compression_flag ← read_u16 bytes 0xa8
  ensure (compression_flag == 1) (unsupported_compression compression_flag)
  ok (header_length, declared_children, compression_flag)

module _ (hashab : Hashab) where
  -- the description, once the datasets are known
  unfoldable pub describe :
      List ℕ → Option (List ℕ) → ℕ × ℕ × ℕ → List ℕ → List CdbDatasetInfo → Result CdbInfo
  describe bytes firewire_guid h payload datasets = do
    version ← read_u32 bytes 0x10
    checksum_scheme ← read_u16 bytes 0x30
    checksum_indicator ← read_u16 bytes 0x70
    ok (record {
      physical_bytes = length bytes;
      header_length = h.0;
      version = version;
      declared_children = h.1;
      checksum_scheme = checksum_scheme;
      checksum_indicator = checksum_indicator;
      compression_flag = h.2;
      hashab_version_prefix = (get_or bytes 0xab 0, get_or bytes 0xac 0);
      hashab_signature_status = elim firewire_guid [
        | none ↦ none
        | some guid ↦ hashab.verify_database_signature bytes guid
      ];
      uncompressed_payload_bytes = length payload;
      datasets = datasets;
    })

module _ (inflate : ℕ → List ℕ → Option (List ℕ)) (hashab : Hashab) where
  unfoldable pub inspect_cdb : List ℕ → Option (List ℕ) → Run CdbInfo
  inspect_cdb bytes firewire_guid = then_run (inspect_header bytes) λ h.
      then_run (decode_payload inflate bytes h.0) λ payload.
        and_then (scan_datasets payload h.1) (describe hashab bytes firewire_guid h payload)
