-- ===== src/Tests/Payloads.antt =====
-- Payloads of two datasets, one of them with an empty second dataset, and a whole file.
use libopod.Base.{flatten, map, ℕ, ◌≤◌, ◌≡◌, refl, Option, none, some, List, [], ◌∷◌, ◌++◌, arith}
use libopod.Base.Lists.{length}
use libopod.Error.{Result, ok}
use libopod.Bytes.{get_range, read_u16, read_u32, from_le_bytes}
use libopod.Cdb.Chunk.{mhsd, mhbd, require_magic, read_usize, checked_end}
use libopod.Cdb.Split.{split_datasets, split_step}
use libopod.Cdb.Split.Partition.{split_datasets-flatten}
use libopod.Cdb.Split.Progress.{here, round, split_datasets-zero_length}
use libopod.Cdb.Inspect.{
  CdbInfo, CdbDatasetInfo, scan_datasets, scan_step, inspect_cdb, inspect_header, decode_payload,
  describe,
}
use libopod.Cdb.Inspect.Scan.{scan_datasets-split_datasets, scan_datasets_returns}
use libopod.Cdb.Inspect.Accepted.{IsCut, inspect_cdb-IsCut, inspect_cdb_returns}
use libopod.Tests.Data.{unsigned, payload, zero_length_payload, le32, zeros}

abbrev pieces : List (List ℕ)
pieces = (mhsd ++ le32 16 ++ le32 16 ++ le32 1) ∷ (mhsd ++ le32 16 ++ le32 16 ++ le32 2) ∷ []

splits : split_datasets 33 payload 2 ≡ some (ok pieces)
unfolding split_datasets split_step require_magic read_usize checked_end read_u32 get_range
    from_le_bytes
splits = refl

split_datasets-flatten_example : (flatten pieces ≡ payload) × (length pieces ≡ 2)
split_datasets-flatten_example = split_datasets-flatten 33 payload 2 splits

first_step : split_step zero_length_payload 0 ≡ ok 16
unfolding split_step require_magic read_usize checked_end read_u32 get_range from_le_bytes
first_step = refl

second_magic : require_magic zero_length_payload 16 mhsd ≡ ok tt
unfolding require_magic get_range
second_magic = refl

second_length : read_u32 zero_length_payload 24 ≡ ok 0
unfolding read_u32 get_range from_le_bytes
second_length = refl

split_datasets-zero_length_example : split_datasets 1000 zero_length_payload 2 ≡ none
split_datasets-zero_length_example =
    split_datasets-zero_length zero_length_payload 16 (round (omega arith) first_step here)
      (omega arith) (omega arith) second_magic second_length 1000 2

abbrev two_datasets : List CdbDatasetInfo
two_datasets =
    record { kind = 1; header_length = 16; total_length = 16 }
    ∷ record { kind = 2; header_length = 16; total_length = 16 }
    ∷ []

scans : scan_datasets payload 2 ≡ some (ok two_datasets)
unfolding scan_datasets scan_step read_u32 get_range from_le_bytes
scans = refl

scan_datasets-split_datasets_example :
    (cut : List (List ℕ)) × (split_datasets 33 payload 2 ≡ some (ok cut))
    × (map length cut ≡ 16 ∷ 16 ∷ [])
scan_datasets-split_datasets_example = scan_datasets-split_datasets payload 2 scans

scan_datasets_returns_example :
    (r : Result (List CdbDatasetInfo)) × (scan_datasets zero_length_payload 2 ≡ some r)
scan_datasets_returns_example = scan_datasets_returns zero_length_payload 2

-- a decoder for streams that are stored as they are
abbrev stored : ℕ → List ℕ → Option (List ℕ)
stored limit bytes = some bytes

-- a file with a header of 173 bytes, and `payload` behind it
abbrev file : List ℕ
file =
    mhbd
    ++ le32 173
    ++ le32 205
    ++ zeros 8
    ++ le32 2
    ++ zeros 144
    ++ (1 ∷ 0 ∷ [])
    ++ zeros 3
    ++ payload

abbrev described : CdbInfo
described = record {
  physical_bytes = 205;
  header_length = 173;
  version = 0;
  declared_children = 2;
  checksum_scheme = 0;
  checksum_indicator = 0;
  compression_flag = 1;
  hashab_version_prefix = (0, 0);
  hashab_signature_status = none;
  uncompressed_payload_bytes = 32;
  datasets = two_datasets;
}

inspects : inspect_cdb stored unsigned file none ≡ some (ok described)
unfolding inspect_cdb inspect_header decode_payload describe scan_datasets scan_step read_u16
    read_u32 get_range from_le_bytes
inspects = refl

inspect_cdb-IsCut_example :
    (read_u32 file 4 ≡ ok 173)
    × (read_u32 file 8 ≡ ok (length file))
    × (173 ≤ length file)
    × ((payload : List ℕ) × IsCut stored unsigned file payload described)
inspect_cdb-IsCut_example = inspect_cdb-IsCut stored unsigned file none inspects

inspect_cdb_returns_example :
    (r : Result CdbInfo) × (inspect_cdb stored unsigned file none ≡ some r)
inspect_cdb_returns_example = inspect_cdb_returns stored unsigned file none
