-- ===== src/Cdb/Split.antt =====
-- `split_datasets` of src/storage/binary/cdb_edit.rs: the payload is cut into its top-level
-- datasets. The `while` loop takes fuel, and `none` says that the fuel ran out.
pub mod Partition
pub mod Progress
use libopod.Base.{ℕ, zero, suc, ◌+◌, Bool, true, false, Option, none, some, List, [], ◌∷◌, ◌++◌}
use libopod.Base.Tests.{ltb, ◌==◌, if◌then◌else◌}
use libopod.Base.Lists.{length, slice}
use libopod.Error.{Result, Run, and_then, ok, err, ◌>>=◌, ◌>>◌}
use libopod.Cdb.Chunk.{mhsd, require_magic, read_usize, checked_end, unverified}

-- One round: where the dataset at `offset` ends.
unfoldable pub split_step : List ℕ → ℕ → Result ℕ
split_step payload offset = do
  require_magic payload offset mhsd
  total ← read_usize payload (offset + 8)
  checked_end offset total (length payload) (offset + 8)

unfoldable pub split_loop : ℕ → List ℕ → ℕ → List (List ℕ) → Run (List (List ℕ))
split_loop zero payload offset datasets = none
split_loop (suc fuel) payload offset datasets = elim (ltb offset (length payload)) [
  | false ↦ some (ok datasets)
  | true ↦ elim (split_step payload offset) [
    | err e ↦ some (err e)
    | ok end ↦ split_loop fuel payload end (datasets ++ (slice payload offset end ∷ []))
  ]
]

-- `if datasets.len() != expected { return Err(..) }`
unfoldable pub expect_count : ℕ → List (List ℕ) → Result (List (List ℕ))
expect_count expected datasets = if length datasets == expected then ok datasets else err unverified

unfoldable pub split_datasets : ℕ → List ℕ → ℕ → Run (List (List ℕ))
unfolding split_loop expect_count
split_datasets fuel payload expected =
    and_then (split_loop fuel payload 0 []) (expect_count expected)
