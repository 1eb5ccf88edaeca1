-- ===== src/Commit/State.antt =====
-- The state that a transaction works on: the files of each output, the journal, the directory. The
-- target, temporary and backup paths of the outputs are distinct (`validate_paths`), so that each
-- output has a slot of its own, known by its index.
use libopod.Base.{ℕ, Bool, true, false, ◌&&◌, Option, none, some, List}
use libopod.Base.Tests.{◌==◌, if◌then◌else◌}
use libopod.Base.Lists.{length}
use libopod.Cdb.Chunk.{eq_bytes}

abbrev pub File : Type 0
File = List ℕ

-- a file's length and its digest, in hexadecimal
pub record Fingerprint : Type 0 where
  pub bytes : ℕ
  pub sha256 : List ℕ

-- An output of the staged edit, with the state of its target that the manifest's source list gives.
-- The device's generation knows the target, unless it is that of added media.
pub record Output : Type 0 where
  pub output : Fingerprint
  pub original_bytes : Option ℕ
  pub original_sha256 : Option (List ℕ)
  pub is_added_media : Bool

-- An input that no output replaces: what the manifest says of it, and the file that is there, which a
-- transaction does not touch.
pub record Input : Type 0 where
  pub source_bytes : Option ℕ
  pub source_sha256 : Option (List ℕ)
  pub live_input : Option File

-- the manifest of a staged edit; a deletion is the index of a media file
pub record Staging : Type 0 where
  pub outputs : List Output
  pub unchanged_inputs : List Input
  pub deletions : List ℕ

pub data TransactionPhase : Type 0 where
  backing_up installing validating committed rolling_back rolled_back : TransactionPhase

pub record TransactionJournal : Type 0 where
  pub phase : TransactionPhase
  pub installed : ℕ
  pub staging : Staging

-- The files of one output on the device: at its target, its sibling temporary, its backup.
pub record Slot : Type 0 where
  pub live : Option File
  pub temporary : Option File
  pub backup : Option File

-- `targets` bounds the slots in use; `media` are the files that a deletion may unlink.
pub record World : Type 0 where
  pub targets : ℕ
  pub slots : ℕ → Slot
  pub media : ℕ → Option File
  pub directory : Bool
  pub journal : Option TransactionJournal
  pub journal_temporary : Bool

abbrev pub set_slot : World → ℕ → Slot → World
set_slot w index s = record w { slots = λ i. if i == index then s else w.slots i }

abbrev pub is_some : {A : Type 0} → Option A → Bool
is_some none = false
is_some (some a) = true

abbrev pub is_none : {A : Type 0} → Option A → Bool
is_none none = true
is_none (some a) = false

module _ (sha256 : File → List ℕ) where
  -- whether a file is there with this fingerprint
  unfoldable pub fingerprint_matches : Option File → Fingerprint → Bool
  fingerprint_matches none expected = false
  fingerprint_matches (some file) expected =
      length file == expected.bytes && eq_bytes (sha256 file) expected.sha256
