-- ===== src/Commit/Manifest.antt =====
-- src/edit/commit.rs: the original states of the manifest, their verification, the journal's write.
use libopod.Base.{ℕ, suc, Bool, true, false, ◌&&◌, ◌||◌, Option, none, some, List, [], ◌∷◌}
use libopod.Error.{err, verification, device_transaction}
use libopod.Commit.State.{
  File, Fingerprint, Output, Input, Staging, TransactionJournal, Slot, World, is_none,
  fingerprint_matches,
}
use libopod.Commit.Effects.{Action, ◌>>◌, change, inspect}

-- What the manifest says of an original: its fingerprint, its absence, or only half of it.
pub data Original : Type 0 where
  present : Fingerprint → Original
  absent incomplete : Original

abbrev pub original_of : Option ℕ → Option (List ℕ) → Original
original_of (some bytes) (some sha256) = present (record { bytes = bytes; sha256 = sha256 })
original_of none none = absent
original_of (some bytes) none = incomplete
original_of none (some sha256) = incomplete

abbrev pub original_state : Output → Original
original_state o = original_of o.original_bytes o.original_sha256

unfoldable pub write_journal : TransactionJournal → Action (Unit {0})
write_journal journal = do
  change λ w. record w { journal_temporary = true }
  change λ w. record w { journal_temporary = false; journal = some journal }

abbrev pub fail : {A : Type 0} → Action A
fail = inspect λ w. err (verification device_transaction)

module _ (sha256 : File → List ℕ) where
  -- whether a file is as the manifest says
  abbrev pub original_verifies : Original → Option File → Bool
  original_verifies (present fingerprint) file = fingerprint_matches sha256 file fingerprint
  original_verifies absent file = is_none file
  original_verifies incomplete file = false

  -- the files that no output replaces
  unfoldable pub inputs_verify : List Input → Bool
  inputs_verify [] = true
  inputs_verify (i ∷ is) =
      original_verifies (original_of i.source_bytes i.source_sha256) i.live_input
      && inputs_verify is

  unfoldable pub originals_verify : ℕ → List Output → (ℕ → Slot) → Bool
  originals_verify index [] slots = true
  originals_verify index (o ∷ os) slots =
      original_verifies (original_state o) (slots index).live
      && originals_verify (suc index) os slots

  -- the outputs that the generation of the device knows
  unfoldable pub generation_verifies : ℕ → List Output → (ℕ → Slot) → Bool
  generation_verifies index [] slots = true
  generation_verifies index (o ∷ os) slots =
      (o.is_added_media || original_verifies (original_state o) (slots index).live)
      && generation_verifies (suc index) os slots

  abbrev pub verify_unchanged : Staging → World → Bool
  verify_unchanged staging w =
      inputs_verify staging.unchanged_inputs && generation_verifies 0 staging.outputs w.slots
