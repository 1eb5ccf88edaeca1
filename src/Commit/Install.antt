-- ===== src/Commit/Install.antt =====
-- `install_inner` of src/edit/commit.rs.
use libopod.Base.{ℕ, suc, Bool, true, ◌&&◌, Option, none, some, List, [], ◌∷◌}
use libopod.Base.Tests.{◌==◌, if◌then◌else◌}
use libopod.Base.Lists.{length}
use libopod.Commit.State.{
  File, Fingerprint, Output, Staging, Slot, World, backing_up, installing, validating, committed,
  is_none, fingerprint_matches,
}
use libopod.Commit.Effects.{Action, ◌>>◌, return, change, check}
use libopod.Commit.Replace.{
  update_slot, with_temporary, publish, write_installation_temporary, install_replacement,
  remove_transaction_directory,
}
use libopod.Commit.Manifest.{
  Original, present, absent, incomplete, original_state, write_journal, fail, verify_unchanged,
}

-- the file is created, filled, and moved to its target
unfoldable pub install_file_impl : ℕ → File → Action (Unit {0})
unfolding write_installation_temporary
install_file_impl index source = do
  change (update_slot index (with_temporary none))
  write_installation_temporary index source
  change (update_slot index publish)

unfoldable pub remove_deletions : List ℕ → Action (Unit {0})
remove_deletions [] = return tt
remove_deletions (d ∷ ds) = do
  change λ w. record w { media = λ i. if i == d then none else w.media i }
  remove_deletions ds

abbrev pub deletions_absent : List ℕ → World → Bool
deletions_absent [] w = true
deletions_absent (d ∷ ds) w = is_none (w.media d) && deletions_absent ds w

module _ (sha256 : File → List ℕ) where
  -- one output of the loop before the installation: the host's snapshot, and the backup's path
  unfoldable pub prepare_output : (ℕ → Option File) → ℕ → Original → Action (Unit {0})
  prepare_output host_original index (present fingerprint) = do
    check λ w. fingerprint_matches sha256 (host_original index) fingerprint
    check λ w. is_none (w.slots index).backup
  prepare_output host_original index absent = check λ w. is_none (w.slots index).live
  prepare_output host_original index incomplete = fail

  unfoldable pub prepare_outputs : (ℕ → Option File) → ℕ → List Output → Action (Unit {0})
  unfolding prepare_output
  prepare_outputs host_original index [] = return tt
  prepare_outputs host_original index (o ∷ os) = do
    prepare_output host_original index (original_state o)
    prepare_outputs host_original (suc index) os

  -- the files of one output
  unfoldable pub install_files : (ℕ → File) → ℕ → Fingerprint → Original → Action (Unit {0})
  unfolding install_replacement install_file_impl
  install_files staged index output (present fingerprint) =
      install_replacement sha256 index (staged index) output fingerprint
  install_files staged index output absent = install_file_impl index (staged index)
  install_files staged index output incomplete = install_file_impl index (staged index)

  -- one output: its intent is in the journal before its files change
  unfoldable pub install_output : (ℕ → File) → Staging → ℕ → Output → Action (Unit {0})
  unfolding write_journal install_files
  install_output staged staging index o = do
    check λ w. fingerprint_matches sha256 (some (staged index)) o.output
    write_journal (record { phase = installing; installed = suc index; staging = staging })
    install_files staged index o.output (original_state o)

  unfoldable pub install_outputs : (ℕ → File) → Staging → ℕ → List Output → Action (Unit {0})
  unfolding install_output
  install_outputs staged staging index [] = return tt
  install_outputs staged staging index (o ∷ os) = do
    install_output staged staging index o
    install_outputs staged staging (suc index) os

  unfoldable pub outputs_verify : ℕ → List Output → (ℕ → Slot) → Bool
  outputs_verify index [] slots = true
  outputs_verify index (o ∷ os) slots =
      fingerprint_matches sha256 (slots index).live o.output && outputs_verify (suc index) os slots

  module _ (staged : ℕ → File) (host_original : ℕ → Option File) (read_back : World → Bool) where
    unfoldable pub install_inner : Staging → Action (Unit {0})
    unfolding write_journal prepare_outputs install_outputs remove_deletions
        remove_transaction_directory
    install_inner staging = do
      write_journal (record { phase = backing_up; installed = 0; staging = staging })
      prepare_outputs host_original 0 staging.outputs
      check (verify_unchanged sha256 staging)
      write_journal (record { phase = installing; installed = 0; staging = staging })
      install_outputs staged staging 0 staging.outputs
      remove_deletions staging.deletions
      write_journal
          (record { phase = validating; installed = length staging.outputs; staging = staging })
      check λ w. outputs_verify 0 staging.outputs w.slots
      check (deletions_absent staging.deletions)
      check read_back
      write_journal
          (record { phase = committed; installed = length staging.outputs; staging = staging })
      remove_transaction_directory
