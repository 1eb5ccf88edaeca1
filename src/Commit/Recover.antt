-- ===== src/Commit/Recover.antt =====
-- `recover_with_failure_mode` of src/edit/commit.rs, for the journals that `install_inner` writes.
use libopod.Base.{ℕ, suc, Bool, true, false, ◌&&◌, ◌||◌, not, Option, none, some, List, [], ◌∷◌}
use libopod.Base.Tests.{ltb, leb, ◌==◌, if◌then◌else◌}
use libopod.Base.Lists.{length, take}
use libopod.Error.{Result, ok, err, verification, device_transaction}
use libopod.Commit.State.{
  is_none, File, Fingerprint, Output, TransactionJournal, Slot, World, TransactionPhase, backing_up,
  installing, validating, committed, rolling_back, rolled_back, is_some, fingerprint_matches,
}
use libopod.Commit.Effects.{Action, ◌>>=◌, ◌>>◌, return, change, inspect, check}
use libopod.Commit.Replace.{
  update_slot, with_temporary, with_live, move_back, validate_replacement, is_terminal,
  is_rolling_back, remove_transaction_directory, remove_empty_scaffold,
}
use libopod.Commit.Manifest.{
  Original, present, absent, incomplete, original_state, write_journal, inputs_verify,
  originals_verify,
}

-- the counts that each phase allows
abbrev pub count_valid : TransactionJournal → Bool
count_valid j = leb j.installed (length j.staging.outputs) && (elim j.phase as (λ _. Bool) [
  | backing_up ↦ j.installed == 0
  | installing ↦ true
  | validating ↦ j.installed == length j.staging.outputs
  | committed ↦ j.installed == length j.staging.outputs
  | rolling_back ↦ true
  | rolled_back ↦ true
])

abbrev pub is_committed : TransactionPhase → Bool
is_committed committed = true
is_committed backing_up = false
is_committed installing = false
is_committed validating = false
is_committed rolling_back = false
is_committed rolled_back = false

abbrev pub is_rolled_back : TransactionPhase → Bool
is_rolled_back rolled_back = true
is_rolled_back backing_up = false
is_rolled_back installing = false
is_rolled_back validating = false
is_rolled_back committed = false
is_rolled_back rolling_back = false

unfoldable pub cleanup_outputs : ℕ → List Output → Action (Unit {0})
cleanup_outputs index [] = return tt
cleanup_outputs index (o ∷ os) = do
  change (update_slot index (with_temporary none))
  cleanup_outputs (suc index) os

unfoldable pub cleanup_interrupted_temporaries : TransactionJournal → Action (Unit {0})
unfolding cleanup_outputs
cleanup_interrupted_temporaries j = do
  cleanup_outputs 0 j.staging.outputs
  change λ w. record w { journal_temporary = false }

unfoldable pub persist_rollback_intent : TransactionJournal → Action (Unit {0})
unfolding write_journal
persist_rollback_intent j =
    if is_rolling_back j.phase then return tt else write_journal (record j { phase = rolling_back })

abbrev pub is_complete : Original → Bool
is_complete (present original) = true
is_complete absent = true
is_complete incomplete = false

abbrev pub all_complete : List Output → Bool
all_complete [] = true
all_complete (o ∷ os) = is_complete (original_state o) && all_complete os

-- a journal that is missing cannot be read
abbrev pub found : Option TransactionJournal → Result TransactionJournal
found none = err (verification device_transaction)
found (some j) = ok j

unfoldable pub read_journal : Action TransactionJournal
read_journal = inspect λ w. found w.journal

module _ (sha256 : File → List ℕ) where
  -- an output that had no original
  unfoldable pub validate_new : TransactionPhase → ℕ → ℕ → Fingerprint → Slot → Bool
  validate_new phase installed index output slot =
      let may_be_output = ltb index installed in
      let output_matches = fingerprint_matches sha256 slot.live output in
      not (is_some slot.live && (is_rolled_back phase || not may_be_output || not output_matches))
      && not (is_committed phase && not output_matches)

  unfoldable pub validate_output : TransactionPhase → ℕ → ℕ → Fingerprint → Slot → Original → Bool
  unfolding validate_new validate_replacement
  validate_output phase installed index output slot (present original) =
      validate_replacement sha256 phase installed index output original slot
  validate_output phase installed index output slot absent =
      validate_new phase installed index output slot
  validate_output phase installed index output slot incomplete = false

  unfoldable pub validate_outputs : TransactionPhase → ℕ → ℕ → List Output → (ℕ → Slot) → Bool
  unfolding validate_output
  validate_outputs phase installed index [] slots = true
  validate_outputs phase installed index (o ∷ os) slots =
      validate_output phase installed index o.output (slots index) (original_state o)
      && validate_outputs phase installed (suc index) os slots

  unfoldable pub validate_recovery_state : TransactionJournal → World → Bool
  unfolding inputs_verify validate_outputs
  validate_recovery_state j w =
      count_valid j
      && inputs_verify sha256 j.staging.unchanged_inputs
      && validate_outputs j.phase j.installed 0 j.staging.outputs w.slots

  -- a new file is removed, if it is there
  unfoldable pub remove_file : ℕ → Fingerprint → Option File → Action (Unit {0})
  remove_file index output none = return tt
  remove_file index output (some file) = do
    check λ w. fingerprint_matches sha256 (w.slots index).live output
    change (update_slot index (with_live none))

  unfoldable pub remove_new : ℕ → Fingerprint → Action (Unit {0})
  unfolding remove_file
  remove_new index output w =
      (do remove_file index output (w.slots index).live; check λ v. is_none (v.slots index).live) w

  unfoldable pub remove_attempted : ℕ → Fingerprint → Original → Action (Unit {0})
  unfolding remove_new
  remove_attempted index output (present original) = return tt
  remove_attempted index output absent = remove_new index output
  remove_attempted index output incomplete = return tt

  -- the attempted outputs that had no original, the last one first
  unfoldable pub remove_new_outputs : ℕ → List Output → Action (Unit {0})
  unfolding remove_attempted
  remove_new_outputs index [] = return tt
  remove_new_outputs index (o ∷ os) = do
    remove_new_outputs (suc index) os
    remove_attempted index o.output (original_state o)

  -- an original is moved back from its backup, or is there already
  unfoldable pub restore_from : ℕ → Fingerprint → Option File → Action (Unit {0})
  restore_from index original (some backup) = do
    check λ w. fingerprint_matches sha256 (w.slots index).backup original
    change (update_slot index move_back)
    check λ w. fingerprint_matches sha256 (w.slots index).live original
  restore_from index original none = do
    check λ w. fingerprint_matches sha256 (w.slots index).live original
    check λ w. fingerprint_matches sha256 (w.slots index).live original

  unfoldable pub restore : ℕ → Fingerprint → Action (Unit {0})
  unfolding restore_from
  restore index original w = restore_from index original (w.slots index).backup w

  unfoldable pub restore_attempted : ℕ → Original → Action (Unit {0})
  unfolding restore
  restore_attempted index (present original) = restore index original
  restore_attempted index absent = return tt
  restore_attempted index incomplete = return tt

  -- the attempted replacements, the last one first
  unfoldable pub restore_replacements : ℕ → List Output → Action (Unit {0})
  unfolding restore_attempted
  restore_replacements index [] = return tt
  restore_replacements index (o ∷ os) = do
    restore_replacements (suc index) os
    restore_attempted index (original_state o)

  unfoldable pub roll_back : TransactionJournal → Action (Unit {0})
  unfolding remove_new_outputs persist_rollback_intent restore_replacements originals_verify
      write_journal
  roll_back j = do
    check λ w. all_complete (take j.installed j.staging.outputs)
    remove_new_outputs 0 (take j.installed j.staging.outputs)
    persist_rollback_intent j
    restore_replacements 0 (take j.installed j.staging.outputs)
    check λ w. originals_verify sha256 0 j.staging.outputs w.slots
    write_journal (record j { phase = rolled_back })

  unfoldable pub recover_journal : Action (Unit {0})
  unfolding read_journal validate_recovery_state cleanup_interrupted_temporaries roll_back
      remove_transaction_directory
  recover_journal = do
    j ← read_journal
    check (validate_recovery_state j)
    cleanup_interrupted_temporaries j
    if is_terminal j.phase then return tt else roll_back j
    remove_transaction_directory

  unfoldable pub recover_directory : Bool → Action (Unit {0})
  unfolding recover_journal remove_empty_scaffold
  recover_directory false = return tt
  recover_directory true = do
    empty ← remove_empty_scaffold
    if empty then return tt else recover_journal

  unfoldable pub recover_transaction : Action (Unit {0})
  unfolding recover_directory
  recover_transaction w = recover_directory w.directory w
