-- ===== src/Commit/Replace.antt =====
-- src/edit/commit/rename.rs: one replacement, one restoration, the states that recovery accepts, and
-- the removal of the transaction's directory.
use libopod.Base.{
  ℕ, zero, suc, ◌+◌, Bool, true, false, ◌&&◌, ◌||◌, not, Option, none, some, List, [],
}
use libopod.Base.Tests.{ltb, ◌==◌, if◌then◌else◌, passes_below}
use libopod.Commit.State.{
  File, Fingerprint, Slot, World, TransactionPhase, backing_up, installing, validating, committed,
  rolling_back, rolled_back, set_slot, is_some, is_none, fingerprint_matches,
}
use libopod.Commit.Effects.{Action, ◌>>◌, return, change, check}

-- The changes of one slot.
abbrev pub update_slot : ℕ → (Slot → Slot) → World → World
update_slot index f w = set_slot w index (f (w.slots index))

abbrev pub with_temporary : Option File → Slot → Slot
with_temporary t s = record s { temporary = t }

abbrev pub with_live : Option File → Slot → Slot
with_live t s = record s { live = t }

-- `fs::rename(target, backup)`
abbrev pub move_to_backup : Slot → Slot
move_to_backup s = record s { live = none; backup = s.live }

-- `fs::rename(temporary, target)`
abbrev pub publish : Slot → Slot
publish s = record s { live = s.temporary; temporary = none }

-- `fs::rename(backup, target)`
abbrev pub move_back : Slot → Slot
move_back s = record s { live = s.backup; backup = none }

abbrev pub drop_backup : Slot → Slot
drop_backup s = record s { backup = none }

-- A copy creates the file, and then fills it.
unfoldable pub write_installation_temporary : ℕ → File → Action (Unit {0})
write_installation_temporary index source = do
  change (update_slot index (with_temporary (some [])))
  change (update_slot index (with_temporary (some source)))

abbrev pub is_terminal : TransactionPhase → Bool
is_terminal committed = true
is_terminal rolled_back = true
is_terminal backing_up = false
is_terminal installing = false
is_terminal validating = false
is_terminal rolling_back = false

abbrev pub is_rolling_back : TransactionPhase → Bool
is_rolling_back rolling_back = true
is_rolling_back backing_up = false
is_rolling_back installing = false
is_rolling_back validating = false
is_rolling_back committed = false
is_rolling_back rolled_back = false

abbrev pub is_installing : TransactionPhase → Bool
is_installing installing = true
is_installing backing_up = false
is_installing validating = false
is_installing committed = false
is_installing rolling_back = false
is_installing rolled_back = false

-- whether the original of an output may be missing from its place, or be there alone
abbrev pub in_flight : TransactionPhase → ℕ → ℕ → Bool
in_flight phase installed index =
    is_rolling_back phase || is_installing phase && index + 1 == installed

module _ (sha256 : File → List ℕ) where
  unfoldable pub install_replacement : ℕ → File → Fingerprint → Fingerprint → Action (Unit {0})
  unfolding write_installation_temporary
  install_replacement index source output original = do
    change (update_slot index (with_temporary none))
    write_installation_temporary index source
    check λ w. fingerprint_matches sha256 (w.slots index).temporary output
    check λ w. fingerprint_matches sha256 (w.slots index).live original
    check λ w. is_none (w.slots index).backup
    change (update_slot index move_to_backup)
    check λ w. fingerprint_matches sha256 (w.slots index).backup original
    change (update_slot index publish)

  -- the state of one replacement that is neither committed nor rolled back
  unfoldable pub replacement_valid :
      TransactionPhase → ℕ → ℕ → Fingerprint → Fingerprint → Slot → Bool
  replacement_valid phase installed index output original slot =
      let original_matches = fingerprint_matches sha256 slot.live original in
      let output_matches = fingerprint_matches sha256 slot.live output in
      let attempted = ltb index installed in
      if not attempted
      then is_none slot.backup && original_matches
      else if is_some slot.backup
      then original_matches
        || output_matches
        || is_none slot.live && in_flight phase installed index
      else original_matches && in_flight phase installed index

  -- `if let Some(backup) = &backup { verify_file(backup, ..)? }`
  abbrev pub backup_verifies : Option File → Fingerprint → Bool
  backup_verifies none original = true
  backup_verifies (some backup) original = fingerprint_matches sha256 (some backup) original

  unfoldable pub validate_replacement :
      TransactionPhase → ℕ → ℕ → Fingerprint → Fingerprint → Slot → Bool
  unfolding replacement_valid
  validate_replacement committed installed index output original slot =
      fingerprint_matches sha256 slot.live output
  validate_replacement rolled_back installed index output original slot =
      fingerprint_matches sha256 slot.live original
  validate_replacement backing_up installed index output original slot =
      backup_verifies slot.backup original
      && replacement_valid backing_up installed index output original slot
  validate_replacement installing installed index output original slot =
      backup_verifies slot.backup original
      && replacement_valid installing installed index output original slot
  validate_replacement validating installed index output original slot =
      backup_verifies slot.backup original
      && replacement_valid validating installed index output original slot
  validate_replacement rolling_back installed index output original slot =
      backup_verifies slot.backup original
      && replacement_valid rolling_back installed index output original slot

-- the backups are removed, then a left-over journal temporary, then the journal, then the directory
unfoldable pub remove_backups : ℕ → Action (Unit {0})
remove_backups zero = return tt
remove_backups (suc n) = do remove_backups n; change (update_slot n drop_backup)

unfoldable pub remove_transaction_directory : Action (Unit {0})
unfolding remove_backups
remove_transaction_directory w =
    (do
      remove_backups w.targets
      change λ v. record v { journal_temporary = false }
      change λ v. record v { journal = none }
      change λ v. record v { directory = false })
      w

abbrev pub backups_empty : World → Bool
backups_empty w = passes_below (λ i. is_none (w.slots i).backup) w.targets

unfoldable pub remove_scaffold : Bool → Action Bool
remove_scaffold false = return false
remove_scaffold true = do
  change λ v. record v { journal_temporary = false }
  change λ v. record v { directory = false }
  return true

-- Without a journal, a directory with nothing but scaffolding is removed, which gives `true`.
unfoldable pub remove_empty_scaffold : Action Bool
unfolding remove_scaffold
remove_empty_scaffold w = remove_scaffold (is_none w.journal && backups_empty w) w
