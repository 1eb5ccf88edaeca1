-- ===== src/Tests/Commits.antt =====
-- A transaction of two outputs, one a replacement and one a new file, and of a deletion.
use libopod.Base.{
  ℕ, zero, suc, ◌≡◌, ◌<◌, refl, true, false, Option, none, some, List, [], ◌∷◌, arith,
}
use libopod.Error.{ok}
use libopod.Commit.State.{
  fingerprint_matches, File, Staging, Slot, World, TransactionPhase, installing, committed,
}
use libopod.Base.Lists.{length}
use libopod.Commit.Effects.{Ends, All, check, change}
use libopod.Commit.Manifest.{inputs_verify, generation_verifies}
use libopod.Commit.Install.{outputs_verify}
use libopod.Commit.Recover.{recover_transaction}
use libopod.Commit.Invariant.{
  Edit, was_present, was_absent, SlotOk, gap, untouched, IsOpen, IsRecoverable, Known, IsSettled,
  AllOld, AllNew, items,
}
use libopod.Commit.{install_staged_and_open}
use libopod.Commit.Installs.{Complete}
use libopod.Commit.Open.{
  IsIdle, AddedKnown, Recovers, install_staged_and_open-Ends, interrupted-IsSettled,
}
use libopod.Commit.Atomic.{recover_transaction-AllOld, recover_transaction-AllNew}

-- the digest of these files is the file
abbrev digest : File → List ℕ
digest file = file

abbrev old_database : File
old_database = 1 ∷ 2 ∷ []

abbrev new_database : File
new_database = 3 ∷ []

abbrev media_file : File
media_file = 4 ∷ 5 ∷ 6 ∷ []

abbrev two_outputs : Staging
two_outputs = record {
  outputs =
      record {
        output = record { bytes = 1; sha256 = new_database };
        original_bytes = some 2;
        original_sha256 = some old_database;
        is_added_media = false;
      }
      ∷ record {
        output = record { bytes = 3; sha256 = media_file };
        original_bytes = none;
        original_sha256 = none;
        is_added_media = true;
      }
      ∷ [];
  unchanged_inputs =
      record { source_bytes = some 1; source_sha256 = some (7 ∷ []); live_input = some (7 ∷ []) }
      ∷ [];
  deletions = 9 ∷ [];
}

abbrev original : ℕ → Option File
original zero = some old_database
original (suc i) = none

abbrev staged : ℕ → File
staged zero = new_database
staged (suc i) = media_file

abbrev edit : Edit
edit = record { sha256 = digest; staging = two_outputs; old = original; new = staged }

-- a device before the transaction
abbrev device : World
device = record {
  targets = 2;
  slots = λ i. record { live = original i; temporary = none; backup = none };
  media = λ i. some (8 ∷ []);
  directory = false;
  journal = none;
  journal_temporary = false;
}

-- The slots of an interrupted replacement: the original is at its backup, and nothing at the target.
abbrev moved_away : ℕ → Slot
moved_away zero = record { live = none; temporary = some []; backup = some old_database }
moved_away (suc i) = record { live = none; temporary = none; backup = none }

abbrev installed_slots : ℕ → Slot
installed_slots zero = record {
  live = some new_database;
  temporary = none;
  backup = some old_database;
}
installed_slots (suc i) = record { live = some media_file; temporary = none; backup = none }

abbrev stopped : TransactionPhase → ℕ → (ℕ → Slot) → World
stopped phase n slots = record device {
  slots = slots;
  directory = true;
  journal = some (record { phase = phase; installed = n; staging = two_outputs });
}

known : Known edit
unfolding fingerprint_matches
known zero lt =
    was_present (record { bytes = 2; sha256 = old_database }) old_database refl refl refl
known (suc zero) lt = was_absent refl refl
known (suc (suc i)) lt = absurd (omega arith)

idle : IsIdle edit device
idle = record {
  number = refl;
  no_directory = refl;
  no_journal = refl;
  no_backups = λ i lt. refl;
  originals = λ i lt. refl;
}

added_known : AddedKnown edit
added_known i lt h = known i lt

-- An installation that goes through, and one whose read-back fails.
installs :
    (install_staged_and_open digest staged original (λ _. true) two_outputs device).result ≡ ok tt
unfolding install_staged_and_open check fingerprint_matches generation_verifies change
    outputs_verify
installs = refl

installed_live :
    ((install_staged_and_open digest staged original (λ _. true) two_outputs device).last.slots
      0).live
    ≡ some new_database
unfolding install_staged_and_open check fingerprint_matches generation_verifies change
    outputs_verify
installed_live = refl

installed_worlds :
    length (install_staged_and_open digest staged original (λ _. true) two_outputs device).passed
    ≡ 28
unfolding install_staged_and_open check fingerprint_matches generation_verifies change
    outputs_verify
installed_worlds = refl

refused_live :
    ((install_staged_and_open digest staged original (λ _. false) two_outputs device).last.slots
      0).live
    ≡ some old_database
unfolding install_staged_and_open check fingerprint_matches generation_verifies change
    outputs_verify
refused_live = refl

refused_media :
    ((install_staged_and_open digest staged original (λ _. false) two_outputs device).last.slots
      1).live
    ≡ none
unfolding install_staged_and_open check fingerprint_matches generation_verifies change
    outputs_verify
refused_media = refl

-- A file stands where a new output belongs: the installation fails, and the recovery refuses the state.
abbrev occupied : World
occupied = record device {
  slots = λ i. record { live = some old_database; temporary = none; backup = none };
}

occupied_refused :
    (install_staged_and_open digest staged original (λ _. true) two_outputs occupied).last.directory
    ≡ true
unfolding install_staged_and_open check fingerprint_matches generation_verifies change
    outputs_verify
occupied_refused = refl

install_staged_and_open-Ends_example :
    Ends
      (IsRecoverable edit)
      (IsSettled edit)
      (λ _ v. Complete edit v)
      (install_staged_and_open digest staged original (λ _. true) two_outputs device)
install_staged_and_open-Ends_example =
    install_staged_and_open-Ends edit original (λ _. true) device idle added_known

interrupted-IsSettled_example :
    All
      (Recovers edit)
      (install_staged_and_open digest staged original (λ _. true) two_outputs device).passed
interrupted-IsSettled_example =
    interrupted-IsSettled edit original (λ _. true) device idle added_known

inputs : inputs_verify digest two_outputs.unchanged_inputs ≡ true
unfolding inputs_verify fingerprint_matches
inputs = refl

moved_away-IsOpen : IsOpen edit installing 1 (stopped installing 1 moved_away)
moved_away-IsOpen = record {
  at = record { number = refl; there = refl; written = refl };
  open_phase = refl;
  counts = refl;
  each = each;
}
  where
    each :
        (i : ℕ)
        → i < 2
        → SlotOk digest installing 1 i
            (items edit i)
            (original i)
            (staged i)
            (moved_away i).live
            (moved_away i).backup
    each zero lt = gap old_database (omega arith) refl refl refl refl
    each (suc i) lt = untouched (omega arith) refl refl

recover_transaction-AllOld_example :
    Ends
      (IsRecoverable edit)
      (λ _. ⊥)
      (λ _ v. IsSettled edit v × AllOld edit v)
      (recover_transaction digest (stopped installing 1 moved_away))
recover_transaction-AllOld_example =
    recover_transaction-AllOld edit known inputs installing 1 (stopped installing 1 moved_away)
      moved_away-IsOpen

installed_new : AllNew edit (stopped committed 2 installed_slots)
unfolding fingerprint_matches
installed_new zero lt = (refl, refl)
installed_new (suc zero) lt = (refl, refl)
installed_new (suc (suc i)) lt = absurd (omega arith)

recover_transaction-AllNew_example :
    Ends
      (IsRecoverable edit)
      (λ _. ⊥)
      (λ _ v. IsSettled edit v × AllNew edit v)
      (recover_transaction digest (stopped committed 2 installed_slots))
recover_transaction-AllNew_example =
    recover_transaction-AllNew edit known inputs (stopped committed 2 installed_slots)
      (record { number = refl; there = refl; written = refl }) installed_new
