-- ===== src/Commit.antt =====
-- src/edit/commit.rs and src/edit/commit/rename.rs: the transaction that installs a staged edit on a
-- device, its journal, and the recovery of one that was interrupted.
pub mod State
pub mod Effects
pub mod Replace
pub mod Manifest
pub mod Install
pub mod Recover
pub mod Invariant
pub mod Accepts
pub mod Cleanup
pub mod Undo
pub mod Restore
pub mod Rollback
pub mod Recovers
pub mod Advance
pub mod Outputs
pub mod Installs
pub mod Safety
pub mod Open
pub mod Atomic
use libopod.Base.{
  ℕ, zero, suc, ◌+◌, Bool, true, false, ◌&&◌, ◌||◌, not, Option, none, some, List, [], ◌∷◌, ◌++◌,
}
use libopod.Base.Tests.{ltb, leb, ◌==◌, if◌then◌else◌}
use libopod.Base.Lists.{length, take}
use libopod.Error.{Result, ok, err, verification, device_transaction, recovery_required}
use libopod.Commit.State.{
  File, Fingerprint, Output, Input, Staging, TransactionJournal, Slot, World, TransactionPhase,
  backing_up, installing, validating, committed, rolling_back, rolled_back, is_some, is_none,
  fingerprint_matches,
}
use libopod.Commit.Effects.{Trace, Action, ◌>>=◌, ◌>>◌, return, change, inspect, check}
use libopod.Commit.Replace.{
  update_slot, with_temporary, with_live, publish, move_back, write_installation_temporary,
  install_replacement, validate_replacement, is_terminal, is_rolling_back,
  remove_transaction_directory, remove_empty_scaffold,
}
use libopod.Commit.Manifest.{
  Original, present, absent, incomplete, original_of, original_state, write_journal, fail,
  original_verifies, inputs_verify, originals_verify, verify_unchanged,
}
use libopod.Commit.Install.{install_inner}
use libopod.Commit.Recover.{recover_transaction}

module _ (sha256 : File → List ℕ) where
  -- An installation that fails is followed by a recovery, and fails all the same.
  abbrev pub recovered : Trace (Unit {0}) → Trace (Unit {0})
  recovered r = elim r.result as (λ _. Trace (Unit {0})) [
    | ok done ↦ r
    | err e ↦
        let s = recover_transaction sha256 r.last in
        record {
          passed = r.passed ++ s.passed;
          last = s.last;
          result = elim s.result as (λ _. Result (Unit {0})) [
            | ok done ↦ err e
            | err rollback_error ↦ err (verification device_transaction)
          ];
        }
  ]

  unfoldable pub install_staged_and_open :
      (ℕ → File) → (ℕ → Option File) → (World → Bool) → Staging → Action (Unit {0})
  unfolding install_inner recover_transaction
  install_staged_and_open staged host_original read_back staging = do
    check (verify_unchanged sha256 staging)
    inspect λ w. if w.directory then err recovery_required else ok tt
    change λ w. record w { directory = true }
    λ w. recovered (install_inner sha256 staged host_original read_back staging w)
