-- ===== src/Commit/Atomic.antt =====
-- The recovery of a transaction, by the phase in its journal.
use libopod.Base.{ℕ, ◌≡◌, true}
use libopod.Commit.State.{World, TransactionPhase, committed}
use libopod.Commit.Effects.{Ends}
use libopod.Commit.Manifest.{inputs_verify}
use libopod.Commit.Recover.{recover_transaction}
use libopod.Commit.Invariant.{
  Edit, InPhase, IsOpen, IsRecoverable, Known, IsSettled, AllOld, AllNew, total,
}
use libopod.Commit.Recovers.{rolls_back, keeps}

module _ (e : Edit) where
  -- Where the manifest agrees with the originals and the inputs verify, and the transaction is in one
  -- of the states that an interruption leaves (`IsOpen`: its journal is neither committed nor rolled
  -- back and its count fits the phase; an output that is not begun is as it was; one that is begun
  -- is installed with its original in the backup or with none, or, where the phase allows it, its
  -- original is in the backup alone or still in its place, or the new file is missing), the recovery
  -- does not fail: it puts every original back in its place, with nothing where there was none, and
  -- leaves no transaction. Each state it passes through can be recovered again.
  pub recover_transaction-AllOld :
      Known e
      → inputs_verify e.sha256 e.staging.unchanged_inputs ≡ true
      → (phase : TransactionPhase) (n : ℕ) (w : World) → IsOpen e phase n w
      → Ends
          (IsRecoverable e)
          (λ _. ⊥)
          (λ _ v. IsSettled e v × AllOld e v)
          (recover_transaction e.sha256 w)
  recover_transaction-AllOld known inputs = rolls_back e (λ _. ⊥) known inputs

  -- Where the manifest agrees with the originals and the inputs verify, and every output is in its
  -- place with the fingerprint that is listed, the recovery of a transaction whose journal is
  -- committed does not fail: it keeps every output in its place, and leaves no
  -- transaction. Each state it passes through can be recovered again.
  pub recover_transaction-AllNew :
      Known e
      → inputs_verify e.sha256 e.staging.unchanged_inputs ≡ true
      → (w : World) → InPhase e committed (total e) w
      → AllNew e w
      → Ends
          (IsRecoverable e)
          (λ _. ⊥)
          (λ _ v. IsSettled e v × AllNew e v)
          (recover_transaction e.sha256 w)
  recover_transaction-AllNew known inputs = keeps e (λ _. ⊥) known inputs
