-- ===== src/Commit/Recovers.antt =====
-- `recover_transaction` as a whole: what it passes through, and where it ends.
use libopod.Base.{
  ℕ, ◌≤◌, ◌<◌, ◌≡◌, ◌⊎◌, inl, inr, refl, sym, ap, ◌∙◌, true, false, none, some, ◌&&◌, ap₂, arith,
}
use mathlib.Core.Path.{subst}
use libopod.Base.Tests.{leb→le, le→leb, if◌then◌else◌, &&_inv}
use libopod.Commit.State.{TransactionJournal, World, TransactionPhase, committed, rolled_back}
use libopod.Commit.Effects.{Ends, Ends-bind, Ends-change, Ends-passes, return}
use libopod.Commit.Replace.{update_slot, is_terminal}
use libopod.Commit.Manifest.{original_state}
use libopod.Commit.Recover.{count_valid, roll_back}
use libopod.Commit.Invariant.{
  Edit, at_update, Lists-output_at, SlotOk, InPhase, IsOpen, IsRecoverable, in_progress, undone,
  AllOld, Known, total, items,
}
use libopod.Base.Tests.{passes_below_all, ==_refl, leb}
use libopod.Commit.State.{is_none}
use libopod.Commit.Effects.{Ends-inspect, Ends-weaken}
use libopod.Commit.Manifest.{inputs_verify}
use libopod.Commit.Replace.{
  with_temporary, remove_transaction_directory, remove_empty_scaffold, remove_scaffold,
  backups_empty,
}
use libopod.Commit.Recover.{
  validate_output, read_journal, found, recover_journal, recover_directory, recover_transaction,
  validate_recovery_state, cleanup_interrupted_temporaries,
}
use libopod.Commit.Accepts.{
  validate_outputs_each, validate_output-SlotOk, validate_output-old, validate_output-new,
}
use libopod.Commit.Cleanup.{
  cleanup-Ends, IsTerminal, all_new, all_old, IsTerminal-same, IsTerminal-IsRecoverable,
  remove_transaction_directory-Ends, SameLive,
}
use libopod.Commit.Invariant.{
  closed, scaffold, kept, AllNew, NoBackups, IsSettled, IsOpen-temporary,
}
use libopod.Commit.Rollback.{roll_back-Ends}

module _ (e : Edit) (E : World → Type 0) (known : Known e) where
  abbrev I : World → Type 0
  I = IsRecoverable e

  module _ (inputs : inputs_verify e.sha256 e.staging.unchanged_inputs ≡ true) where
    -- the recovery by a journal, in the states `P` that its cleanup keeps
    recover_journal-Ends :
        (F : World → Type 0)
        → ((u v : World) → SameLive e E u v → F u → F v)
        → (P : World → Type 0) (j : TransactionJournal) (w : World) → ((v : World) → P v → I v)
        → ((v : World) (i : ℕ) → P v → P (update_slot i (with_temporary none) v))
        → ((v : World) → P v → P (record v { journal_temporary = false }))
        → w.journal ≡ some j
        → validate_recovery_state e.sha256 j w ≡ true
        → P w
        → ((v : World)
            → P v
            → Ends I E
                (λ _ u. IsTerminal e E u × F u)
                ((if is_terminal j.phase then return tt else roll_back e.sha256 j) v))
        → Ends I E (λ _ v. IsSettled e v × F v) (recover_journal e.sha256 w)
    unfolding recover_journal read_journal
    recover_journal-Ends F stays P j w safe stable clear written valid h next =
        Ends-inspect I E _ (λ v. found v.journal) j _ w (ap found written)
          (Ends-passes I E _ _ _ w valid (
            Ends-bind I E (λ _ v. P v) _ (cleanup_interrupted_temporaries j) _ w
              (cleanup-Ends e E P safe stable clear j w h)
              λ _ v p.
                Ends-bind I E (λ _ u. IsTerminal e E u × F u) _
                  (if is_terminal j.phase then return tt else roll_back e.sha256 j) _ v (next v p)
                  λ _ u t.
                    Ends-weaken I E _ _ (remove_transaction_directory u)
                      (remove_transaction_directory-Ends e E u t.0)
                      λ _ r q. (q.0, stays u r q.1 t.1)))

    valid_when :
        (phase : TransactionPhase) (n : ℕ) (w : World)
        → count_valid (record { phase = phase; installed = n; staging = e.staging }) ≡ true
        → ((i : ℕ)
            → i < total e
            → validate_output e.sha256 phase n i
                (items e i).output
                (w.slots i)
                (original_state (items e i))
              ≡ true)
        → validate_recovery_state e.sha256
            (record { phase = phase; installed = n; staging = e.staging })
            w
          ≡ true
    unfolding validate_recovery_state
    valid_when phase n w counts each =
        rw
          (
            counts,
            inputs,
            validate_outputs_each e.sha256 (items e) phase n (total e) 0 e.staging.outputs w.slots
                (Lists-output_at e.staging.outputs) (omega arith) each,
          )
          refl

    cleanup-live :
        (v : World) (i k : ℕ)
        → ((update_slot i (with_temporary none) v).slots k).live ≡ (v.slots k).live
    cleanup-live v i k =
        at_update (λ k s. s.live ≡ (v.slots k).live) v i (with_temporary none) refl (λ k _. refl) k

    IsTerminal-cleanup :
        (v : World) (i : ℕ)
        → IsTerminal e E v
        → IsTerminal e E (update_slot i (with_temporary none) v)
    IsTerminal-cleanup v i =
        IsTerminal-same e E (update_slot i (with_temporary none) v) v refl refl refl
          (cleanup-live v i)

    IsTerminal-clear :
        (v : World) → IsTerminal e E v → IsTerminal e E (record v { journal_temporary = false })
    IsTerminal-clear v =
        IsTerminal-same e E (record v { journal_temporary = false }) v refl refl refl λ i. refl

    IsOpen-cleanup :
        (phase : TransactionPhase) (n : ℕ) (v : World) (i : ℕ)
        → IsOpen e phase n v
        → IsOpen e phase n (update_slot i (with_temporary none) v)
    IsOpen-cleanup phase n v i o = record {
      at = record { number = o.at.number; there = o.at.there; written = o.at.written };
      open_phase = o.open_phase;
      counts = o.counts;
      each =
          at_update
            (λ k s.
              k < total e
              → SlotOk e.sha256 phase n k (items e k) (e.old k) (e.new k) s.live s.backup)
            v i (with_temporary none) (o.each i) λ k _. o.each k;
    }

    -- without a journal
    scaffold-Ends :
        (w : World)
        → w.targets ≡ total e
        → w.directory ≡ true
        → w.journal ≡ none
        → NoBackups e w
        → AllOld e w ⊎ AllNew e w
        → Ends I E (λ empty v. (empty ≡ true) × IsSettled e v) (remove_empty_scaffold w)
    unfolding remove_empty_scaffold remove_scaffold
    scaffold-Ends w number there gone empty files =
        let all_empty =
          passes_below_all (λ i. is_none (w.slots i).backup) w.targets
            λ i lt. ap is_none (empty i (omega (arith, lt, number))) in
        subst (λ b. Ends I E (λ empty v. (empty ≡ true) × IsSettled e v) (remove_scaffold b w))
          (sym (ap₂ (λ j b. is_none j && b) gone all_empty))
          (Ends-change I E _ (λ v. record v { journal_temporary = false }) _ w
            (scaffold number there gone empty files)
            (Ends-change I E _ (λ v. record v { directory = false }) _
              (record w { journal_temporary = false }) (scaffold number there gone empty files)
              (tt, (refl, (number, refl, gone, files)))))

    -- with a journal, the directory is left
    journal-Ends :
        (j : TransactionJournal) (w : World)
        → w.journal ≡ some j
        → Ends I E (λ empty v. (empty ≡ false) × (v ≡ w)) (remove_empty_scaffold w)
    unfolding remove_empty_scaffold remove_scaffold
    journal-Ends j w written =
        subst (λ b. Ends I E (λ empty v. (empty ≡ false) × (v ≡ w)) (remove_scaffold b w))
          (sym (ap (λ o. is_none o && backups_empty w) written)) (tt, (refl, refl))

    directory-Ends :
        (R : World → Type 0) (w : World)
        → w.directory ≡ true
        → Ends I E
            (λ empty v.
              ((empty ≡ true) × R v)
              ⊎ ((empty ≡ false) × Ends I E (λ _ u. R u) (recover_journal e.sha256 v)))
            (remove_empty_scaffold w)
        → Ends I E (λ _ v. R v) (recover_transaction e.sha256 w)
    unfolding recover_transaction recover_directory
    directory-Ends R w there h =
        subst (λ b. Ends I E (λ _ v. R v) (recover_directory e.sha256 b w)) (sym there)
          (Ends-bind I E _ _ remove_empty_scaffold _ w h λ empty v q. elim q [
            | inl (yes_empty, done) ↦
                subst
                  (λ b.
                    Ends I E (λ _ u. R u) ((if b then return tt else recover_journal e.sha256) v))
                  (sym yes_empty) (tt, done)
            | inr (not_empty, rest) ↦
                subst
                  (λ b.
                    Ends I E (λ _ u. R u) ((if b then return tt else recover_journal e.sha256) v))
                  (sym not_empty) rest
          ])

    by_journal :
        (R : World → Type 0) (j : TransactionJournal) (w : World)
        → w.directory ≡ true
        → w.journal ≡ some j
        → Ends I E (λ _ v. R v) (recover_journal e.sha256 w)
        → Ends I E (λ _ v. R v) (recover_transaction e.sha256 w)
    by_journal R j w there written h = directory-Ends R w there (
        Ends-weaken I E _ _ (remove_empty_scaffold w) (journal-Ends j w written) λ empty v q.
          inr (q.0, subst (λ u. Ends I E (λ _ t. R t) (recover_journal e.sha256 u)) (sym q.1) h))

    -- The recovery of a transaction that is neither committed nor rolled back puts the originals back.
    pub rolls_back :
        (phase : TransactionPhase) (n : ℕ) (w : World)
        → IsOpen e phase n w
        → Ends I E (λ _ v. IsSettled e v × AllOld e v) (recover_transaction e.sha256 w)
    rolls_back phase n w o =
        let j : TransactionJournal = record { phase = phase; installed = n; staging = e.staging } in
        by_journal (λ v. IsSettled e v × AllOld e v) j w o.at.there o.at.written
          (recover_journal-Ends (AllOld e) (λ u v same f i lt. same i ∙ f i lt) (IsOpen e phase n) j
            w (λ v. in_progress phase n) (IsOpen-cleanup phase n)
            (λ v. IsOpen-temporary e phase n v false) o.at.written
            (valid_when phase n w o.counts λ i lt.
              validate_output-SlotOk e.sha256 phase n i (items e i) (e.old i) (e.new i) (w.slots i)
                o.open_phase (known i lt) (o.each i lt))
            o
            λ v p.
              subst
                (λ b.
                  Ends I E (λ _ u. IsTerminal e E u × AllOld e u)
                    ((if b then return tt else roll_back e.sha256 j) v))
                (sym o.open_phase)
                (roll_back-Ends e E known phase n v (counted phase n o.counts) p))
      where
        counted :
            (phase : TransactionPhase) (n : ℕ)
            → count_valid (record { phase = phase; installed = n; staging = e.staging }) ≡ true
            → n ≤ total e
        counted phase n h = leb→le n (total e) (&&_inv (leb n (total e)) _ h).0

    -- The recovery of a committed transaction keeps the outputs.
    pub keeps :
        (w : World)
        → InPhase e committed (total e) w
        → AllNew e w
        → Ends I E (λ _ v. IsSettled e v × AllNew e v) (recover_transaction e.sha256 w)
    keeps w at files =
        by_journal (λ v. IsSettled e v × AllNew e v)
          (record { phase = committed; installed = total e; staging = e.staging }) w at.there
          at.written
          (recover_journal-Ends (AllNew e) (λ u v same f i lt. (same i ∙ (f i lt).0, (f i lt).1))
            (λ v. IsTerminal e E v × AllNew e v) _ w (λ v p. IsTerminal-IsRecoverable e E v p.0)
            (λ v i p. (
              IsTerminal-cleanup v i p.0,
              λ k lt. (cleanup-live v i k ∙ (p.1 k lt).0, (p.1 k lt).1),
            ))
            (λ v p. (IsTerminal-clear v p.0, p.1)) at.written
            (valid_when committed (total e) w
              (rw (le→leb (total e) (total e) (omega arith), ==_refl (total e)) refl)
              λ i lt.
                validate_output-new e.sha256 (total e) i (items e i) (e.old i) (e.new i) (w.slots i)
                  (known i lt) lt (files i lt).0 (files i lt).1)
            (all_new at files, files) λ v p. (tt, p))

    restored :
        (w : World) (n : ℕ)
        → n ≤ total e
        → InPhase e rolled_back n w
        → AllOld e w
        → Ends I E (λ _ v. IsSettled e v × Unit {0}) (recover_transaction e.sha256 w)
    restored w n le at files =
        by_journal (λ v. IsSettled e v × Unit {0})
          (record { phase = rolled_back; installed = n; staging = e.staging }) w at.there at.written
          (recover_journal-Ends (λ _. Unit {0}) (λ u v same f. tt) (IsTerminal e E) _ w
            (IsTerminal-IsRecoverable e E) IsTerminal-cleanup IsTerminal-clear at.written
            (valid_when rolled_back n w (rw (le→leb n (total e) le) refl) λ i lt.
              validate_output-old e.sha256 n i (items e i) (e.old i) (w.slots i) (known i lt)
                (files i lt))
            (all_old n le at files) λ v p. (tt, (p, tt)))

    -- Every state that an interruption may leave is settled.
    pub recover_transaction-Ends :
        (w : World)
        → IsRecoverable e w
        → Ends I E (λ _ v. IsSettled e v) (recover_transaction e.sha256 w)
    unfolding recover_transaction recover_directory
    recover_transaction-Ends w (closed number gone none_left files) =
        subst (λ b. Ends I E (λ _ v. IsSettled e v) (recover_directory e.sha256 b w)) (sym gone)
          (tt, (number, gone, none_left, files))
    recover_transaction-Ends w (scaffold number there none_left empty files) =
        directory-Ends (IsSettled e) w there (
          Ends-weaken I E _ _ (remove_empty_scaffold w)
            (scaffold-Ends w number there none_left empty files) λ found v q. inl q)
    recover_transaction-Ends w (in_progress phase n o) =
        Ends-weaken I E _ _ (recover_transaction e.sha256 w) (rolls_back phase n w o) λ _ v q. q.0
    recover_transaction-Ends w (kept at files) =
        Ends-weaken I E _ _ (recover_transaction e.sha256 w) (keeps w at files) λ _ v q. q.0
    recover_transaction-Ends w (undone n le at files) =
        Ends-weaken I E _ _ (recover_transaction e.sha256 w) (restored w n le at files) λ _ v q. q.0
