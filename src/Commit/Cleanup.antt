-- ===== src/Commit/Cleanup.antt =====
-- What the removal of a transaction's temporaries and of its directory passes through.
use libopod.Base.{
  ℕ, zero, suc, ◌≤◌, ◌<◌, ◌≡◌, ◌⊎◌, inl, inr, refl, ◌∙◌, Option, none, List, [], ◌∷◌, true, false,
  arith,
}
use libopod.Commit.State.{
  File, Output, TransactionJournal, Slot, World, TransactionPhase, committed, rolled_back,
}
use libopod.Commit.Effects.{Ends, Ends-bind, Ends-change, Ends-change_last}
use libopod.Commit.Replace.{
  update_slot, with_temporary, drop_backup, remove_backups, remove_transaction_directory,
}
use libopod.Commit.Recover.{cleanup_outputs, cleanup_interrupted_temporaries}
use libopod.Commit.Invariant.{
  Edit, at_update, InPhase, IsRecoverable, scaffold, kept, undone, AllOld, AllNew, NoBackups,
  IsSettled, total,
}

module _ (e : Edit) (E : World → Type 0) where
  abbrev I : World → Type 0
  I = IsRecoverable e

  cleanup_outputs-Ends :
      (P : World → Type 0)
      → ((v : World) → P v → I v)
      → ((v : World) (i : ℕ) → P v → P (update_slot i (with_temporary none) v))
      → (index : ℕ) (os : List Output) (w : World) → P w
      → Ends I E (λ _ v. P v) (cleanup_outputs index os w)
  unfolding cleanup_outputs
  cleanup_outputs-Ends P safe stable index [] w h = (tt, h)
  cleanup_outputs-Ends P safe stable index (o ∷ os) w h =
      Ends-change I E _ _ _ w (safe w h)
        (cleanup_outputs-Ends P safe stable (suc index) os _ (stable w index h))

  pub cleanup-Ends :
      (P : World → Type 0)
      → ((v : World) → P v → I v)
      → ((v : World) (i : ℕ) → P v → P (update_slot i (with_temporary none) v))
      → ((v : World) → P v → P (record v { journal_temporary = false }))
      → (j : TransactionJournal) (w : World) → P w
      → Ends I E (λ _ v. P v) (cleanup_interrupted_temporaries j w)
  unfolding cleanup_interrupted_temporaries
  cleanup-Ends P safe stable clear j w h =
      Ends-bind I E (λ _ v. P v) _ (cleanup_outputs 0 j.staging.outputs) _ w
        (cleanup_outputs-Ends P safe stable 0 j.staging.outputs w h)
        λ _ v p. Ends-change_last I E _ _ v (safe v p) (clear v p)

  -- what holds of every slot's live file and backup, does not depend on the temporaries
  pub temporary-each :
      (Q : ℕ → Option File → Option File → Type 0) (w : World) (k : ℕ) (t : Option File)
      → ((i : ℕ) → Q i (w.slots i).live (w.slots i).backup)
      → (i : ℕ)
      → Q i
          ((update_slot k (with_temporary t) w).slots i).live
          ((update_slot k (with_temporary t) w).slots i).backup
  temporary-each Q w k t h =
      at_update (λ i s. Q i s.live s.backup) w k (with_temporary t) (h k) λ i _. h i

  -- a transaction that is over but for its directory
  pub data IsTerminal (w : World) : Type 0 where
    all_new : InPhase e committed (total e) w → AllNew e w → IsTerminal w
    all_old : (n : ℕ) → n ≤ total e → InPhase e rolled_back n w → AllOld e w → IsTerminal w

  pub IsTerminal-IsRecoverable : (w : World) → IsTerminal w → I w
  IsTerminal-IsRecoverable w (all_new at h) = kept at h
  IsTerminal-IsRecoverable w (all_old n le at h) = undone n le at h

  IsTerminal-facts :
      (w : World)
      → IsTerminal w
      → (w.targets ≡ total e) × (w.directory ≡ true) × (AllOld e w ⊎ AllNew e w)
  IsTerminal-facts w (all_new at h) = (at.number, at.there, inr h)
  IsTerminal-facts w (all_old n le at h) = (at.number, at.there, inl h)

  -- the same journal, and the same files in their places
  pub IsTerminal-same :
      (v w : World)
      → v.targets ≡ w.targets
      → v.directory ≡ w.directory
      → v.journal ≡ w.journal
      → ((i : ℕ) → (v.slots i).live ≡ (w.slots i).live)
      → IsTerminal w
      → IsTerminal v
  IsTerminal-same v w t d j l (all_new at h) =
      all_new (same at) λ i lt. (l i ∙ (h i lt).0, (h i lt).1)
    where
      same : {phase : TransactionPhase} {n : ℕ} → InPhase e phase n w → InPhase e phase n v
      same at = record { number = t ∙ at.number; there = d ∙ at.there; written = j ∙ at.written }
  IsTerminal-same v w t d j l (all_old n le at h) =
      all_old n le
        (record { number = t ∙ at.number; there = d ∙ at.there; written = j ∙ at.written })
        λ i lt. l i ∙ h i lt

  live-update :
      (w : World) (k : ℕ) (f : Slot → Slot)
      → ((s : Slot) → (f s).live ≡ s.live)
      → (i : ℕ) → ((update_slot k f w).slots i).live ≡ (w.slots i).live
  live-update w k f h i =
      at_update (λ i s. s.live ≡ (w.slots i).live) w k f (h (w.slots k)) (λ i _. refl) i

  -- the files at the targets, as they were
  abbrev pub SameLive : World → World → Type 0
  SameLive w v = (i : ℕ) → (v.slots i).live ≡ (w.slots i).live

  remove_backups-Ends :
      (n : ℕ) (w : World)
      → IsTerminal w
      → Ends I E
          (λ _ v. IsTerminal v × SameLive w v × ((i : ℕ) → i < n → (v.slots i).backup ≡ none))
          (remove_backups n w)
  unfolding remove_backups
  remove_backups-Ends zero w h = (tt, (h, (λ i. refl), λ i lt. absurd (omega arith)))
  remove_backups-Ends (suc n) w h =
      Ends-bind I E
        (λ _ v. IsTerminal v × SameLive w v × ((i : ℕ) → i < n → (v.slots i).backup ≡ none)) _
        (remove_backups n) _ w (remove_backups-Ends n w h)
        λ _ v p.
          let same = live-update v n drop_backup λ s. refl in
          Ends-change_last I E _ (update_slot n drop_backup) v (IsTerminal-IsRecoverable v p.0) (
            IsTerminal-same (update_slot n drop_backup v) v refl refl refl same p.0,
            (λ i. same i ∙ p.1 i),
            at_update (λ i s. i < suc n → s.backup ≡ none) v n drop_backup (λ _. refl)
                λ i other lt. p.2 i (below i n lt other),
          )
    where
      below : (i n : ℕ) → i < suc n → (i ≡ n → ⊥) → i < n
      below i n lt other = ground arith

  -- the journal is the last file of the directory to go
  pub remove_transaction_directory-Ends :
      (w : World)
      → IsTerminal w
      → Ends I E (λ _ v. IsSettled e v × SameLive w v) (remove_transaction_directory w)
  unfolding remove_transaction_directory
  remove_transaction_directory-Ends w h =
      Ends-bind I E
        (λ _ v. IsTerminal v × SameLive w v × ((i : ℕ) → i < w.targets → (v.slots i).backup ≡ none))
        _ (remove_backups w.targets) _ w (remove_backups-Ends w.targets w h)
        λ _ v p.
          let (number, there, files) = IsTerminal-facts v p.0 in
          let same = (IsTerminal-facts w h).0 in
          let empty : NoBackups e v = λ i lt. p.2 i (omega (arith, lt, same)) in
          Ends-change I E _ (λ v. record v { journal_temporary = false }) _ v
            (IsTerminal-IsRecoverable v p.0)
            (Ends-change I E _ (λ v. record v { journal = none }) _
              (record v { journal_temporary = false })
              (IsTerminal-IsRecoverable (record v { journal_temporary = false })
                (IsTerminal-same (record v { journal_temporary = false }) v refl refl refl
                  (λ i. refl) p.0))
              (Ends-change_last I E _ (λ v. record v { directory = false })
                (record v { journal_temporary = false; journal = none })
                (scaffold number there refl empty files) ((number, refl, refl, files), p.1)))
