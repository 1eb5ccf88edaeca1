-- ===== src/Commit/Rollback.antt =====
-- `roll_back` as a whole: what it passes through, and where it ends.
use libopod.Base.{ℕ, suc, ◌+◌, ◌≤◌, ◌<◌, ◌≡◌, refl, ap, ◌∙◌, true, Option, List, [], ◌∷◌, arith}
use native.Mathlib.Decide.{dec_lt}
use libopod.Base.Lists.{length, take}
use libopod.Commit.State.{
  File, Output, Slot, World, TransactionPhase, rolling_back, rolled_back, fingerprint_matches,
}
use libopod.Commit.Effects.{Ends, Ends-bind, Ends-passes, check}
use libopod.Commit.Manifest.{original_state, write_journal, originals_verify, original_verifies}
use libopod.Commit.Recover.{
  remove_new_outputs, restore_replacements, persist_rollback_intent, roll_back, all_complete,
  is_complete,
}
use libopod.Commit.Invariant.{
  Edit, Lists, Lists-output_at, Lists-take, OldOk, was_present, was_absent, SlotOk, untouched,
  added, not_added, replaced, gap, unmoved, IsOpen, IsRecoverable, in_progress, write_journal-Ends,
  AllOld, Known, total, items,
}
use libopod.Base.Lists.{length-take}
use libopod.Commit.State.{is_none}
use libopod.Commit.Effects.{◌>>◌}
use libopod.Commit.Cleanup.{IsTerminal, all_old}
use libopod.Commit.Undo.{Gone, remove_new_outputs-Ends, persist_rollback_intent-Ends}
use libopod.Commit.Restore.{Undone, restore_replacements-Ends}

module _ (e : Edit) (E : World → Type 0) (known : Known e) where
  abbrev I : World → Type 0
  I = IsRecoverable e

  all_complete_each :
      (index : ℕ) (os : List Output)
      → Lists (items e) index os
      → index + length os ≤ total e
      → all_complete os ≡ true
  all_complete_each index [] l fits = refl
  all_complete_each index (x ∷ os) l fits =
      let this =
        ap (λ t. is_complete (original_state t)) l.0
        ∙ complete (known index (omega (arith, fits))) in
      rw (this) (all_complete_each (suc index) os l.1 (omega (arith, fits)))
    where
      complete :
          {x : Output} {before : Option File}
          → OldOk e.sha256 x before
          → is_complete (original_state x) ≡ true
      complete (was_present original file state was fits) = ap is_complete state
      complete (was_absent state was) = ap is_complete state

  pub originals_verify_each :
      (index : ℕ) (os : List Output) (slots : ℕ → Slot)
      → Lists (items e) index os
      → index + length os ≤ total e
      → ((i : ℕ) → i < total e → (slots i).live ≡ e.old i)
      → originals_verify e.sha256 index os slots ≡ true
  unfolding originals_verify
  originals_verify_each index [] slots l fits h = refl
  originals_verify_each index (x ∷ os) slots l fits h =
      let bound : index < total e = omega (arith, fits) in
      let this =
        ap (λ t. original_verifies e.sha256 (original_state t) (slots index).live) l.0
        ∙ ap (original_verifies e.sha256 (original_state (items e index))) (h index bound)
        ∙ verifies (known index bound) in
      rw (this) (originals_verify_each (suc index) os slots l.1 (omega (arith, fits)) h)
    where
      verifies :
          {x : Output} {before : Option File}
          → OldOk e.sha256 x before
          → original_verifies e.sha256 (original_state x) before ≡ true
      verifies {before = before} (was_present original file state was fits) =
          ap (λ t. original_verifies e.sha256 t before) state
          ∙ ap (λ t. fingerprint_matches e.sha256 t original) was
          ∙ fits
      verifies {before = before} (was_absent state was) =
          ap (λ t. original_verifies e.sha256 t before) state ∙ ap is_none was

  -- what was never attempted, and what is restored
  Undone-AllOld : (installed : ℕ) (w : World) → Undone e E known installed 0 w → AllOld e w
  Undone-AllOld installed w (o, gone, rest) i lt = elim (dec_lt i installed) [
    | yes before ↦ rest i (omega arith) before
    | no behind ↦ live_untouched behind (o.each i lt)
  ]
    where
      live_untouched :
          {i : ℕ} {x : Output} {before live backup : Option File} {after : File}
          → (i < installed → ⊥)
          → SlotOk e.sha256 rolling_back installed i x before after live backup
          → live ≡ before
      live_untouched behind (untouched le l b) = l
      live_untouched behind (added lt g l m b) = absurd (behind lt)
      live_untouched behind (not_added lt g l b) = absurd (behind lt)
      live_untouched behind (replaced f lt from l m b) = absurd (behind lt)
      live_untouched behind (gap f lt from l b t) = absurd (behind lt)
      live_untouched behind (unmoved f lt from l b t) = absurd (behind lt)

  pub roll_back-Ends :
      (phase : TransactionPhase) (installed : ℕ) (w : World)
      → installed ≤ total e
      → IsOpen e phase installed w
      → Ends I E
          (λ _ v. IsTerminal e E v × AllOld e v)
          (roll_back e.sha256
            (record { phase = phase; installed = installed; staging = e.staging })
            w)
  unfolding roll_back
  roll_back-Ends phase installed w le o =
      let os = take installed e.staging.outputs in
      let l =
        Lists-take (items e) 0 installed e.staging.outputs (Lists-output_at e.staging.outputs) in
      let size : 0 + length os ≡ installed =
        omega (arith, length-take installed e.staging.outputs, le) in
      Ends-passes I E _ _ _ w (all_complete_each 0 os l (omega (arith, size, le))) (
        Ends-bind I E (λ _ v. IsOpen e phase installed v × Gone e E known installed 0 v) _
          (remove_new_outputs e.sha256 0 os) _ w
          (remove_new_outputs-Ends e E known phase installed 0 os w l size le o)
          λ _ v p.
            Ends-bind I E (λ _ u. IsOpen e rolling_back installed u × Gone e E known installed 0 u)
              _
              (persist_rollback_intent
                (record { phase = phase; installed = installed; staging = e.staging }))
              _ v (persist_rollback_intent-Ends e E known phase installed v le p.0 p.1)
              λ _ u q.
                Ends-bind I E (λ _ t. Undone e E known installed 0 t) _
                  (restore_replacements e.sha256 0 os) _ u
                  (restore_replacements-Ends e E known installed 0 os u l size le q.0 q.1)
                  (λ _ t r. finish t r))
    where
      finish :
          (t : World)
          → Undone e E known installed 0 t
          → Ends I E
              (λ _ v. IsTerminal e E v × AllOld e v)
              ((check (λ w. originals_verify e.sha256 0 e.staging.outputs w.slots)
                  >> write_journal
                      (record { phase = rolled_back; installed = installed; staging = e.staging }))
                t)
      finish t r =
          Ends-passes I E _ _ _ t
            (originals_verify_each 0 e.staging.outputs t.slots (Lists-output_at e.staging.outputs)
              (omega arith) (Undone-AllOld installed t r))
            (write_journal-Ends e E (λ _ v. IsTerminal e E v × AllOld e v) _ t
              (in_progress rolling_back installed r.0)
              ((
                all_old installed le
                    (record { number = r.0.at.number; there = r.0.at.there; written = refl })
                    (Undone-AllOld installed t r),
                Undone-AllOld installed t r,
              )))
