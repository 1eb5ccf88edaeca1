-- ===== src/Commit/Undo.antt =====
-- A rollback: new files are removed, originals are moved back.
use libopod.Base.{
  ℕ, suc, ◌+◌, ◌≤◌, ◌<◌, ◌≡◌, inl, inr, refl, sym, ap, ◌∙◌, true, false, Option, none, some, List,
  [], ◌∷◌, arith,
}
use mathlib.Core.Path.{subst}
use native.Mathlib.Decide.{dec_lt}
use libopod.Base.Tests.{le→leb, Option-cases}
use libopod.Base.Lists.{length}
use libopod.Commit.State.{
  is_none, File, Output, World, TransactionPhase, backing_up, installing, validating, committed,
  rolling_back, rolled_back, fingerprint_matches,
}
use libopod.Commit.Effects.{Ends, Ends-bind, Ends-change_last, Ends-passes, Ends-check_last}
use libopod.Commit.Replace.{update_slot, with_live}
use libopod.Commit.Manifest.{original_state}
use libopod.Commit.Recover.{
  remove_file, remove_new, remove_attempted, remove_new_outputs, persist_rollback_intent,
}
use libopod.Commit.Invariant.{
  Edit, at_update, Lists, OldOk, was_present, was_absent, SlotOk, untouched, added, not_added,
  replaced, gap, unmoved, IsOpen, IsRecoverable, in_progress, write_journal-Ends, Known, total,
  items,
}

true-false : true ≡ false → ⊥
true-false h = cc

some-none : {A : Type 0} {a : A} → some a ≡ none → ⊥
some-none h = cc

module _ (e : Edit) (E : World → Type 0) (known : Known e) where
  abbrev I : World → Type 0
  I = IsRecoverable e

  -- no new file is left, of the attempted outputs from `k` on
  abbrev pub Gone : ℕ → ℕ → World → Type 0
  Gone installed k w = (i : ℕ) → k ≤ i → i < installed → e.old i ≡ none → (w.slots i).live ≡ none

  -- the files of an output that had no original, once the new one is removed
  removed-IsOpen :
      (phase : TransactionPhase) (installed index : ℕ) (w : World)
      → IsOpen e phase installed w
      → index < installed
      → index < total e
      → e.old index ≡ none
      → IsOpen e phase installed (update_slot index (with_live none) w)
  removed-IsOpen phase installed index w o lt bound was = record {
    at = record { number = o.at.number; there = o.at.there; written = o.at.written };
    open_phase = o.open_phase;
    counts = o.counts;
    each =
        at_update
          (λ i s.
            i < total e
            → SlotOk e.sha256 phase installed i (items e i) (e.old i) (e.new i) s.live s.backup)
          w index (with_live none) (λ _. not_added lt was refl (no_backup (o.each index bound)))
          λ i _. o.each i;
  }
    where
      no_backup :
          {live backup : Option File}
          → SlotOk e.sha256 phase installed index
              (items e index)
              (e.old index)
              (e.new index)
              live
              backup
          → backup ≡ none
      no_backup (untouched le l b) = b
      no_backup (added l g v m b) = b
      no_backup (not_added l g v b) = b
      no_backup (replaced f l from v m b) = absurd (some-none (sym from ∙ was))
      no_backup (gap f l from v b t) = absurd (some-none (sym from ∙ was))
      no_backup (unmoved f l from v b t) = absurd (some-none (sym from ∙ was))

  -- a new file that is there is the output
  new-matches :
      (phase : TransactionPhase) (installed index : ℕ) (o : Output) (after file : File)
      {before live backup : Option File}
      → before ≡ none
      → live ≡ some file
      → SlotOk e.sha256 phase installed index o before after live backup
      → fingerprint_matches e.sha256 live o.output ≡ true
  new-matches phase installed index o after file was here (untouched le l b) =
      absurd (some-none (sym here ∙ l ∙ was))
  new-matches phase installed index o after file was here (added lt g l m b) =
      ap (λ t. fingerprint_matches e.sha256 t o.output) l ∙ m
  new-matches phase installed index o after file was here (not_added lt g l b) =
      absurd (some-none (sym here ∙ l))
  new-matches phase installed index o after file was here (replaced f lt from l m b) =
      absurd (some-none (sym from ∙ was))
  new-matches phase installed index o after file was here (gap f lt from l b t) =
      absurd (some-none (sym from ∙ was))
  new-matches phase installed index o after file was here (unmoved f lt from l b t) =
      absurd (some-none (sym from ∙ was))

  remove_file-Ends :
      (phase : TransactionPhase) (installed index : ℕ) (w : World)
      → IsOpen e phase installed w
      → Gone installed (suc index) w
      → index < installed
      → index < total e
      → e.old index ≡ none
      → Ends I E
          (λ _ v. IsOpen e phase installed v × Gone installed index v)
          (remove_file e.sha256 index (items e index).output (w.slots index).live w)
  unfolding remove_file
  remove_file-Ends phase installed index w o gone lt bound was =
      elim (Option-cases (w.slots index).live) [
        | inl nothing ↦
            subst
              (λ l.
                Ends I E (λ _ v. IsOpen e phase installed v × Gone installed index v)
                  (remove_file e.sha256 index (items e index).output l w))
              (sym nothing)
              (tt, (o, λ i le lo old. all_from i index le nothing (λ k. gone i k lo old)))
        | inr (file, here) ↦
            subst
              (λ l.
                Ends I E (λ _ v. IsOpen e phase installed v × Gone installed index v)
                  (remove_file e.sha256 index (items e index).output l w))
              (sym here)
              (Ends-passes I E _ _ _ w
                (new-matches phase installed index (items e index) (e.new index) file was here
                  (o.each index bound))
                (Ends-change_last I E _ (update_slot index (with_live none)) w
                  (in_progress phase installed o)
                  (
                    removed-IsOpen phase installed index w o lt bound was,
                    at_update (λ i s. index ≤ i → i < installed → e.old i ≡ none → s.live ≡ none) w
                        index (with_live none) (λ _ _ _. refl)
                        λ i other le lo old. gone i (after i index le other) lo old,
                  )))
      ]
    where
      after : (i k : ℕ) → k ≤ i → (i ≡ k → ⊥) → suc k ≤ i
      after i k le other = ground arith

      equal : (i k : ℕ) → k ≤ i → (k < i → ⊥) → i ≡ k
      equal i k le ge = omega arith

      all_from :
          (i k : ℕ)
          → k ≤ i
          → (w.slots k).live ≡ none
          → (suc k ≤ i → (w.slots i).live ≡ none)
          → (w.slots i).live ≡ none
      all_from i k le h rest = elim (dec_lt k i) [
        | yes lt ↦ rest lt
        | no ge ↦ ap (λ (t : ℕ). (w.slots t).live) (equal i k le ge) ∙ h
      ]

  remove_new-Ends :
      (phase : TransactionPhase) (installed index : ℕ) (w : World)
      → IsOpen e phase installed w
      → Gone installed (suc index) w
      → index < installed
      → index < total e
      → e.old index ≡ none
      → Ends I E
          (λ _ v. IsOpen e phase installed v × Gone installed index v)
          (remove_new e.sha256 index (items e index).output w)
  unfolding remove_new
  remove_new-Ends phase installed index w o gone lt bound was =
      Ends-bind I E (λ _ v. IsOpen e phase installed v × Gone installed index v) _
        (remove_file e.sha256 index (items e index).output (w.slots index).live) _ w
        (remove_file-Ends phase installed index w o gone lt bound was)
        λ _ v p. Ends-check_last I E _ _ v (ap is_none (p.1 index (omega arith) lt was)) p

  pub remove_new_outputs-Ends :
      (phase : TransactionPhase) (installed index : ℕ) (os : List Output) (w : World)
      → Lists (items e) index os
      → index + length os ≡ installed
      → installed ≤ total e
      → IsOpen e phase installed w
      → Ends I E
          (λ _ v. IsOpen e phase installed v × Gone installed index v)
          (remove_new_outputs e.sha256 index os w)
  unfolding remove_new_outputs remove_attempted
  remove_new_outputs-Ends phase installed index [] w l size le o =
      (tt, (o, λ i k lt. absurd (omega arith)))
  remove_new_outputs-Ends phase installed index (x ∷ os) w l size le o =
      Ends-bind I E (λ _ v. IsOpen e phase installed v × Gone installed (suc index) v) _
        (remove_new_outputs e.sha256 (suc index) os) _ w
        (remove_new_outputs-Ends phase installed (suc index) os w l.1 (omega arith) le o)
        λ _ v p.
          subst
            (λ t.
              Ends I E (λ _ u. IsOpen e phase installed u × Gone installed index u)
                (remove_attempted e.sha256 index t.output (original_state t) v))
            (sym l.0) (one v p.0 p.1 (known index (omega arith)))
    where
      one :
          (v : World)
          → IsOpen e phase installed v
          → Gone installed (suc index) v
          → OldOk e.sha256 (items e index) (e.old index)
          → Ends I E
              (λ _ u. IsOpen e phase installed u × Gone installed index u)
              (remove_attempted e.sha256 index
                (items e index).output
                (original_state (items e index))
                v)
      one v o gone (was_present original file state was fits) =
          subst
            (λ t.
              Ends I E (λ _ u. IsOpen e phase installed u × Gone installed index u)
                (remove_attempted e.sha256 index (items e index).output t v))
            (sym state) (tt, (o, λ i k lt old. gone i (later i k old) lt old))
        where
          later : (i : ℕ) → index ≤ i → e.old i ≡ none → suc index ≤ i
          later i k old = elim (dec_lt index i) [
            | yes lt ↦ lt
            | no ge ↦ absurd (some-none (sym was ∙ ap e.old (equal i k ge) ∙ old))
          ]
            where
              equal : (i : ℕ) → index ≤ i → (index < i → ⊥) → index ≡ i
              equal i le ge = omega arith
      one v o gone (was_absent state was) =
          subst
            (λ t.
              Ends I E (λ _ u. IsOpen e phase installed u × Gone installed index u)
                (remove_attempted e.sha256 index (items e index).output t v))
            (sym state)
            (remove_new-Ends phase installed index v o gone (omega arith) (omega arith) was)

  -- the same slots, with the intent to roll back
  rolling-IsOpen :
      (phase : TransactionPhase) (installed : ℕ) (w : World)
      → installed ≤ total e
      → IsOpen e phase installed w
      → IsOpen e rolling_back installed (record w {
        journal_temporary = false;
        journal =
            some (record { phase = rolling_back; installed = installed; staging = e.staging });
      })
  rolling-IsOpen phase installed w le o = record {
    at = record { number = o.at.number; there = o.at.there; written = refl };
    open_phase = refl;
    counts = rw (le→leb installed (total e) le) refl;
    each = λ i lt. rolling (o.each i lt);
  }
    where
      rolling :
          {i : ℕ} {x : Output} {before live backup : Option File} {after : File}
          → SlotOk e.sha256 phase installed i x before after live backup
          → SlotOk e.sha256 rolling_back installed i x before after live backup
      rolling (untouched le l b) = untouched le l b
      rolling (added lt g l m b) = added lt g l m b
      rolling (not_added lt g l b) = not_added lt g l b
      rolling (replaced f lt from l m b) = replaced f lt from l m b
      rolling (gap f lt from l b t) = gap f lt from l b refl
      rolling (unmoved f lt from l b t) = unmoved f lt from l b refl

  pub persist_rollback_intent-Ends :
      (phase : TransactionPhase) (installed : ℕ) (w : World)
      → installed ≤ total e
      → IsOpen e phase installed w
      → Gone installed 0 w
      → Ends I E
          (λ _ v. IsOpen e rolling_back installed v × Gone installed 0 v)
          (persist_rollback_intent
            (record { phase = phase; installed = installed; staging = e.staging })
            w)
  unfolding persist_rollback_intent
  persist_rollback_intent-Ends rolling_back installed w le o gone = (tt, (o, gone))
  persist_rollback_intent-Ends backing_up installed w le o gone =
      write_journal-Ends e E _ _ w (in_progress backing_up installed o)
        (rolling-IsOpen backing_up installed w le o, gone)
  persist_rollback_intent-Ends installing installed w le o gone =
      write_journal-Ends e E _ _ w (in_progress installing installed o)
        (rolling-IsOpen installing installed w le o, gone)
  persist_rollback_intent-Ends validating installed w le o gone =
      write_journal-Ends e E _ _ w (in_progress validating installed o)
        (rolling-IsOpen validating installed w le o, gone)
  persist_rollback_intent-Ends committed installed w le o gone = absurd (true-false o.open_phase)
  persist_rollback_intent-Ends rolled_back installed w le o gone = absurd (true-false o.open_phase)
