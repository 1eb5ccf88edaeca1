-- ===== src/Commit/Restore.antt =====
-- The part of a rollback that moves the originals back.
use libopod.Base.{
  ℕ, suc, ◌+◌, ◌≤◌, ◌<◌, ◌≡◌, ◌⊎◌, inl, inr, refl, sym, ap, ◌∙◌, true, Option, none, some, List, [],
  ◌∷◌, arith,
}
use mathlib.Core.Path.{subst}
use native.Mathlib.Decide.{dec_lt}
use libopod.Base.Lists.{length}
use libopod.Commit.State.{File, Fingerprint, Output, World, rolling_back, fingerprint_matches}
use libopod.Commit.Effects.{Ends, Ends-bind, Ends-change, Ends-passes, Ends-check_last, check}
use libopod.Commit.Replace.{update_slot, move_back}
use libopod.Commit.Manifest.{original_state}
use libopod.Commit.Recover.{restore_from, restore, restore_attempted, restore_replacements}
use libopod.Commit.Invariant.{
  Edit, update_slot_same, at_update, Lists, OldOk, was_present, was_absent, SlotOk, untouched,
  added, not_added, replaced, gap, unmoved, IsOpen, IsRecoverable, in_progress, Known, total, items,
}
use libopod.Commit.Undo.{Gone}

some-none : {A : Type 0} {a : A} → some a ≡ none → ⊥
some-none h = cc

module _ (e : Edit) (E : World → Type 0) (known : Known e) where
  abbrev I : World → Type 0
  I = IsRecoverable e

  -- the attempted outputs from `k` on are as before
  abbrev pub Restored : ℕ → ℕ → World → Type 0
  Restored installed k w = (i : ℕ) → k ≤ i → i < installed → (w.slots i).live ≡ e.old i

  abbrev pub Undone : ℕ → ℕ → World → Type 0
  Undone installed k w =
      IsOpen e rolling_back installed w × Gone e E known installed 0 w × Restored installed k w

  -- a backup that is there is the original; without one, the original is in its place
  backup-original :
      (installed index : ℕ) (x : Output) (file after : File) {before live backup : Option File}
      → index < installed
      → before ≡ some file
      → SlotOk e.sha256 rolling_back installed index x before after live backup
      → (backup ≡ some file) ⊎ ((backup ≡ none) × (live ≡ some file))
  backup-original installed index x file after lt was (untouched le l b) =
      absurd (omega (arith, le, lt))
  backup-original installed index x file after lt was (added k g l m b) =
      absurd (some-none (sym was ∙ g))
  backup-original installed index x file after lt was (not_added k g l b) =
      absurd (some-none (sym was ∙ g))
  backup-original installed index x file after lt was (replaced f k from l m b) =
      inl (b ∙ sym from ∙ was)
  backup-original installed index x file after lt was (gap f k from l b t) =
      inl (b ∙ sym from ∙ was)
  backup-original installed index x file after lt was (unmoved f k from l b t) =
      inr (b, l ∙ sym from ∙ was)

  restored-IsOpen :
      (installed index : ℕ) (w : World) (file : File)
      → IsOpen e rolling_back installed w
      → index < installed
      → e.old index ≡ some file
      → (w.slots index).backup ≡ some file
      → IsOpen e rolling_back installed (update_slot index move_back w)
  restored-IsOpen installed index w file o lt was held = record {
    at = record { number = o.at.number; there = o.at.there; written = o.at.written };
    open_phase = o.open_phase;
    counts = o.counts;
    each =
        at_update
          (λ i s.
            i < total e
            → SlotOk e.sha256 rolling_back installed i (items e i) (e.old i) (e.new i) s.live
                s.backup)
          w index move_back (λ _. unmoved file lt was held refl refl) λ i _. o.each i;
  }

  -- a live file behind `index`, and that at it, are all from `index` on
  from_next :
      (installed index : ℕ) (w : World)
      → (w.slots index).live ≡ e.old index
      → Restored installed (suc index) w
      → Restored installed index w
  from_next installed index w here rest i le lt = elim (dec_lt index i) [
    | yes more ↦ rest i more lt
    | no ge ↦
        let same : index ≡ i = equal i index le ge in
        subst (λ t. (w.slots t).live ≡ e.old t) same here
  ]
    where
      equal : (i k : ℕ) → k ≤ i → (k < i → ⊥) → k ≡ i
      equal i k le ge = omega arith

  restore-Ends :
      (installed index : ℕ) (w : World) (original : Fingerprint) (file : File)
      → index < installed
      → index < total e
      → e.old index ≡ some file
      → fingerprint_matches e.sha256 (some file) original ≡ true
      → Undone installed (suc index) w
      → Ends I E (λ _ v. Undone installed index v) (restore e.sha256 index original w)
  unfolding restore restore_from
  restore-Ends installed index w original file lt bound was fits (o, gone, rest) =
      elim (backup-original installed index (items e index) file (e.new index) lt was
        (o.each index bound)) [
          | inl held ↦
              subst
                (λ b.
                  Ends I E (λ _ v. Undone installed index v)
                    (restore_from e.sha256 index original b w))
                (sym held)
                (Ends-passes I E _ _ _ w
                  (ap (λ t. fingerprint_matches e.sha256 t original) held ∙ fits)
                  (Ends-change I E _ (update_slot index move_back) _ w
                    (in_progress rolling_back installed o) (moved held)))
          | inr (nothing, here) ↦
              let passes = ap (λ t. fingerprint_matches e.sha256 t original) here ∙ fits in
              subst
                (λ b.
                  Ends I E (λ _ v. Undone installed index v)
                    (restore_from e.sha256 index original b w))
                (sym nothing)
                (Ends-passes I E _ _ _ w passes (
                  Ends-check_last I E _ _ w passes
                    (o, gone, from_next installed index w (here ∙ sym was) rest)))
        ]
    where
      moved :
          (w.slots index).backup ≡ some file
          → Ends I E
              (λ _ v. Undone installed index v)
              (check
                (λ v. fingerprint_matches e.sha256 (v.slots index).live original)
                (update_slot index move_back w))
      moved held =
          let v = update_slot index move_back w in
          let here : (v.slots index).live ≡ some file =
            ap (λ s. s.live) (update_slot_same w index move_back) ∙ held in
          Ends-check_last I E _ _ v (ap (λ t. fingerprint_matches e.sha256 t original) here ∙ fits)
            (
              restored-IsOpen installed index w file o lt was held,
              at_update (λ i s. 0 ≤ i → i < installed → e.old i ≡ none → s.live ≡ none) w index
                  move_back (λ _ _ old. absurd (some-none (sym was ∙ old))) (λ i _. gone i),
              from_next installed index v (here ∙ sym was) (
                  at_update (λ i s. suc index ≤ i → i < installed → s.live ≡ e.old i) w index
                    move_back (λ le _. absurd (omega (arith, le))) (λ i _. rest i)),
            )

  pub restore_replacements-Ends :
      (installed index : ℕ) (os : List Output) (w : World)
      → Lists (items e) index os
      → index + length os ≡ installed
      → installed ≤ total e
      → IsOpen e rolling_back installed w
      → Gone e E known installed 0 w
      → Ends I E (λ _ v. Undone installed index v) (restore_replacements e.sha256 index os w)
  unfolding restore_replacements restore_attempted
  restore_replacements-Ends installed index [] w l size le o gone =
      (tt, (o, gone, λ i k lt. absurd (omega arith)))
  restore_replacements-Ends installed index (x ∷ os) w l size le o gone =
      Ends-bind I E (λ _ v. Undone installed (suc index) v) _
        (restore_replacements e.sha256 (suc index) os) _ w
        (restore_replacements-Ends installed (suc index) os w l.1 (omega arith) le o gone)
        λ _ v p.
          subst
            (λ t.
              Ends I E (λ _ u. Undone installed index u)
                (restore_attempted e.sha256 index (original_state t) v))
            (sym l.0) (one v p (known index (omega arith)))
    where
      one :
          (v : World)
          → Undone installed (suc index) v
          → OldOk e.sha256 (items e index) (e.old index)
          → Ends I E
              (λ _ u. Undone installed index u)
              (restore_attempted e.sha256 index (original_state (items e index)) v)
      one v p (was_present original file state was fits) =
          subst
            (λ t. Ends I E (λ _ u. Undone installed index u) (restore_attempted e.sha256 index t v))
            (sym state)
            (restore-Ends installed index v original file (omega arith) (omega arith) was fits p)
      one v (o, gone, rest) (was_absent state was) =
          subst
            (λ t. Ends I E (λ _ u. Undone installed index u) (restore_attempted e.sha256 index t v))
            (sym state)
            (
              tt,
              (
                o,
                gone,
                from_next installed index v (gone index (omega arith) (omega arith) was ∙ sym was)
                    rest,
              ),
            )
