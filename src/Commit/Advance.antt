-- ===== src/Commit/Advance.antt =====
-- The installation of one output, from the journal's intent to the file at its target.
use libopod.Base.{
  ℕ, suc, ◌≤◌, ◌<◌, ◌≡◌, inl, inr, refl, sym, ap, ◌∙◌, true, false, none, some, arith,
}
use mathlib.Core.Path.{subst}
use native.Mathlib.Decide.{dec_lt}
use libopod.Base.Tests.{le→leb, ◌==◌, ==_iff, Bool-cases}
use libopod.Commit.State.{File, Slot, World, TransactionPhase, installing, fingerprint_matches}
use libopod.Commit.Replace.{update_slot}
use libopod.Commit.Invariant.{
  Edit, at_update, update_slot_same, SlotOk, untouched, added, replaced, InPhase, IsRecoverable,
  in_progress, total, items,
}

module _ (e : Edit) where
  abbrev I : World → Type 0
  I = IsRecoverable e

  -- an output that is installed: it is in its place, and its original is in the backup
  pub data Done (i : ℕ) (s : Slot) : Type 0 where
    new_file :
        e.old i ≡ none
        → s.live ≡ some (e.new i)
        → fingerprint_matches e.sha256 (some (e.new i)) (items e i).output ≡ true
        → s.backup ≡ none
        → Done i s
    moved :
        (file : File)
        → e.old i ≡ some file
        → s.live ≡ some (e.new i)
        → fingerprint_matches e.sha256 (some (e.new i)) (items e i).output ≡ true
        → s.backup ≡ some file
        → Done i s

  abbrev pub Fresh : ℕ → Slot → Type 0
  Fresh i s = (s.live ≡ e.old i) × (s.backup ≡ none)

  pub Done-SlotOk :
      (phase : TransactionPhase) (n i : ℕ) (s : Slot)
      → i < n
      → Done i s
      → SlotOk e.sha256 phase n i (items e i) (e.old i) (e.new i) s.live s.backup
  Done-SlotOk phase n i s lt (new_file was l m b) = added lt was l m b
  Done-SlotOk phase n i s lt (moved file was l m b) = replaced file lt was l m b

  -- the outputs before `index` are installed, the others are not begun
  pub record Progress (index : ℕ) (w : World) : Type 0 where
    pub at : InPhase e installing index w
    pub done : (i : ℕ) → i < index → Done i (w.slots i)
    pub fresh : (i : ℕ) → index ≤ i → i < total e → Fresh i (w.slots i)

  pub Progress-IsRecoverable : (index : ℕ) (w : World) → index ≤ total e → Progress index w → I w
  Progress-IsRecoverable index w le p = in_progress installing index (record {
    at = p.at;
    open_phase = refl;
    counts = rw (le→leb index (total e) le) refl;
    each = λ i lt. elim (dec_lt i index) [
      | yes below ↦ Done-SlotOk installing index i (w.slots i) below (p.done i below)
      | no above ↦
          let le : index ≤ i = omega arith in untouched le (p.fresh i le lt).0 (p.fresh i le lt).1
    ];
  })

  -- the output at `index` is begun, and its files are `s`
  pub record Begun (index : ℕ) (s : Slot) (w : World) : Type 0 where
    pub at : InPhase e installing (suc index) w
    pub done : (i : ℕ) → i < index → Done i (w.slots i)
    pub fresh : (i : ℕ) → suc index ≤ i → i < total e → Fresh i (w.slots i)
    pub here : w.slots index ≡ s

  pub Begun-update :
      (index : ℕ) (s : Slot) (w : World) (f : Slot → Slot)
      → Begun index s w
      → Begun index (f s) (update_slot index f w)
  Begun-update index s w f b = record {
    at = record { number = b.at.number; there = b.at.there; written = b.at.written };
    done =
        at_update (λ i t. i < index → Done i t) w index f (λ lt. absurd (omega arith))
          λ i _. b.done i;
    fresh =
        at_update (λ i t. suc index ≤ i → i < total e → Fresh i t) w index f
          (λ le lt. absurd (omega arith)) λ i _. b.fresh i;
    here = update_slot_same w index f ∙ ap f b.here;
  }

  module _ (index : ℕ) (lt : index < total e) where
    abbrev pub Intermediate : Slot → Type 0
    Intermediate s =
        SlotOk e.sha256 installing (suc index) index (items e index) (e.old index) (e.new index)
          s.live s.backup

    pub Begun-IsRecoverable : (s : Slot) (w : World) → Intermediate s → Begun index s w → I w
    Begun-IsRecoverable s w ok b = in_progress installing (suc index) (record {
      at = b.at;
      open_phase = refl;
      counts = rw (le→leb (suc index) (total e) lt) refl;
      each = λ i small. elim (dec_lt i index) [
        | yes below ↦
            Done-SlotOk installing (suc index) i (w.slots i) (omega arith) (b.done i below)
        | no above ↦ elim (Bool-cases (i == index)) [
          | inl same ↦
              let eq = (==_iff i index).0 same in
              subst
                (λ k.
                  SlotOk e.sha256 installing (suc index) k (items e k) (e.old k) (e.new k)
                    (w.slots k).live (w.slots k).backup)
                (sym eq)
                (subst
                  (λ t.
                    SlotOk e.sha256 installing (suc index) index (items e index) (e.old index)
                      (e.new index) t.live t.backup)
                  (sym b.here) ok)
          | inr other ↦
              let le : suc index ≤ i = after i index above other in
              untouched le (b.fresh i le small).0 (b.fresh i le small).1
        ]
      ];
    })
      where
        after : (i k : ℕ) → (i < k → ⊥) → (i == k) ≡ false → suc k ≤ i
        after i k h o = ground arith

    pub Begun-Progress :
        (s : Slot) (w : World) → Done index s → Begun index s w → Progress (suc index) w
    Begun-Progress s w d b = record {
      at = b.at;
      done = λ i small. elim (dec_lt i index) [
        | yes below ↦ b.done i below
        | no above ↦
            let eq : i ≡ index = omega arith in
            subst (λ k. Done k (w.slots k)) (sym eq) (subst (Done index) (sym b.here) d)
      ];
      fresh = b.fresh;
    }

    pub Progress-Begun :
        (w : World)
        → Progress index w
        → Begun index (w.slots index) (record w {
          journal_temporary = false;
          journal =
              some (record { phase = installing; installed = suc index; staging = e.staging });
        })
    Progress-Begun w p = record {
      at = record { number = p.at.number; there = p.at.there; written = refl };
      done = p.done;
      fresh = λ i le small. p.fresh i (omega arith) small;
      here = refl;
    }
