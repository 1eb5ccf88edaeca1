-- ===== src/Commit/Invariant.antt =====
-- The states in which an interruption may leave a transaction, and what recovery relies on.
use libopod.Base.{
  ℕ, zero, suc, ◌+◌, ◌≤◌, ◌<◌, ◌≡◌, ◌⊎◌, inl, inr, sym, ap, ◌∙◌, Bool, true, false, Option, none,
  some, List, [], ◌∷◌, arith,
}
use mathlib.Core.Path.{subst}
use libopod.Base.Tests.{◌==◌, ==_iff, ==_refl, Bool-cases, if◌then◌else◌}
use libopod.Base.Lists.{length, take}
use libopod.Commit.State.{
  File, Fingerprint, Output, Staging, TransactionJournal, Slot, World, TransactionPhase, committed,
  rolled_back, fingerprint_matches,
}
use libopod.Commit.Replace.{update_slot, is_terminal, in_flight}
use libopod.Commit.Manifest.{present, absent, original_state, write_journal}
use libopod.Commit.Effects.{Ends, Ends-change, Ends-change_last}
use libopod.Commit.Recover.{count_valid}

-- the output at an index; behind the last one it does not matter which
abbrev pub output_at : List Output → ℕ → Output
output_at [] i = record {
  output = record { bytes = 0; sha256 = [] };
  original_bytes = none;
  original_sha256 = none;
  is_added_media = false;
}
output_at (o ∷ os) zero = o
output_at (o ∷ os) (suc i) = output_at os i

-- `os` are the outputs of `items` from `index` on
abbrev pub Lists : (ℕ → Output) → ℕ → List Output → Type 0
Lists items index [] = Unit {0}
Lists items index (o ∷ os) = (o ≡ items index) × Lists items (suc index) os

Lists-from :
    (items : ℕ → Output) (index : ℕ) (os : List Output)
    → ((j : ℕ) → items (index + j) ≡ output_at os j)
    → Lists items index os
Lists-from items index [] h = tt
Lists-from items index (o ∷ os) h = (
  sym (h 0) ∙ ap items (plus_zero index),
  Lists-from items (suc index) os λ j. ap items (plus_suc index j) ∙ h (suc j),
)
  where
    plus_zero : (k : ℕ) → k + 0 ≡ k
    plus_zero k = omega arith

    plus_suc : (k j : ℕ) → suc k + j ≡ k + suc j
    plus_suc k j = omega arith

pub Lists-output_at : (os : List Output) → Lists (output_at os) 0 os
Lists-output_at os = Lists-from (output_at os) 0 os λ j. ap (output_at os) (zero_plus j)
  where
    zero_plus : (j : ℕ) → 0 + j ≡ j
    zero_plus j = omega arith

pub Lists-take :
    (items : ℕ → Output) (index m : ℕ) (os : List Output)
    → Lists items index os
    → Lists items index (take m os)
Lists-take items index zero os h = tt
Lists-take items index (suc m) [] h = tt
Lists-take items index (suc m) (o ∷ os) h = (h.0, Lists-take items (suc index) m os h.1)

-- what a slot reads after an update
pub update_slot_same :
    (w : World) (index : ℕ) (f : Slot → Slot)
    → (update_slot index f w).slots index ≡ f (w.slots index)
update_slot_same w index f =
    ap (λ b. if b then f (w.slots index) else w.slots index) (==_refl index)

-- what holds of the updated slot, and of the others, holds of each
pub at_update :
    (Q : ℕ → Slot → Type 0) (w : World) (index : ℕ) (f : Slot → Slot)
    → Q index (f (w.slots index))
    → ((i : ℕ) → (i ≡ index → ⊥) → Q i (w.slots i))
    → (i : ℕ) → Q i ((update_slot index f w).slots i)
at_update Q w index f here others i = elim (Bool-cases (i == index)) [
  | inl same ↦
      let e = (==_iff i index).0 same in
      subst (λ k. Q k ((update_slot index f w).slots k)) (sym e)
        (subst (Q index) (sym (update_slot_same w index f)) here)
  | inr other ↦
      subst (Q i) (ap (λ b. if b then f (w.slots index) else w.slots i) (sym other))
        (others i (λ e. different i index other e))
]
  where
    different : (i k : ℕ) → (i == k) ≡ false → i ≡ k → ⊥
    different i k h e = ground arith

module _ (sha256 : File → List ℕ) where
  -- What the manifest says of an original agrees with the file that was there.
  pub data OldOk (o : Output) (before : Option File) : Type 0 where
    was_present :
        (original : Fingerprint) (file : File)
        → original_state o ≡ present original
        → before ≡ some file
        → fingerprint_matches sha256 (some file) original ≡ true
        → OldOk o before
    was_absent : original_state o ≡ absent → before ≡ none → OldOk o before

  -- The states of one output in a transaction that is neither committed nor rolled back.
  pub data SlotOk (phase : TransactionPhase) (installed index : ℕ) (o : Output)
      (before : Option File) (after : File) (live backup : Option File) : Type 0 where
    untouched :
        installed ≤ index
        → live ≡ before
        → backup ≡ none
        → SlotOk phase installed index o before after live backup
    added :
        index < installed
        → before ≡ none
        → live ≡ some after
        → fingerprint_matches sha256 (some after) o.output ≡ true
        → backup ≡ none
        → SlotOk phase installed index o before after live backup
    not_added :
        index < installed
        → before ≡ none
        → live ≡ none
        → backup ≡ none
        → SlotOk phase installed index o before after live backup
    replaced :
        (file : File)
        → index < installed
        → before ≡ some file
        → live ≡ some after
        → fingerprint_matches sha256 (some after) o.output ≡ true
        → backup ≡ some file
        → SlotOk phase installed index o before after live backup
    gap :
        (file : File)
        → index < installed
        → before ≡ some file
        → live ≡ none
        → backup ≡ some file
        → in_flight phase installed index ≡ true
        → SlotOk phase installed index o before after live backup
    unmoved :
        (file : File)
        → index < installed
        → before ≡ some file
        → live ≡ some file
        → backup ≡ none
        → in_flight phase installed index ≡ true
        → SlotOk phase installed index o before after live backup

-- An edit that a transaction installs: its manifest, the files that were there, the new ones.
pub record Edit : Type 0 where
  pub sha256 : File → List ℕ
  pub staging : Staging
  pub old : ℕ → Option File
  pub new : ℕ → File

module _ (e : Edit) where
  abbrev pub items : ℕ → Output
  items = output_at e.staging.outputs

  abbrev pub total : ℕ
  total = length e.staging.outputs

  -- every original, or every output, in its place
  abbrev pub AllOld : World → Type 0
  AllOld w = (i : ℕ) → i < total → (w.slots i).live ≡ e.old i

  abbrev pub AllNew : World → Type 0
  AllNew w =
      (i : ℕ)
      → i < total
      → ((w.slots i).live ≡ some (e.new i))
        × (fingerprint_matches e.sha256 (some (e.new i)) (items i).output ≡ true)

  abbrev pub NoBackups : World → Type 0
  NoBackups w = (i : ℕ) → i < total → (w.slots i).backup ≡ none

  -- a journal of this transaction, in its directory
  pub record InPhase (phase : TransactionPhase) (installed : ℕ) (w : World) : Type 0 where
    pub number : w.targets ≡ total
    pub there : w.directory ≡ true
    pub written :
        w.journal ≡ some (record { phase = phase; installed = installed; staging = e.staging })

  pub record IsOpen (phase : TransactionPhase) (installed : ℕ) (w : World) : Type 0 where
    pub at : InPhase phase installed w
    pub open_phase : is_terminal phase ≡ false
    pub counts :
        count_valid (record { phase = phase; installed = installed; staging = e.staging }) ≡ true
    pub each :
        (i : ℕ)
        → i < total
        → SlotOk e.sha256 phase installed i
            (items i)
            (e.old i)
            (e.new i)
            (w.slots i).live
            (w.slots i).backup

  -- The states that an interruption may leave.
  pub data IsRecoverable (w : World) : Type 0 where
    closed :
        w.targets ≡ total
        → w.directory ≡ false
        → w.journal ≡ none
        → AllOld w ⊎ AllNew w
        → IsRecoverable w
    scaffold :
        w.targets ≡ total
        → w.directory ≡ true
        → w.journal ≡ none
        → NoBackups w
        → AllOld w ⊎ AllNew w
        → IsRecoverable w
    in_progress :
        (phase : TransactionPhase) (installed : ℕ) → IsOpen phase installed w → IsRecoverable w
    kept : InPhase committed total w → AllNew w → IsRecoverable w
    undone :
        (installed : ℕ)
        → installed ≤ total
        → InPhase rolled_back installed w
        → AllOld w
        → IsRecoverable w

  -- what the manifest says, agrees with what was there
  abbrev pub Known : Type 0
  Known = (i : ℕ) → i < total → OldOk e.sha256 (items i) (e.old i)

  -- the transaction is over: all the originals, or all the outputs
  abbrev pub IsSettled : World → Type 0
  IsSettled w =
      (w.targets ≡ total) × (w.directory ≡ false) × (w.journal ≡ none) × (AllOld w ⊎ AllNew w)

  -- whether the journal's temporary is there makes no difference
  pub InPhase-temporary :
      (phase : TransactionPhase) (n : ℕ) (w : World) (b : Bool)
      → InPhase phase n w
      → InPhase phase n (record w { journal_temporary = b })
  InPhase-temporary phase n w b at = record {
    number = at.number;
    there = at.there;
    written = at.written;
  }

  pub IsOpen-temporary :
      (phase : TransactionPhase) (n : ℕ) (w : World) (b : Bool)
      → IsOpen phase n w
      → IsOpen phase n (record w { journal_temporary = b })
  IsOpen-temporary phase n w b o = record {
    at = InPhase-temporary phase n w b o.at;
    open_phase = o.open_phase;
    counts = o.counts;
    each = o.each;
  }

  pub IsRecoverable-temporary :
      (w : World) (b : Bool) → IsRecoverable w → IsRecoverable (record w { journal_temporary = b })
  IsRecoverable-temporary w b (closed n d j f) = closed n d j f
  IsRecoverable-temporary w b (scaffold n d j k f) = scaffold n d j k f
  IsRecoverable-temporary w b (in_progress p n o) = in_progress p n (IsOpen-temporary p n w b o)
  IsRecoverable-temporary w b (kept at f) = kept (InPhase-temporary committed total w b at) f
  IsRecoverable-temporary w b (undone n le at f) =
      undone n le (InPhase-temporary rolled_back n w b at) f

  -- a journal that is written, from one state to another
  pub write_journal-Ends :
      (E : World → Type 0) (R : Unit {0} → World → Type 0) (j : TransactionJournal) (w : World)
      → IsRecoverable w
      → R tt (record w { journal_temporary = false; journal = some j })
      → Ends IsRecoverable E R (write_journal j w)
  unfolding write_journal
  write_journal-Ends E R j w h k =
      Ends-change IsRecoverable E R (λ v. record v { journal_temporary = true }) _ w h
        (Ends-change_last IsRecoverable E R
          (λ v. record v { journal_temporary = false; journal = some j })
          (record w { journal_temporary = true }) (IsRecoverable-temporary w true h) k)
