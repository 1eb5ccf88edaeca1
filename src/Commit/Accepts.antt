-- ===== src/Commit/Accepts.antt =====
-- What the validation of a recovery says of a single output, state by state.
use libopod.Base.{
  ℕ, suc, ◌+◌, ◌≤◌, ◌<◌, ◌≡◌, refl, sym, ap, ◌∙◌, ◌&&◌, ◌||◌, not, Bool, true, false, Option, none,
  some, List, [], ◌∷◌, arith,
}
use libopod.Base.Tests.{ltb, lt→ltb, le→ltb_false}
use libopod.Base.Lists.{length}
use libopod.Commit.State.{
  File, Fingerprint, Output, Slot, TransactionPhase, backing_up, installing, validating, committed,
  rolling_back, rolled_back, fingerprint_matches, is_some,
}
use libopod.Commit.Replace.{is_terminal, validate_replacement, replacement_valid, backup_verifies}
use libopod.Commit.Manifest.{original_state}
use libopod.Commit.Recover.{validate_new, validate_output, validate_outputs}
use libopod.Commit.Invariant.{
  OldOk, was_present, was_absent, SlotOk, untouched, added, not_added, replaced, gap, unmoved,
  Lists,
}

some-none : {A : Type 0} {a : A} → some a ≡ none → ⊥
some-none h = cc

or_true : (a c : Bool) → (a || true || c) ≡ true
or_true true c = refl
or_true false c = refl

module _ (sha256 : File → List ℕ) where
  replacement_open :
      (phase : TransactionPhase) (installed index : ℕ) (output original : Fingerprint) (s : Slot)
      → is_terminal phase ≡ false
      → backup_verifies sha256 s.backup original ≡ true
      → replacement_valid sha256 phase installed index output original s ≡ true
      → validate_replacement sha256 phase installed index output original s ≡ true
  unfolding validate_replacement
  replacement_open backing_up installed index output original s h k l = rw (k, l) refl
  replacement_open installing installed index output original s h k l = rw (k, l) refl
  replacement_open validating installed index output original s h k l = rw (k, l) refl
  replacement_open rolling_back installed index output original s h k l = rw (k, l) refl
  replacement_open committed installed index output original s h k l = cc
  replacement_open rolled_back installed index output original s h k l = cc

  new_open :
      (phase : TransactionPhase) (installed index : ℕ) (output : Fingerprint) (s : Slot)
      → is_terminal phase ≡ false
      → not (
          is_some s.live
          && (not (ltb index installed) || not (fingerprint_matches sha256 s.live output)))
        ≡ true
      → validate_new sha256 phase installed index output s ≡ true
  unfolding validate_new
  new_open backing_up installed index output s h k = rw (k) refl
  new_open installing installed index output s h k = rw (k) refl
  new_open validating installed index output s h k = rw (k) refl
  new_open rolling_back installed index output s h k = rw (k) refl
  new_open committed installed index output s h k = cc
  new_open rolled_back installed index output s h k = cc

  -- a replacement, in each of its states
  replacement-SlotOk :
      (phase : TransactionPhase) (installed index : ℕ) (o : Output) (original : Fingerprint)
      (file after : File) (before : Option File) (s : Slot)
      → is_terminal phase ≡ false
      → before ≡ some file
      → fingerprint_matches sha256 (some file) original ≡ true
      → SlotOk sha256 phase installed index o before after s.live s.backup
      → validate_replacement sha256 phase installed index o.output original s ≡ true
  unfolding fingerprint_matches
  replacement-SlotOk phase installed index o original file after before s active was fits
        (untouched le live backup) =
      let later : ltb index installed ≡ false = le→ltb_false index installed le in
      let here = live ∙ was in
      replacement_open phase installed index o.output original s active (rw (backup) refl)
        (unfold replacement_valid in rw (later, backup, here, fits) refl)
  replacement-SlotOk phase installed index o original file after before s active was fits
        (added lt gone live f b) =
      absurd (some-none (sym was ∙ gone))
  replacement-SlotOk phase installed index o original file after before s active was fits
        (not_added lt gone live b) =
      absurd (some-none (sym was ∙ gone))
  replacement-SlotOk phase installed index o original file after before s active was fits
        (replaced moved lt from live matches backup) =
      let earlier : ltb index installed ≡ true = lt→ltb index installed lt in
      let held = backup ∙ sym from ∙ was in
      replacement_open phase installed index o.output original s active (rw (held, fits) refl)
        (unfold replacement_valid in rw (earlier, held, live, matches) (or_true _ _))
  replacement-SlotOk phase installed index o original file after before s active was fits
        (gap moved lt from live backup flight) =
      let earlier : ltb index installed ≡ true = lt→ltb index installed lt in
      let held = backup ∙ sym from ∙ was in
      replacement_open phase installed index o.output original s active (rw (held, fits) refl)
        (unfold replacement_valid in rw (earlier, held, live, flight) refl)
  replacement-SlotOk phase installed index o original file after before s active was fits
        (unmoved moved lt from live backup flight) =
      let earlier : ltb index installed ≡ true = lt→ltb index installed lt in
      let here = live ∙ sym from ∙ was in
      replacement_open phase installed index o.output original s active (rw (backup) refl)
        (unfold replacement_valid in rw (earlier, backup, here, fits, flight) refl)

  -- an output without an original, in each of its states
  new-SlotOk :
      (phase : TransactionPhase) (installed index : ℕ) (o : Output) (after : File)
      (before : Option File) (s : Slot)
      → is_terminal phase ≡ false
      → before ≡ none
      → SlotOk sha256 phase installed index o before after s.live s.backup
      → validate_new sha256 phase installed index o.output s ≡ true
  new-SlotOk phase installed index o after before s active was (untouched le live backup) =
      let gone = live ∙ was in new_open phase installed index o.output s active (rw (gone) refl)
  new-SlotOk phase installed index o after before s active was (added lt gone live matches b) =
      let earlier : ltb index installed ≡ true = lt→ltb index installed lt in
      new_open phase installed index o.output s active (rw (live, earlier, matches) refl)
  new-SlotOk phase installed index o after before s active was (not_added lt gone live b) =
      new_open phase installed index o.output s active (rw (live) refl)
  new-SlotOk phase installed index o after before s active was (replaced file lt from l m b) =
      absurd (some-none (sym from ∙ was))
  new-SlotOk phase installed index o after before s active was (gap file lt from l b f) =
      absurd (some-none (sym from ∙ was))
  new-SlotOk phase installed index o after before s active was (unmoved file lt from l b f) =
      absurd (some-none (sym from ∙ was))

  pub validate_output-SlotOk :
      (phase : TransactionPhase) (installed index : ℕ) (o : Output) (before : Option File)
      (after : File) (s : Slot)
      → is_terminal phase ≡ false
      → OldOk sha256 o before
      → SlotOk sha256 phase installed index o before after s.live s.backup
      → validate_output sha256 phase installed index o.output s (original_state o) ≡ true
  unfolding validate_output
  validate_output-SlotOk phase installed index o before after s active
        (was_present original file state was fits) ok =
      ap (validate_output sha256 phase installed index o.output s) state
      ∙ (replacement-SlotOk phase installed index o original file after before s active was fits ok)
  validate_output-SlotOk phase installed index o before after s active (was_absent state was) ok =
      ap (validate_output sha256 phase installed index o.output s) state
      ∙ (new-SlotOk phase installed index o after before s active was ok)

  -- the originals in their places, where the transaction was rolled back
  pub validate_output-old :
      (installed index : ℕ) (o : Output) (before : Option File) (s : Slot)
      → OldOk sha256 o before
      → s.live ≡ before
      → validate_output sha256 rolled_back installed index o.output s (original_state o) ≡ true
  unfolding validate_output validate_replacement validate_new
  validate_output-old installed index o before s (was_present original file state was fits) live =
      let here = live ∙ was in
      ap (validate_output sha256 rolled_back installed index o.output s) state
      ∙ rw (here, fits) refl
  validate_output-old installed index o before s (was_absent state was) live =
      let gone = live ∙ was in
      ap (validate_output sha256 rolled_back installed index o.output s) state ∙ rw (gone) refl

  -- the outputs in their places, where it was committed
  pub validate_output-new :
      (installed index : ℕ) (o : Output) (before : Option File) (after : File) (s : Slot)
      → OldOk sha256 o before
      → index < installed
      → s.live ≡ some after
      → fingerprint_matches sha256 (some after) o.output ≡ true
      → validate_output sha256 committed installed index o.output s (original_state o) ≡ true
  unfolding validate_output validate_replacement validate_new
  validate_output-new installed index o before after s (was_present original file state was fits) lt
        live matches =
      ap (validate_output sha256 committed installed index o.output s) state
      ∙ rw (live, matches) refl
  validate_output-new installed index o before after s (was_absent state was) lt live matches =
      let earlier : ltb index installed ≡ true = lt→ltb index installed lt in
      ap (validate_output sha256 committed installed index o.output s) state
      ∙ rw (live, earlier, matches) refl

  -- every output from `index` on
  pub validate_outputs_each :
      (items : ℕ → Output) (phase : TransactionPhase) (installed total index : ℕ) (os : List Output)
      (slots : ℕ → Slot)
      → Lists items index os
      → index + length os ≤ total
      → ((i : ℕ)
          → i < total
          → validate_output sha256 phase installed i
              (items i).output
              (slots i)
              (original_state (items i))
            ≡ true)
      → validate_outputs sha256 phase installed index os slots ≡ true
  unfolding validate_outputs
  validate_outputs_each items phase installed total index [] slots l fits each = refl
  validate_outputs_each items phase installed total index (o ∷ os) slots l fits each =
      let this =
        ap
          (λ x.
            validate_output sha256 phase installed index x.output (slots index) (original_state x))
          l.0
        ∙ each index (omega (arith, fits)) in
      rw (this) (
        validate_outputs_each items phase installed total (suc index) os slots l.1
          (omega (arith, fits)) each)
