-- ===== src/Commit/Installs.antt =====
-- The stages of `install_inner`, and the states between them.
use libopod.Base.{ℕ, suc, ◌+◌, ◌<◌, ◌≡◌, refl, sym, true, Option, some, List, [], ◌∷◌, arith}
use mathlib.Core.Path.{subst}
use libopod.Base.Tests.{le→leb, ==_refl}
use libopod.Base.Lists.{length}
use libopod.Commit.State.{
  File, Output, Slot, World, TransactionPhase, backing_up, validating, fingerprint_matches,
}
use libopod.Commit.Effects.{Ends, Ends-bind, Ends-change, Ends-check, Ends-check_either, inspect}
use libopod.Commit.Manifest.{Original, present, absent, incomplete, original_state}
use libopod.Commit.Install.{
  remove_deletions, prepare_output, prepare_outputs, install_output, install_outputs,
}
use libopod.Commit.Invariant.{
  Edit, Lists, untouched, InPhase, IsRecoverable, in_progress, Known, IsSettled, AllNew, total,
  items,
}
use libopod.Commit.Advance.{
  Done, new_file, moved, Done-SlotOk, Fresh, Progress, Progress-IsRecoverable,
}
use libopod.Commit.Outputs.{install_output-Ends}

module _ (e : Edit) where
  abbrev I : World → Type 0
  I = IsRecoverable e

  -- installed, and kept
  abbrev pub Complete : World → Type 0
  Complete w = IsSettled e w × AllNew e w

  abbrev Includes : (World → Type 0) → Type 0
  Includes P = (w : World) → P w → I w

  -- nothing is begun
  pub record Before (phase : TransactionPhase) (w : World) : Type 0 where
    pub at : InPhase e phase 0 w
    pub fresh : (i : ℕ) → i < total e → Fresh e i (w.slots i)

  -- everything is installed
  pub record Installed (phase : TransactionPhase) (w : World) : Type 0 where
    pub at : InPhase e phase (total e) w
    pub done : (i : ℕ) → i < total e → Done e i (w.slots i)

  pub Before-IsRecoverable : (w : World) → Before backing_up w → I w
  Before-IsRecoverable w b = in_progress backing_up 0 (record {
    at = b.at;
    open_phase = refl;
    counts = rw (le→leb 0 (total e) (omega arith)) refl;
    each = λ i lt. untouched (omega arith) (b.fresh i lt).0 (b.fresh i lt).1;
  })

  pub Installed-IsRecoverable : (w : World) → Installed validating w → I w
  Installed-IsRecoverable w b = in_progress validating (total e) (record {
    at = b.at;
    open_phase = refl;
    counts = rw (le→leb (total e) (total e) (omega arith), ==_refl (total e)) refl;
    each = λ i lt. Done-SlotOk e validating (total e) i (w.slots i) lt (b.done i lt);
  })

  pub Done-new :
      (i : ℕ) (s : Slot)
      → Done e i s
      → (s.live ≡ some (e.new i))
        × (fingerprint_matches e.sha256 (some (e.new i)) (items e i).output ≡ true)
  Done-new i s (new_file was l m b) = (l, m)
  Done-new i s (moved file was l m b) = (l, m)

  -- the checks before the installation change nothing
  module _ (host_original : ℕ → Option File) (P : World → Type 0) (safe : Includes P) where
    prepare_output-Ends :
        (index : ℕ) (o : Original) (w : World)
        → P w
        → Ends I I (λ _ v. P v) (prepare_output e.sha256 host_original index o w)
    unfolding prepare_output inspect
    prepare_output-Ends index (present original) w p =
        Ends-check I I _ _ _ w (safe w p) λ _. Ends-check_either I I P _ w p (safe w p)
    prepare_output-Ends index absent w p = Ends-check_either I I P _ w p (safe w p)
    prepare_output-Ends index incomplete w p = (tt, safe w p)

    pub prepare_outputs-Ends :
        (index : ℕ) (os : List Output) (w : World)
        → P w
        → Ends I I (λ _ v. P v) (prepare_outputs e.sha256 host_original index os w)
    unfolding prepare_outputs
    prepare_outputs-Ends index [] w p = (tt, p)
    prepare_outputs-Ends index (o ∷ os) w p =
        Ends-bind I I (λ _ v. P v) _
          (prepare_output e.sha256 host_original index (original_state o)) _ w
          (prepare_output-Ends index (original_state o) w p)
          λ _ v q. prepare_outputs-Ends (suc index) os v q

  pub install_outputs-Ends :
      Known e
      → (index : ℕ) (os : List Output) (w : World) → Lists (items e) index os
      → index + length os ≡ total e
      → Progress e index w
      → Ends I I
          (λ _ v. Progress e (total e) v)
          (install_outputs e.sha256 e.new e.staging index os w)
  unfolding install_outputs
  install_outputs-Ends known index [] w l size p =
      (tt, subst (λ n. Progress e n w) (the_end index (total e) size) p)
    where
      the_end : (k n : ℕ) → k + 0 ≡ n → k ≡ n
      the_end k n h = omega arith
  install_outputs-Ends known index (o ∷ os) w l size p =
      let lt : index < total e = omega arith in
      Ends-bind I I (λ _ v. Progress e (suc index) v) _
        (install_output e.sha256 e.new e.staging index o) _ w
        (subst
          (λ x.
            Ends I I (λ _ v. Progress e (suc index) v)
              (install_output e.sha256 e.new e.staging index x w))
          (sym l.0) (install_output-Ends e index lt w (known index lt) p))
        λ _ v q. install_outputs-Ends known (suc index) os v l.1 (omega (arith, size)) q

  pub remove_deletions-Ends :
      (ds : List ℕ) (w : World)
      → Progress e (total e) w
      → Ends I I (λ _ v. Progress e (total e) v) (remove_deletions ds w)
  unfolding remove_deletions
  remove_deletions-Ends [] w p = (tt, p)
  remove_deletions-Ends (d ∷ ds) w p =
      Ends-change I I _ _ _ w (Progress-IsRecoverable e (total e) w (omega arith) p) (
        remove_deletions-Ends ds _ (record {
          at = record { number = p.at.number; there = p.at.there; written = p.at.written };
          done = p.done;
          fresh = p.fresh;
        }))
