-- ===== src/Commit/Open.antt =====
-- A whole call of `install_staged_and_open`, with the recovery that follows a failure.
use libopod.Base.{
  ℕ, suc, ◌+◌, ◌≤◌, ◌<◌, ◌≡◌, inl, inr, refl, sym, ap, Bool, true, false, ◌||◌, Option, none, some,
  List, [], ◌∷◌, arith,
}
use mathlib.Core.Path.{subst}
use libopod.Base.Tests.{◌==◌, ==_iff, Bool-cases, &&_inv, if◌then◌else◌}
use libopod.Base.Lists.{length}
use libopod.Error.{Error, Result, ok, err, verification, device_transaction, recovery_required}
use libopod.Commit.State.{File, Output, Slot, World, fingerprint_matches}
use libopod.Commit.Effects.{
  Trace, All, All-append, All-map, Outcome-unit, Outcome, Ends, Ends-inspect, Ends-change,
  Ends-check, ◌>>◌, change, inspect,
}
use libopod.Commit.Manifest.{
  Original, present, absent, incomplete, original_state, original_verifies, generation_verifies,
  inputs_verify, verify_unchanged,
}
use libopod.Commit.Install.{install_inner}
use libopod.Commit.Recover.{recover_transaction}
use libopod.Commit.{recovered, install_staged_and_open}
use libopod.Commit.Invariant.{
  Edit, Lists, Lists-output_at, OldOk, was_present, was_absent, IsRecoverable, closed, Known,
  IsSettled, AllOld, NoBackups, total, items,
}
use libopod.Commit.Recovers.{recover_transaction-Ends}
use libopod.Commit.Safety.{install_inner-Ends}
use libopod.Commit.Installs.{Complete}

false-true : false ≡ true → ⊥
false-true h = cc

-- a file that verifies is as the manifest says
original_verifies-OldOk :
    (sha256 : File → List ℕ) (o : Output) (s : Original) (before : Option File)
    → original_state o ≡ s
    → original_verifies sha256 s before ≡ true
    → OldOk sha256 o before
unfolding fingerprint_matches
original_verifies-OldOk sha256 o (present f) none l h = absurd (false-true h)
original_verifies-OldOk sha256 o (present f) (some file) l h = was_present f file l refl h
original_verifies-OldOk sha256 o absent none l h = was_absent l refl
original_verifies-OldOk sha256 o absent (some file) l h = absurd (false-true h)
original_verifies-OldOk sha256 o incomplete before l h = absurd (false-true h)

generation_verifies_at :
    (sha256 : File → List ℕ) (items : ℕ → Output) (index : ℕ) (os : List Output) (slots : ℕ → Slot)
    → Lists items index os
    → generation_verifies sha256 index os slots ≡ true
    → (i : ℕ) → index ≤ i
    → i < index + length os
    → ((items i).is_added_media
        || original_verifies sha256 (original_state (items i)) (slots i).live)
      ≡ true
unfolding generation_verifies
generation_verifies_at sha256 items index [] slots l h i le lt = absurd (omega arith)
generation_verifies_at sha256 items index (o ∷ os) slots l h i le lt =
    elim (Bool-cases (i == index)) [
      | inl same ↦
          let eq = (==_iff i index).0 same in
          subst
            (λ k.
              ((items k).is_added_media
                || original_verifies sha256 (original_state (items k)) (slots k).live)
              ≡ true)
            (sym eq)
            (subst
              (λ x.
                (x.is_added_media || original_verifies sha256 (original_state x) (slots index).live)
                ≡ true)
              l.0 (&&_inv _ _ h).0)
      | inr other ↦
          generation_verifies_at sha256 items (suc index) os slots l.1 (&&_inv _ _ h).1 i
            (after i index le other) (omega (arith, lt))
    ]
  where
    after : (i k : ℕ) → k ≤ i → (i == k) ≡ false → suc k ≤ i
    after i k h o = ground arith

module _ (e : Edit) where
  recovered-Ends :
      Known e
      → inputs_verify e.sha256 e.staging.unchanged_inputs ≡ true
      → (r : Trace (Unit {0})) → Ends (IsRecoverable e) (IsRecoverable e) (λ _ v. Complete e v) r
      → Ends (IsRecoverable e) (IsSettled e) (λ _ v. Complete e v) (recovered e.sha256 r)
  recovered-Ends known inputs r h = go r.passed r.last r.result h.0 h.1
    where
      reported :
          (x : Error) (result : Result (Unit {0})) (u : World)
          → Outcome (IsSettled e) (λ _ v. IsSettled e v) result u
          → Outcome
              (IsSettled e)
              (λ _ v. Complete e v)
              (elim result as (λ _. Result (Unit {0})) [
                | ok done ↦ err x
                | err rollback_error ↦ err (verification device_transaction)
              ])
              u
      reported x (ok done) u h = h
      reported x (err y) u h = h

      go :
          (passed : List World) (last : World) (result : Result (Unit {0}))
          → All (IsRecoverable e) passed
          → Outcome (IsRecoverable e) (λ _ v. Complete e v) result last
          → Ends
              (IsRecoverable e)
              (IsSettled e)
              (λ _ v. Complete e v)
              (recovered e.sha256 (record { passed = passed; last = last; result = result }))
      go passed last (ok done) a o = (a, o)
      go passed last (err x) a o =
          let s = recover_transaction e.sha256 last in
          let t = recover_transaction-Ends e (IsSettled e) known inputs last o in
          (All-append (IsRecoverable e) passed s.passed a t.0, reported x s.result s.last t.1)

  -- no transaction, and the originals in their places
  pub record IsIdle (w : World) : Type 0 where
    pub number : w.targets ≡ total e
    pub no_directory : w.directory ≡ false
    pub no_journal : w.journal ≡ none
    pub no_backups : NoBackups e w
    pub originals : AllOld e w

  -- The generation of the device does not know added media: their originals are as the manifest says.
  abbrev pub AddedKnown : Type 0
  AddedKnown =
      (i : ℕ)
      → i < total e
      → (items e i).is_added_media ≡ true
      → OldOk e.sha256 (items e i) (e.old i)

  verified-Known :
      (w : World) → AllOld e w → AddedKnown → verify_unchanged e.sha256 e.staging w ≡ true → Known e
  verified-Known w files added h i lt =
      let at_i =
        generation_verifies_at e.sha256 (items e) 0 e.staging.outputs w.slots
          (Lists-output_at e.staging.outputs) (&&_inv _ _ h).1 i (omega arith) (omega arith) in
      elim (Bool-cases (items e i).is_added_media) [
        | inl is_added ↦ added i lt is_added
        | inr not_added ↦
            original_verifies-OldOk e.sha256 (items e i) (original_state (items e i)) (e.old i) refl
              (subst
                (λ before. original_verifies e.sha256 (original_state (items e i)) before ≡ true)
                (files i lt)
                (subst
                  (λ b.
                    (b || original_verifies e.sha256 (original_state (items e i)) (w.slots i).live)
                    ≡ true)
                  not_added at_i))
      ]

  -- the call after its first check
  checked-Ends :
      (host_original : ℕ → Option File) (read_back : World → Bool) (w : World)
      → IsIdle w
      → Known e
      → inputs_verify e.sha256 e.staging.unchanged_inputs ≡ true
      → Ends
          (IsRecoverable e)
          (IsSettled e)
          (λ _ v. Complete e v)
          ((do
            inspect λ w. if w.directory then err recovery_required else ok tt
            change λ w. record w { directory = true }
            λ w.
                recovered e.sha256
                  (install_inner e.sha256 e.new host_original read_back e.staging w))
            w)
  checked-Ends host_original read_back w idle known inputs =
      Ends-inspect (IsRecoverable e) (IsSettled e) _ _ tt _ w
        (ap (λ b. if b then err recovery_required else ok tt) idle.no_directory)
        (Ends-change (IsRecoverable e) (IsSettled e) _ (λ v. record v { directory = true }) _ w
          (closed idle.number idle.no_directory idle.no_journal (inl idle.originals))
          (recovered-Ends known inputs
            (install_inner e.sha256 e.new host_original read_back e.staging
              (record w { directory = true }))
            (install_inner-Ends e host_original read_back (record w { directory = true }) known
              idle.number refl idle.no_journal idle.no_backups idle.originals)))

  -- An installation of an edit on a device without a transaction, the originals of its added media
  -- being as the manifest says, leaves no transaction behind: if it succeeds, every output is in its
  -- place, as listed; if it fails, all the originals or all the outputs are. Each state it passes
  -- through is one that a recovery can take on.
  pub install_staged_and_open-Ends :
      (host_original : ℕ → Option File) (read_back : World → Bool) (w : World)
      → IsIdle w
      → AddedKnown
      → Ends
          (IsRecoverable e)
          (IsSettled e)
          (λ _ v. Complete e v)
          (install_staged_and_open e.sha256 e.new host_original read_back e.staging w)
  unfolding install_staged_and_open
  install_staged_and_open-Ends host_original read_back w idle added =
      Ends-check (IsRecoverable e) (IsSettled e) _ _ _ w
        (idle.number, idle.no_directory, idle.no_journal, inl idle.originals)
        λ h.
          checked-Ends host_original read_back w idle (verified-Known w idle.originals added h)
            (&&_inv _ _ h).0

  -- what a recovery does: it does not fail
  abbrev pub Recovers : World → Type 0
  Recovers v =
      Ends (IsRecoverable e) (λ _. ⊥) (λ _ u. IsSettled e u) (recover_transaction e.sha256 v)

  -- Where the device has no transaction and the originals are in their places, and the originals of
  -- added media are as the manifest says, so that nothing stands where the manifest says nothing
  -- does: an installation that is interrupted in whatever state it passes through, or that stops there as
  -- an operation of the file system fails, is settled by the next recovery: this does not fail, and
  -- leaves all the originals or all the outputs in place, and no transaction. What it passes through
  -- itself can be recovered again.
  pub interrupted-IsSettled :
      (host_original : ℕ → Option File) (read_back : World → Bool) (w : World)
      → IsIdle w
      → AddedKnown
      → All Recovers
          (install_staged_and_open e.sha256 e.new host_original read_back e.staging w).passed
  unfolding install_staged_and_open
  interrupted-IsSettled host_original read_back w idle added =
      (Ends-check Recovers (λ _. Unit {0}) (λ _ _. Unit {0}) _ _ w tt
        λ h.
          let known = verified-Known w idle.originals added h in
          let inputs = (&&_inv _ _ h).0 in
          (
            All-map (IsRecoverable e) Recovers (recover_transaction-Ends e (λ _. ⊥) known inputs) _
                (checked-Ends host_original read_back w idle known inputs).0,
            Outcome-unit _ _,
          )).0
