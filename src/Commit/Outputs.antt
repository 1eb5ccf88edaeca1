-- ===== src/Commit/Outputs.antt =====
-- The steps that install the files of one output.
use libopod.Base.{ℕ, suc, ◌+◌, ◌<◌, ◌≡◌, refl, sym, ◌∙◌, true, Option, none, some, [], arith}
use mathlib.Core.Path.{subst}
use libopod.Base.Tests.{◌==◌, ==_iff}
use libopod.Commit.State.{File, Fingerprint, Slot, World, installing, fingerprint_matches}
use libopod.Commit.Effects.{
  Action, Ends, Ends-bind, Ends-change, Ends-change_last, Ends-check, ◌>>◌, change,
}
use libopod.Commit.Replace.{
  update_slot, with_temporary, publish, move_to_backup, write_installation_temporary,
  install_replacement,
}
use libopod.Commit.Manifest.{original_state, write_journal}
use libopod.Commit.Install.{install_file_impl, install_files, install_output}
use libopod.Commit.Invariant.{
  Edit, OldOk, was_present, was_absent, not_added, gap, unmoved, IsRecoverable, write_journal-Ends,
  total, items,
}
use libopod.Commit.Advance.{
  new_file, moved, Progress, Progress-IsRecoverable, Begun, Begun-update, Intermediate,
  Begun-IsRecoverable, Begun-Progress, Progress-Begun,
}

last_begun : (k : ℕ) → (k + 1 == suc k) ≡ true
last_begun k = (==_iff (k + 1) (suc k)).1 (omega arith)

module _ (e : Edit) (index : ℕ) (lt : index < total e) where
  abbrev I : World → Type 0
  I = IsRecoverable e

  -- one change of the slot, and the rest
  step :
      (R : Unit {0} → World → Type 0) (s : Slot) (f : Slot → Slot) (rest : Action (Unit {0}))
      (w : World)
      → Intermediate e index lt s
      → Begun e index s w
      → ((v : World) → Begun e index (f s) v → Ends I I R (rest v))
      → Ends I I R ((change (update_slot index f) >> rest) w)
  step R s f rest w ok b next =
      Ends-change I I R (update_slot index f) rest w (Begun-IsRecoverable e index lt s w ok b)
        (next (update_slot index f w) (Begun-update e index s w f b))

  last_step :
      (R : Unit {0} → World → Type 0) (s : Slot) (f : Slot → Slot) (w : World)
      → Intermediate e index lt s
      → Begun e index s w
      → ((v : World) → Begun e index (f s) v → R tt v)
      → Ends I I R (change (update_slot index f) w)
  last_step R s f w ok b next =
      Ends-change_last I I R (update_slot index f) w (Begun-IsRecoverable e index lt s w ok b)
        (next (update_slot index f w) (Begun-update e index s w f b))

  -- what the slot holds besides its temporary
  written-Ends :
      (s : Slot) (w : World)
      → ((t : Option File) → Intermediate e index lt (with_temporary t s))
      → Begun e index s w
      → Intermediate e index lt s
      → Ends I I
          (λ _ v. Begun e index (with_temporary (some (e.new index)) s) v)
          (write_installation_temporary index (e.new index) w)
  unfolding write_installation_temporary
  written-Ends s w ok b now =
      step (λ _ v. Begun e index (with_temporary (some (e.new index)) s) v) s
        (with_temporary (some [])) _ w now b
        λ v c.
          last_step (λ _ v. Begun e index (with_temporary (some (e.new index)) s) v)
            (with_temporary (some []) s) (with_temporary (some (e.new index))) v (ok (some [])) c
            λ u d. d

  -- the new file is the one that the manifest lists
  abbrev Verified : Type 0
  Verified = fingerprint_matches e.sha256 (some (e.new index)) (items e index).output ≡ true

  module _ (verified : Verified) where
    -- a new file, created where nothing was
    install_file_impl-Ends :
        (s : Slot) (w : World)
        → e.old index ≡ none
        → s.live ≡ none
        → s.backup ≡ none
        → Begun e index s w
        → Ends I I (λ _ v. Progress e (suc index) v) (install_file_impl index (e.new index) w)
    unfolding install_file_impl
    install_file_impl-Ends s w was l k b =
        let ok : (t : Option File) → Intermediate e index lt (with_temporary t s) =
          λ t. not_added (omega arith) was l k in
        step _ s (with_temporary none) _ w (not_added (omega arith) was l k) b λ v c.
          Ends-bind I I _ _ (write_installation_temporary index (e.new index)) _ v
            (written-Ends (with_temporary none s) v ok c (ok none))
            λ _ u d.
              last_step _ (with_temporary (some (e.new index)) s) publish u
                (ok (some (e.new index))) d
                λ t f. Begun-Progress e index lt _ t (new_file was refl verified k) f

    -- a replacement: the original is moved away, and the new file to its place
    install_replacement-Ends :
        (output original : Fingerprint) (file : File) (s : Slot) (w : World)
        → e.old index ≡ some file
        → s.live ≡ some file
        → s.backup ≡ none
        → Begun e index s w
        → Ends I I
            (λ _ v. Progress e (suc index) v)
            (install_replacement e.sha256 index (e.new index) output original w)
    unfolding install_replacement
    install_replacement-Ends output original file s w was l k b =
        let filled : Slot = with_temporary (some (e.new index)) s in
        let still : (t : Option File) → Intermediate e index lt (with_temporary t s) =
          λ t. unmoved file (omega arith) was l k (last_begun index) in
        step _ s (with_temporary none) _ w (unmoved file (omega arith) was l k (last_begun index)) b
          λ v c.
            Ends-bind I I _ _ (write_installation_temporary index (e.new index)) _ v
              (written-Ends (with_temporary none s) v still c (still none))
              λ _ u d.
                let safe = Begun-IsRecoverable e index lt filled u (still (some (e.new index))) d in
                Ends-check I I _ _ _ u safe λ _. Ends-check I I _ _ _ u safe λ _.
                  Ends-check I I _ _ _ u safe λ _.
                    step _ filled move_to_backup _ u (still (some (e.new index))) d λ t f.
                      Ends-check I I _ _ _ t
                        (Begun-IsRecoverable e index lt (move_to_backup filled) t (away t) f)
                        λ _.
                          last_step _ (move_to_backup filled) publish t (away t) f
                            λ r g. Begun-Progress e index lt _ r (moved file was refl verified l) g
      where
        away :
            World → Intermediate e index lt (move_to_backup (with_temporary (some (e.new index)) s))
        away t = gap file (omega arith) was refl l (last_begun index)

  -- one output, whichever its original
  pub install_output-Ends :
      (w : World)
      → OldOk e.sha256 (items e index) (e.old index)
      → Progress e index w
      → Ends I I
          (λ _ v. Progress e (suc index) v)
          (install_output e.sha256 e.new e.staging index (items e index) w)
  unfolding install_output install_files
  install_output-Ends w old p =
      let safe = Progress-IsRecoverable e index w (omega arith) p in
      Ends-check I I _ _ _ w safe λ verified.
        Ends-bind I I (λ _ v. Begun e index (w.slots index) v) _
          (write_journal
            (record { phase = installing; installed = suc index; staging = e.staging }))
          _ w (write_journal-Ends e I _ _ w safe (Progress-Begun e index lt w p))
          λ _ v b. files old v verified b
    where
      files :
          (old : OldOk e.sha256 (items e index) (e.old index)) (v : World)
          → Verified
          → Begun e index (w.slots index) v
          → Ends I I
              (λ _ u. Progress e (suc index) u)
              (install_files e.sha256 e.new index
                (items e index).output
                (original_state (items e index))
                v)
      files (was_present original file listed was matches) v verified b =
          subst
            (λ o.
              Ends I I (λ _ u. Progress e (suc index) u)
                (install_files e.sha256 e.new index (items e index).output o v))
            (sym listed)
            (install_replacement-Ends verified (items e index).output original file (w.slots index)
              v was ((p.fresh index (omega arith) lt).0 ∙ was) (p.fresh index (omega arith) lt).1 b)
      files (was_absent listed was) v verified b =
          subst
            (λ o.
              Ends I I (λ _ u. Progress e (suc index) u)
                (install_files e.sha256 e.new index (items e index).output o v))
            (sym listed)
            (install_file_impl-Ends verified (w.slots index) v was
              ((p.fresh index (omega arith) lt).0 ∙ was) (p.fresh index (omega arith) lt).1 b)
