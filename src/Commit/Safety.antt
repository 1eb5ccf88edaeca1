-- ===== src/Commit/Safety.antt =====
-- `install_inner` as a whole: what it passes through, and where it ends.
use libopod.Base.{ℕ, ◌≡◌, inl, refl, ◌∙◌, Bool, true, Option, none, arith}
use libopod.Commit.State.{File, World, backing_up, installing, validating, committed}
use libopod.Commit.Effects.{Ends, Ends-bind, Ends-check, Ends-weaken, ◌>>◌, check}
use libopod.Commit.Replace.{remove_transaction_directory}
use libopod.Commit.Manifest.{write_journal}
use libopod.Commit.Install.{
  remove_deletions, deletions_absent, prepare_outputs, outputs_verify, install_outputs,
  install_inner,
}
use libopod.Commit.Invariant.{
  Edit, Lists-output_at, IsRecoverable, scaffold, write_journal-Ends, Known, AllOld, AllNew,
  NoBackups, total,
}
use libopod.Commit.Cleanup.{IsTerminal, all_new, remove_transaction_directory-Ends}
use libopod.Commit.Advance.{Progress, Progress-IsRecoverable}
use libopod.Commit.Installs.{
  Before, Before-IsRecoverable, Installed, Installed-IsRecoverable, Done-new, Complete,
  install_outputs-Ends, remove_deletions-Ends, prepare_outputs-Ends,
}

module _ (e : Edit) (host_original : ℕ → Option File) (read_back : World → Bool) where
  abbrev I : World → Type 0
  I = IsRecoverable e

  -- the end of an installation, from its last journals on
  finish-Ends :
      (w : World)
      → Progress e (total e) w
      → Ends I I
          (λ _ v. Complete e v)
          ((do
            write_journal (record { phase = validating; installed = total e; staging = e.staging })
            check λ w. outputs_verify e.sha256 0 e.staging.outputs w.slots
            check (deletions_absent e.staging.deletions)
            check read_back
            write_journal (record { phase = committed; installed = total e; staging = e.staging })
            remove_transaction_directory)
            w)
  finish-Ends w p =
      Ends-bind I I (λ _ v. Installed e validating v) _
        (write_journal (record { phase = validating; installed = total e; staging = e.staging })) _
        w
        (write_journal-Ends e I _ _ w (Progress-IsRecoverable e (total e) w (omega arith) p)
          (record {
            at = record { number = p.at.number; there = p.at.there; written = refl };
            done = p.done;
          }))
        λ _ v i.
          let safe = Installed-IsRecoverable e v i in
          Ends-check I I _ _ _ v safe λ _. Ends-check I I _ _ _ v safe λ _.
            Ends-check I I _ _ _ v safe λ _.
              Ends-bind I I (λ _ u. IsTerminal e I u × AllNew e u) _
                (write_journal
                  (record { phase = committed; installed = total e; staging = e.staging }))
                _ v
                (write_journal-Ends e I _ _ v safe (
                  all_new (record { number = i.at.number; there = i.at.there; written = refl })
                      (λ k lt. Done-new e k (v.slots k) (i.done k lt)),
                  λ k lt. Done-new e k (v.slots k) (i.done k lt),
                ))
                λ _ u t.
                  Ends-weaken I I _ _ (remove_transaction_directory u)
                    (remove_transaction_directory-Ends e I u t.0)
                    λ _ r q. (q.0, λ k lt. (q.1 k ∙ (t.1 k lt).0, (t.1 k lt).1))

  pub install_inner-Ends :
      (w : World)
      → Known e
      → w.targets ≡ total e
      → w.directory ≡ true
      → w.journal ≡ none
      → NoBackups e w
      → AllOld e w
      → Ends I I
          (λ _ v. Complete e v)
          (install_inner e.sha256 e.new host_original read_back e.staging w)
  unfolding install_inner
  install_inner-Ends w known number there none_left empty files =
      Ends-bind I I (λ _ v. Before e backing_up v) _
        (write_journal (record { phase = backing_up; installed = 0; staging = e.staging })) _ w
        (write_journal-Ends e I _ _ w (scaffold number there none_left empty (inl files)) (record {
          at = record { number = number; there = there; written = refl };
          fresh = λ i lt. (files i lt, empty i lt);
        }))
        λ _ v b.
          Ends-bind I I (λ _ u. Before e backing_up u) _
            (prepare_outputs e.sha256 host_original 0 e.staging.outputs) _ v
            (prepare_outputs-Ends e host_original (Before e backing_up) (Before-IsRecoverable e) 0
              e.staging.outputs v b)
            λ _ u c. Ends-check I I _ _ _ u (Before-IsRecoverable e u c) λ _. begin u c
    where
      begin :
          (u : World)
          → Before e backing_up u
          → Ends I I
              (λ _ v. Complete e v)
              ((do
                write_journal (record { phase = installing; installed = 0; staging = e.staging })
                install_outputs e.sha256 e.new e.staging 0 e.staging.outputs
                remove_deletions e.staging.deletions
                write_journal
                    (record { phase = validating; installed = total e; staging = e.staging })
                check λ w. outputs_verify e.sha256 0 e.staging.outputs w.slots
                check (deletions_absent e.staging.deletions)
                check read_back
                write_journal
                    (record { phase = committed; installed = total e; staging = e.staging })
                remove_transaction_directory)
                u)
      begin u c =
          Ends-bind I I (λ _ v. Progress e 0 v) _
            (write_journal (record { phase = installing; installed = 0; staging = e.staging })) _ u
            (write_journal-Ends e I _ _ u (Before-IsRecoverable e u c) (record {
              at = record { number = c.at.number; there = c.at.there; written = refl };
              done = λ i lt. absurd (omega arith);
              fresh = λ i le lt. c.fresh i lt;
            }))
            λ _ v p.
              Ends-bind I I (λ _ v. Progress e (total e) v) _
                (install_outputs e.sha256 e.new e.staging 0 e.staging.outputs) _ v
                (install_outputs-Ends e known 0 e.staging.outputs v
                  (Lists-output_at e.staging.outputs) (omega arith) p)
                λ _ t q.
                  Ends-bind I I (λ _ v. Progress e (total e) v) _
                    (remove_deletions e.staging.deletions) _ t
                    (remove_deletions-Ends e e.staging.deletions t q) λ _ r z. finish-Ends r z
