-- ===== src/Runner/Restore/Outcomes.antt =====
-- The end of `restore` of codex-runner/src/sqlite-storage.ts, with its errors.
use artifact_dev_toolkit.Common.{
  ◌≡◌, refl, ap, sym, subst, ◌∙◌, true, false, ◌&&◌, not, none, List, [], ◌∷◌, arith, is_some,
  Bool-cases, Option-cases, ◌⊎◌, inl, inr, ok, err,
}
use artifact_dev_toolkit.Common.Text.{Text}
use artifact_dev_toolkit.Runner.Files.{Files, lookup}
use artifact_dev_toolkit.Runner.Storage.{
  Setup, Storage, Failure, Step, Outcome, files_of, ◌>>=◌, continue, try_catch, idle, restore,
  remove_safety,
}
use artifact_dev_toolkit.Runner.Storage.Triples.{
  Judge, Judge-weaken, Judge-state, caught-Judge, try_finally-state,
}
use artifact_dev_toolkit.Runner.Storage.Operations.{remove_stage-keeps, remove_safety-Ensures}
use artifact_dev_toolkit.Runner.Restore.{
  Restored, recover, body, finish, leave, leave_safety, run_restore, restore_backup, clear_stage,
  clear_safety, become_idle,
}
use artifact_dev_toolkit.Runner.Restore.SetAside.{Holds, KeptIn}
use artifact_dev_toolkit.Runner.Restore.Safety.{untouched, recovering, restarted}
use artifact_dev_toolkit.Runner.Restore.Copies.{Anything}
use artifact_dev_toolkit.Runner.Restore.Installed.{IsInstalled, IsInstalled-home, body-IsInstalled}
use artifact_dev_toolkit.Runner.Restore.NoLoss.{Lossless, recover-Lossless, body-Ensures}

-- What the last part of the operation leaves as it is: the home, and in recovery the rest too.
abbrev pub Left : Storage → Storage → Type 0
Left s t =
    (t.home ≡ s.home)
    × (t.recovery_required ≡ s.recovery_required)
    × (s.recovery_required ≡ true → (t.safety ≡ s.safety) × (t.operation ≡ s.operation))

module _ (setup : Setup) where
  clear_stage-Left : (s : Storage) → Left s (clear_stage setup s).1
  clear_stage-Left s = elim (Bool-cases (is_some s.stage)) [
    | inl e ↦ rw e (
      (remove_stage-keeps setup s).0,
      (remove_stage-keeps setup s).2,
      (λ r. ((remove_stage-keeps setup s).1, (remove_stage-keeps setup s).3)),
    )
    | inr e ↦ rw e (refl, refl, (λ r. (refl, refl)))
  ]

  remove_safety-keeps :
      (s : Storage)
      → ((remove_safety setup s).1.home ≡ s.home)
        × ((remove_safety setup s).1.recovery_required ≡ s.recovery_required)
  remove_safety-keeps s =
      Judge-state (remove_safety setup s)
        (λ t. (t.home ≡ s.home) × (t.recovery_required ≡ s.recovery_required))
        (Judge-weaken (remove_safety setup s) _ _ _ _ (λ done t same. rw same (refl, refl))
          (λ e t same. rw same (refl, refl)) (remove_safety-Ensures setup s))

  clear_safety-Left : (s : Storage) → Left s (clear_safety setup s).1
  clear_safety-Left s = elim (Bool-cases (not s.recovery_required && is_some s.safety)) [
    | inl e ↦
        rw e ((remove_safety-keeps s).0, (remove_safety-keeps s).1, (λ r. absurd (ground arith)))
    | inr e ↦ rw e (refl, refl, (λ r. (refl, refl)))
  ]

  become_idle-Left : (s : Storage) → Left s (become_idle setup s).1
  become_idle-Left s = elim (Bool-cases s.recovery_required) [
    | inl e ↦ ground arith
    | inr e ↦ ground arith
  ]

  Left-trans : (s t u : Storage) → Left s t → Left t u → Left s u
  Left-trans s t u (home, recovery, rest) (home', recovery', rest') = (
    home' ∙ home,
    recovery' ∙ recovery,
    (λ r.
        let r' : t.recovery_required ≡ true = recovery ∙ r in
        ((rest' r').0 ∙ (rest r).0, (rest' r').1 ∙ (rest r).1)),
  )

  continue-Left :
      (s : Storage) (o : Outcome (Unit {0})) (f : Unit {0} → Step (Unit {0}))
      → Left s o.1
      → ((t : Storage) → Left t (f tt t).1)
      → Left s (continue o f).1
  continue-Left s (ok done, t) f l k = Left-trans s t (f tt t).1 l (k t)
  continue-Left s (err e, t) f l k = l

  pub finish-Left : (s : Storage) → Left s (finish setup s).1
  unfolding finish
  finish-Left s =
      continue-Left s (clear_stage setup s)
        (λ unstaged. clear_safety setup >>= λ cleared. become_idle setup) (clear_stage-Left s)
        (λ t.
          continue-Left t (clear_safety setup t) (λ cleared. become_idle setup)
            (clear_safety-Left t) become_idle-Left)

  -- How a restoration ends for the databases. `stopped` are the files once the App Server was told to
  -- stop.
  pub data Ending (start : Storage) (stopped : Files) (t : Storage) : Type 0 where
    unstopped : t.home ≡ start.home → Ending start stopped t
    held : Holds stopped t.home → Ending start stopped t
    parted :
        t.recovery_required ≡ true
        → t.operation ≡ restore
        → (safety : Files) → (rest : List Files) → t.abandoned ≡ safety ∷ rest
        → KeptIn stopped t.home safety
        → Ending start stopped t
    rolled_back :
        (files : Files)
        → Holds stopped files
        → setup.ready_second files ≡ (true, t.home)
        → Ending start stopped t
    installed :
        (restored : Restored) → IsInstalled setup start.root restored t → Ending start stopped t

  -- What holds before the variables of the operation end: no database is lost, or the backup is
  -- installed.
  abbrev Settled : Storage → Files → Storage → Type 0
  Settled start stopped t =
      Lossless setup stopped start.home t
      ⊎ ((restored : Restored) × IsInstalled setup start.root restored t)

  module _ (start : Storage) (stopped : Files) where
    finish-Lossless :
        (s t : Storage)
        → Left s t
        → Lossless setup stopped start.home s
        → Lossless setup stopped start.home t
    finish-Lossless s t (home, recovery, rest) (inl same) = inl (home ∙ same)
    finish-Lossless s t (home, recovery, rest) (inr (untouched holds)) =
        inr (untouched (subst (Holds stopped) (sym home) holds))
    finish-Lossless s t (home, recovery, rest) (inr (recovering (required, busy, kept))) = inr (
        recovering (
          recovery ∙ required,
          (rest required).1 ∙ busy,
          subst (λ h. KeptIn stopped h (files_of t.safety)) (sym home)
              (subst (λ f. KeptIn stopped s.home (files_of f)) (sym (rest required).0) kept),
        ))
    finish-Lossless s t (home, recovery, rest) (inr (restarted (files, holds, started))) =
        inr (restarted (files, holds, started ∙ ap (λ h. (true, h)) (sym home)))

    KeptIn-none : (home : Files) → KeptIn stopped home [] → Holds stopped home
    unfolding lookup
    KeptIn-none home kept key content named there = ground (arith, kept key content named there)

    finish-Settled : (s t : Storage) → Left s t → Settled start stopped s → Settled start stopped t
    finish-Settled s t left (inl kept) = inl (finish-Lossless s t left kept)
    finish-Settled s t left (inr (restored, is)) =
        inr (restored, IsInstalled-home setup start.root restored s t left.0 is)

    leave-Ending :
        (o : Outcome Restored) → Settled start stopped o.1 → Ending start stopped (leave setup o).1
    leave-Ending (r, t) (inl (inl same)) = unstopped same
    leave-Ending (r, t) (inl (inr (untouched holds))) = held holds
    leave-Ending (r, t) (inl (inr (recovering (required, busy, kept)))) =
        elim (Option-cases t.safety) [
          | inl e ↦
              held (KeptIn-none t.home (subst (λ f. KeptIn stopped t.home (files_of f)) e kept))
          | inr (safety, e) ↦
              parted required busy safety t.abandoned (ap (λ f. leave_safety setup f t.abandoned) e)
                (subst (λ f. KeptIn stopped t.home (files_of f)) e kept)
        ]
    leave-Ending (r, t) (inl (inr (restarted (files, holds, started)))) =
        rolled_back files holds started
    leave-Ending (r, t) (inr (restored, is)) = installed restored is

  Judge-both :
      {A : Type 0} (o : Outcome A) (Q Q' : A → Storage → Type 0) (R : Failure → Storage → Type 0)
      → Judge o Q Anything
      → Judge o Q' R
      → Judge o Q R
  Judge-both (ok a, t) Q Q' R h k = h
  Judge-both (err e, t) Q Q' R h k = k

  run_restore-Settled :
      (id : Text) (s : Storage)
      → ((files : Files) → setup.leftover files ≡ files)
      → Settled s (setup.close_first s.home).1 (run_restore setup id s).1
  unfolding run_restore
  run_restore-Settled id s whole =
      let stopped = (setup.close_first s.home).1 in
      let begun : Storage = record s {
        operation = restore;
        stage = none;
        safety = none;
        moved_current = false;
      } in
      let P : Storage → Type 0 = λ t. Settled s stopped t in
      try_finally-state (try_catch (body setup id) (recover setup)) (finish setup) begun P P
        (Judge-state (try_catch (body setup id) (recover setup) begun) P (
          caught-Judge (body setup id begun) (recover setup) (λ done t. P t) (λ e t. P t)
            (Judge-weaken (body setup id begun) _ _ _ _ (λ done t there. inr (done, there))
              (λ e t there.
                Judge-weaken (recover setup e t) _ _ _ _ (λ done u kept. inl kept)
                  (λ e' u kept. inl kept) (recover-Lossless setup stopped whole s.home e t there))
              (Judge-both (body setup id begun) _ _ _ (body-IsInstalled setup id begun)
                (body-Ensures setup stopped whole id begun refl refl)))))
        (λ t p. finish-Settled s stopped t (finish setup t).1 (finish-Left t) p)

  pub restore_backup-begins :
      (id : Text) (s : Storage)
      → setup.sqlite_home ≡ true
      → s.operation ≡ idle
      → restore_backup setup id s ≡ leave setup (run_restore setup id s)
  unfolding restore_backup
  restore_backup-begins id s configured free = simp (configured, free) refl

  -- Where a removal of a directory that fails removes nothing of it, a restoration that begins loses no
  -- database, whichever file operation fails and whatever the App Server does: the home is as it was
  -- at the start; or it has every database as it was when the App Server was told to stop; or the
  -- manager stays in its restoration with a recovery required, and each of them is at home or in the
  -- safety directory, which stays; or the App Server is ready after a rollback to files that have each of
  -- them; or it is ready on a home with the databases of a backup of the root, each with the size and
  -- the digest that the backup's manifest states.
  pub restore_backup-Ending :
      (id : Text) (s : Storage)
      → ((files : Files) → setup.leftover files ≡ files)
      → setup.sqlite_home ≡ true
      → s.operation ≡ idle
      → Ending s (setup.close_first s.home).1 (restore_backup setup id s).1
  unfolding restore_backup
  restore_backup-Ending id s whole configured free =
      subst (λ o. Ending s (setup.close_first s.home).1 o.1)
        (sym (restore_backup-begins id s configured free))
        (leave-Ending s (setup.close_first s.home).1 (run_restore setup id s)
          (run_restore-Settled id s whole))
