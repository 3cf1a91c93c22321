-- ===== src/Runner/Manager/Start.antt =====
-- `initialize` of codex-runner/src/sqlite-storage.ts beside an unfinished restoration.
use artifact_dev_toolkit.Common.{
  ◌≡◌, refl, Bool, true, List, [], ◌∷◌, any, arith, is_some, Bool-cases, inl, inr, ok, err,
}
use artifact_dev_toolkit.Common.Text.{Text}
use artifact_dev_toolkit.Runner.Files.{Files, lookup}
use artifact_dev_toolkit.Runner.Storage.{Setup, Storage, safe, other, runner_busy, restore, operate}
use artifact_dev_toolkit.Runner.Backups.Creation.{create_backup}
use artifact_dev_toolkit.Runner.Restore.{restore_backup, recovery_marker}
use artifact_dev_toolkit.Runner.Manager.{usable, needs_recovery, refuse_start, initialize}

abbrev pub is_marked_for_recovery : Files → Bool
is_marked_for_recovery files = is_some (lookup recovery_marker files)

-- The state where no file operation fails.
abbrev pub settled : Storage → Storage
settled s = record s { outages = [] }

abbrev pub refused : Storage → Storage
refused s = record (settled s) { recovery_required = true; operation = restore }

module _ (setup : Setup) where
  needs_recovery-marked :
      (directories : List Files) (s : Storage)
      → any is_marked_for_recovery directories ≡ true
      → needs_recovery setup directories (settled s) ≡ (ok true, settled s)
  unfolding needs_recovery usable operate
  needs_recovery-marked [] s marked = absurd (ground arith)
  needs_recovery-marked (files ∷ rest) s marked = elim (Bool-cases (is_marked_for_recovery files)) [
    | inl e ↦ rw (e, needs_recovery, usable) refl
    | inr e ↦ rw (e, needs_recovery, usable) (needs_recovery-marked rest s (ground arith))
  ]

  initialize-marked :
      (mountinfo path : Text) (legacy : Files) (s : Storage)
      → setup.sqlite_home ≡ true
      → any is_marked_for_recovery s.abandoned ≡ true
      → initialize setup mountinfo path legacy (settled s) ≡ (err other, refused s)
  unfolding initialize operate refuse_start
  initialize-marked mountinfo path legacy s configured marked =
      simp (configured, needs_recovery-marked s.abandoned s marked) refl

  -- Where no file operation fails, a start that finds a pre-restore directory with the marker of a
  -- recovery throws and leaves the databases, the backups and that directory as they are. From the state
  -- that it leaves, every restoration and every backup is refused as busy, and changes nothing.
  pub initialize-closed :
      (mountinfo path : Text) (legacy : Files) (s : Storage) (id : Text)
      → setup.sqlite_home ≡ true
      → any is_marked_for_recovery s.abandoned ≡ true
      → (initialize setup mountinfo path legacy (settled s) ≡ (err other, refused s))
        × (restore_backup setup id (refused s) ≡ (err (safe runner_busy 409), refused s))
        × (create_backup setup (refused s) ≡ (err (safe runner_busy 409), refused s))
  unfolding restore_backup create_backup
  initialize-closed mountinfo path legacy s id configured marked = (
    initialize-marked mountinfo path legacy s configured marked,
    simp (configured) refl,
    simp (configured) refl,
  )
