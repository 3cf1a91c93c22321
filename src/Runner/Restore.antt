-- ===== src/Runner/Restore.antt =====
-- `SqliteStorageManager.restore` of codex-runner/src/sqlite-storage.ts: a backup takes the place of the
-- databases, which stand aside in the safety directory until the App Server is ready.
pub mod Preparation
pub mod Moves
pub mod SetAside
pub mod Rollback
pub mod Safety
pub mod NoLoss
pub mod Outcomes
pub mod Copies
pub mod Reads
pub mod Sources
pub mod Installed
pub mod Installs
use artifact_dev_toolkit.Common.{
  ℕ, Bool, true, false, not, ◌&&◌, ◌==◌, Option, none, some, List, [], ◌∷◌, length, filter,
  if◌then◌else◌, is_some, Result, ok, err,
}
use artifact_dev_toolkit.Common.Text.{Text, codes, text_eq, is_truthy}
use artifact_dev_toolkit.Common.Json.{Json}
use artifact_dev_toolkit.Runner.Files.{Files, lookup, put, names, is_database_file}
use artifact_dev_toolkit.Runner.Metadata.{Database, BackupMetadata}
use artifact_dev_toolkit.Runner.Storage.{
  Setup, Storage, Step, Outcome, Failure, safe, other, Code, sqlite_home_not_configured,
  runner_busy, backup_not_found, invalid_backup_set, app_server_shutdown_unconfirmed,
  restore_failed_rolled_back, restore_rollback_failed, Activity, idle, restore, ◌>>=◌, return,
  throw, try_catch, try_finally, branch, catching, gets, from, check, files_of, modify, operate,
  move_out, move_back, promote, copy_back, remove_home, read_home, read_safety, make_stage,
  make_safety, remove_safety, remove_stage,
}
use artifact_dev_toolkit.Runner.Backups.{safe_backup_directory, parse, read_raw, has_schema, list}

abbrev pub is_idle : Activity → Bool
is_idle idle = true
is_idle _ = false

-- What `restore` gives: the backup that was restored, without a rollback.
pub record Restored : Type 0 where
  pub backup_id : Text
  pub rollback_occurred : Bool

abbrev pub recovery_marker : Text
recovery_marker = codes ".adt-recovery-required"

abbrev pub put_marker : Files → Files
put_marker safety = put recovery_marker (codes "restore rollback incomplete\n") safety

unfoldable pub write_marker : Step (Unit {0})
write_marker =
    operate >>= λ done. modify (λ s. record s { safety = some (put_marker (files_of s.safety)) })

-- Nothing but a recovery by hand follows: the manager stays in its restoration.
unfoldable pub require_recovery : {A : Type 0} → Step A
require_recovery =
    modify (λ s. record s { recovery_required = true; operation = restore }) >>= λ done.
    catching tt write_marker >>= λ written. throw (safe restore_rollback_failed 503)

abbrev pub forget_safety : Step (Unit {0})
forget_safety = modify (λ s. record s { safety = none })

unfoldable pub move_all_back : List Text → Step (Unit {0})
move_all_back [] = return tt
move_all_back (name ∷ moved) = let others = move_all_back moved in move_back name >>= λ done. others

unfoldable pub promote_all : List Database → Step (Unit {0})
promote_all [] = return tt
promote_all (database ∷ databases) =
    let others = promote_all databases in promote database.filename >>= λ done. others

-- The files of databases among these names are removed from the home.
unfoldable pub remove_all : List Text → Step (Unit {0})
remove_all [] = return tt
remove_all (name ∷ rest) =
    let others = remove_all rest in
    (if is_database_file name then remove_home name else return tt) >>= λ done. others

unfoldable pub copy_all_back : List Text → Step (Unit {0})
copy_all_back [] = return tt
copy_all_back (name ∷ rest) = let others = copy_all_back rest in copy_back name >>= λ done. others

-- A hook of the App Server, which changes its files beside its answer.
abbrev pub call : (Files → Bool × Files) → Failure → Step (Unit {0})
call hook e s =
    let (answer, home) = hook s.home in (if answer then ok tt else err e, record s { home = home })

module _ (setup : Setup) where
  -- The files that were moved come back, the last one first.
  unfoldable pub undo_moves : List Text → Step (Unit {0})
  undo_moves moved =
      move_all_back moved >>= λ back. remove_safety setup >>= λ removed. forget_safety

  unfoldable pub move_failed : {A : Type 0} → List Text → Step A
  move_failed moved = try_catch (undo_moves moved) (λ e. require_recovery) >>= λ undone.
      throw (safe restore_failed_rolled_back 503)

  -- The files with these names move to the safety directory; `moved` are those that did, the last one
  -- first.
  unfoldable pub move_current : List Text → List Text → Step (Unit {0})
  move_current moved [] = return tt
  move_current moved (name ∷ rest) =
      let others = move_current (name ∷ moved) rest in
      λ s. branch (move_out name s) (λ e. move_failed moved) (λ done. others)

  abbrev pub first_id : List BackupMetadata → Option Text
  first_id [] = none
  first_id (latest ∷ others) = some latest.backup_id

  -- `id === "latest" ? (await this.list())[0]?.backupId : id`
  unfoldable pub select : Text → Step Text
  select id =
      (if text_eq id (codes "latest")
        then (list setup >>= λ backups. return (first_id backups))
        else return (some id))
      >>= λ selected. from selected (safe backup_not_found 404) >>= λ chosen.
          check (is_truthy chosen) (safe backup_not_found 404) >>= λ given. return chosen

  unfoldable pub read_manifest : Text → Files → Step BackupMetadata
  read_manifest id files = read_raw setup files >>= λ raw.
      check (has_schema setup raw) (safe invalid_backup_set 409) >>= λ known. parse setup raw id

  unfoldable pub verify_database : Files → Database → Step (Unit {0})
  verify_database files database = operate >>= λ read.
      from (lookup database.filename files) other >>= λ content.
      check (text_eq (setup.checksum content) database.sha256) (safe invalid_backup_set 409)
      >>= λ same.
          operate >>= λ found. check (length content == database.size) (safe invalid_backup_set 409)

  unfoldable pub verify_all : Files → List Database → Step (Unit {0})
  verify_all files [] = return tt
  verify_all files (database ∷ databases) =
      let others = verify_all files databases in verify_database files database >>= λ done. others

  -- `copyFile` from the backup to the staging directory with COPYFILE_EXCL
  unfoldable pub stage_database : Files → Database → Step (Unit {0})
  stage_database files database = operate >>= λ done.
      from (lookup database.filename files) other >>= λ content.
      gets (λ s. is_some (lookup database.filename (files_of s.stage))) >>= λ there.
      check (not there) other >>= λ free.
      modify (λ s. record s { stage = some (put database.filename content (files_of s.stage)) })

  unfoldable pub stage_all : Files → List Database → Step (Unit {0})
  stage_all files [] = return tt
  stage_all files (database ∷ databases) =
      let others = stage_all files databases in stage_database files database >>= λ done. others

  -- Everything up to the copies in the staging directory.
  unfoldable pub prepare : Text → Step (Text × BackupMetadata)
  prepare id = select id >>= λ selected. safe_backup_directory selected >>= λ files.
      read_manifest selected files >>= λ manifest.
      verify_all files manifest.databases >>= λ verified. make_stage >>= λ made.
      stage_all files manifest.databases >>= λ staged. return (selected, manifest)

  -- From the stop of the App Server until the databases stand in the safety directory.
  unfoldable pub set_aside : Step (Unit {0})
  set_aside = call setup.close_first (safe app_server_shutdown_unconfirmed 503) >>= λ closed.
      make_safety >>= λ made. read_home >>= λ found.
      move_current [] (filter is_database_file found) >>= λ moved.
      modify (λ s. record s { moved_current = true })

  unfoldable pub install : Text → BackupMetadata → Step Restored
  install selected manifest = promote_all manifest.databases >>= λ promoted.
      call setup.ready_first other >>= λ ready. remove_safety setup >>= λ removed.
      forget_safety >>= λ done. return (record { backup_id = selected; rollback_occurred = false })

  unfoldable pub body : Text → Step Restored
  body id = prepare id >>= λ (selected, manifest). set_aside >>= λ aside. install selected manifest

  -- What the safety directory holds comes back in place of what stands in the home.
  unfoldable pub put_back : Step (Unit {0})
  put_back = catching [] read_home >>= λ found. remove_all found >>= λ cleared.
      read_safety >>= λ kept. copy_all_back kept >>= λ copied.
      call setup.ready_second other >>= λ ready. remove_safety setup >>= λ removed. forget_safety

  unfoldable pub roll_back : Step Restored
  roll_back = try_catch (call setup.close_second other) (λ e. require_recovery) >>= λ closed.
      try_catch put_back (λ e. require_recovery) >>= λ back.
      throw (safe restore_failed_rolled_back 503)

  unfoldable pub recover : Failure → Step Restored
  recover e s = if s.moved_current && is_some s.safety then roll_back s else (err e, s)

  abbrev pub clear_stage : Step (Unit {0})
  clear_stage s = if is_some s.stage then remove_stage setup s else (ok tt, s)

  abbrev pub clear_safety : Step (Unit {0})
  clear_safety s =
      if not s.recovery_required && is_some s.safety then remove_safety setup s else (ok tt, s)

  abbrev pub become_idle : Step (Unit {0})
  become_idle = modify (λ s. if s.recovery_required then s else record s { operation = idle })

  -- The `finally` of the operation: a removal that fails ends it before it is idle.
  unfoldable pub finish : Step (Unit {0})
  finish = clear_stage >>= λ unstaged. clear_safety >>= λ cleared. become_idle

  abbrev pub leave_safety : Option Files → List Files → List Files
  leave_safety none abandoned = abandoned
  leave_safety (some files) abandoned = files ∷ abandoned

  -- The operation's variables end with it; a safety directory that is left stays on the disk.
  abbrev pub leave : {A : Type 0} → Outcome A → Outcome A
  leave (result, s) = (
    result,
    record s {
      stage = none;
      safety = none;
      moved_current = false;
      abandoned = leave_safety s.safety s.abandoned;
    },
  )

  unfoldable pub run_restore : Text → Step Restored
  run_restore id s =
      try_finally (try_catch (body id) recover) finish
        (record s { operation = restore; stage = none; safety = none; moved_current = false })

  unfoldable pub restore_backup : Text → Step Restored
  restore_backup id s =
      if not setup.sqlite_home
      then (err (safe sqlite_home_not_configured 409), s)
      else if not (is_idle s.operation)
      then (err (safe runner_busy 409), s)
      else leave (run_restore id s)
