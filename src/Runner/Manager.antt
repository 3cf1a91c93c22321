-- ===== src/Runner/Manager.antt =====
-- `SqliteStorageManager` of codex-runner/src/sqlite-storage.ts beside its backups and restorations: the
-- copy of a previous deployment's databases, the start of the manager, and its status.
pub mod Start
use artifact_dev_toolkit.Common.{
  ℕ, Bool, true, false, not, ◌&&◌, ◌||◌, Option, none, some, List, [], ◌∷◌, ◌++◌, length, any, leb,
  if◌then◌else◌, is_some, Result, ok, err,
}
use artifact_dev_toolkit.Common.Text.{Text, codes, text_eq}
use artifact_dev_toolkit.Runner.Files.{Files, lookup, put}
use artifact_dev_toolkit.Runner.Metadata.{BackupMetadata, max_databases}
use artifact_dev_toolkit.Runner.Mounts.{
  FilesystemClass, local, network, unknown, parse_mount_info, classify_filesystem,
}
use artifact_dev_toolkit.Runner.Storage.{
  Setup, Storage, Step, Outcome, Failure, other, StorageFailure, Activity, restore, ◌>>=◌, return,
  throw, gets, modify, branch, catching, try_finally, from, check, operate, files_of, promote,
  remove_home, make_stage, remove_stage,
}
use artifact_dev_toolkit.Runner.Backups.{databases, list}
use artifact_dev_toolkit.Runner.Restore.{recovery_marker}

abbrev pub bootstrap_marker : Text
bootstrap_marker = codes ".adt-bootstrap-v1"

abbrev pub complete_text : Text
complete_text = codes "legacy-copy-complete\n"

abbrev pub empty_text : Text
empty_text = codes "empty\n"

-- `usable(source, constants.R_OK)` of a file among these
unfoldable pub usable : Files → Text → Step Bool
usable files name = catching false (operate >>= λ done. return (is_some (lookup name files)))

abbrev pub put_stage : Text → Text → Step (Unit {0})
put_stage name content =
    modify (λ s. record s { stage = some (put name content (files_of s.stage)) })

-- `copyFile` of a legacy file to the staging directory with COPYFILE_EXCL
unfoldable pub copy_legacy : Files → Text → Step (List Text)
copy_legacy legacy name = usable legacy name >>= λ readable.
    if readable
    then (operate >>= λ done. from (lookup name legacy) other >>= λ content.
        gets (λ s. is_some (lookup name (files_of s.stage))) >>= λ there.
        check (not there) other >>= λ free. put_stage name content >>= λ copied. return (name ∷ []))
    else return []

-- A database with the files beside it.
unfoldable pub copy_with_suffixes : Files → Text → Step (List Text)
copy_with_suffixes legacy name = copy_legacy legacy name >>= λ main.
    copy_legacy legacy (name ++ codes "-wal") >>= λ wal.
    copy_legacy legacy (name ++ codes "-shm") >>= λ shm. return (main ++ (wal ++ shm))

-- The names that were staged, in their order.
unfoldable pub copy_all : Files → List Text → Step (List Text)
copy_all legacy [] = return []
copy_all legacy (name ∷ names) =
    let others = copy_all legacy names in
    copy_with_suffixes legacy name >>= λ staged. others >>= λ rest. return (staged ++ rest)

-- What was promoted is removed again; a removal that fails is passed over.
unfoldable pub undo_promotion : List Text → Step (Unit {0})
undo_promotion [] = throw other
undo_promotion (name ∷ promoted) =
    let others = undo_promotion promoted in catching tt (remove_home name) >>= λ done. others

unfoldable pub write_bootstrap_marker : Step (Unit {0})
write_bootstrap_marker = operate >>= λ done.
    gets (λ s. is_some (lookup bootstrap_marker (files_of s.stage))) >>= λ there.
    check (not there) other >>= λ free.
    put_stage bootstrap_marker complete_text >>= λ written. promote bootstrap_marker

-- `promoted` are the names that stand in the home already, the last one first.
unfoldable pub promote_staged : List Text → List Text → Step (Unit {0})
promote_staged promoted [] =
    λ s. branch (write_bootstrap_marker s) (λ e. undo_promotion promoted) (λ done. return tt)
promote_staged promoted (name ∷ names) =
    let others = promote_staged (name ∷ promoted) names in
    λ s. branch (promote name s) (λ e. undo_promotion promoted) (λ done. others)

unfoldable pub copy_legacy_databases : Files → List Text → Step (Unit {0})
copy_legacy_databases legacy names s =
    branch (copy_all legacy names s) (λ e. undo_promotion []) (λ staged. promote_staged [] staged)

unfoldable pub is_marked : Step Bool
is_marked = catching false (
    operate >>= λ done. gets (λ s. lookup bootstrap_marker s.home) >>= λ found.
    from found other >>= λ content.
    return (text_eq content complete_text || text_eq content empty_text))

unfoldable pub write_empty_marker : Step (Unit {0})
write_empty_marker = operate >>= λ done.
    gets (λ s. is_some (lookup bootstrap_marker s.home)) >>= λ there.
    check (not there) other >>= λ free.
    modify (λ s. record s { home = put bootstrap_marker empty_text s.home })

pub data Warning : Type 0 where
  network_filesystem_unsupported_for_sqlite : Warning
  sqlite_home_not_separated : Warning
  restore_recovery_required : Warning

-- What the status shows, but for the access that the file system grants to the directories.
pub record SqliteStorageStatus : Type 0 where
  pub separate_sqlite_home_configured : Bool
  pub sqlite_filesystem_class : FilesystemClass
  pub codex_home_filesystem_class : FilesystemClass
  pub last_successful_backup_at : Option Text
  pub latest_backup_id : Option Text
  pub last_backup_failure_category : Option StorageFailure
  pub retained_backup_count : ℕ
  pub retention : ℕ
  pub operation : Activity
  pub warning : Option Warning

abbrev pub is_network_class : FilesystemClass → Bool
is_network_class network = true
is_network_class _ = false

abbrev pub first_backup : {A : Type 0} → (BackupMetadata → A) → List BackupMetadata → Option A
first_backup f [] = none
first_backup f (latest ∷ others) = some (f latest)

module _ (setup : Setup) where
  unfoldable pub copy_staged : Files → List Text → Step (Unit {0})
  copy_staged legacy names =
      make_stage >>= λ made. try_finally (copy_legacy_databases legacy names) (remove_stage setup)

  abbrev pub is_empty : List Text → Bool
  is_empty [] = true
  is_empty (name ∷ names) = false

  unfoldable pub bootstrap_unmarked : Files → Step (Unit {0})
  bootstrap_unmarked legacy = databases legacy >>= λ names.
      check (leb (length names) max_databases) other >>= λ few.
      if is_empty names then write_empty_marker else copy_staged legacy names

  -- `legacy` are the files of the previous deployment's directory.
  unfoldable pub bootstrap_legacy_sqlite : Files → Step (Unit {0})
  bootstrap_legacy_sqlite legacy =
      if not setup.sqlite_home
      then return tt
      else (operate >>= λ made. gets (λ s. s.home) >>= λ home. databases home >>= λ existing.
          if not (is_empty existing)
          then return tt
          else (is_marked >>= λ marked. if marked then return tt else bootstrap_unmarked legacy))

  -- Whether a pre-restore directory asks for a recovery.
  unfoldable pub needs_recovery : List Files → Step Bool
  needs_recovery [] = return false
  needs_recovery (files ∷ rest) =
      let others = needs_recovery rest in
      usable files recovery_marker >>= λ marked. if marked then return true else others

  unfoldable pub refuse_start : Step (Unit {0})
  refuse_start = modify (λ s. record s { recovery_required = true; operation = restore }) >>= λ set.
      throw other

  -- `mountinfo` is the table of mounts, empty where it cannot be read, and `path` the home's path.
  unfoldable pub start_locally : Text → Text → Files → Step (Unit {0})
  start_locally mountinfo path legacy =
      catching [] (operate >>= λ done. return mountinfo) >>= λ text.
      check (not (is_network_class (classify_filesystem path (parse_mount_info text)))) other
      >>= λ supported. bootstrap_legacy_sqlite legacy

  unfoldable pub initialize : Text → Text → Files → Step (Unit {0})
  initialize mountinfo path legacy =
      if not setup.sqlite_home
      then return tt
      else (operate >>= λ made. operate >>= λ read. gets (λ s. s.abandoned) >>= λ directories.
          needs_recovery directories >>= λ needed.
          if needed then refuse_start else start_locally mountinfo path legacy)

  abbrev pub warning_of : Bool → FilesystemClass → Option Warning
  warning_of recovery sqlite_class =
      if recovery
      then some restore_recovery_required
      else if is_network_class sqlite_class
      then some network_filesystem_unsupported_for_sqlite
      else if not setup.sqlite_home
      then some sqlite_home_not_separated
      else none

  -- `sqlite_path` is the home's path, or that of the Codex directory where no home is configured.
  unfoldable pub status : Text → Text → Text → Step SqliteStorageStatus
  status mountinfo sqlite_path codex_path =
      catching [] (operate >>= λ done. return mountinfo) >>= λ text.
      catching [] (list setup) >>= λ backups. gets (λ s.
        let mounts = parse_mount_info text in
        let sqlite_class = classify_filesystem sqlite_path mounts in
        record {
          separate_sqlite_home_configured = setup.sqlite_home;
          sqlite_filesystem_class = sqlite_class;
          codex_home_filesystem_class = classify_filesystem codex_path mounts;
          last_successful_backup_at = first_backup (λ b. b.created_at) backups;
          latest_backup_id = first_backup (λ b. b.backup_id) backups;
          last_backup_failure_category = s.last_failure;
          retained_backup_count = length backups;
          retention = setup.retention;
          operation = s.operation;
          warning = warning_of s.recovery_required sqlite_class;
        })
