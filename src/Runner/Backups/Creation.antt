-- ===== src/Runner/Backups/Creation.antt =====
-- `SqliteStorageManager.createBackup` and `prune` of codex-runner/src/sqlite-storage.ts. `stage` is the
-- local staging directory here. A new directory is the last
-- of the backup root, whose staging directories are not among its entries here.
use artifact_dev_toolkit.Common.{
  ℕ, ◌+◌, Bool, true, false, not, ◌&&◌, none, some, List, [], ◌∷◌, ◌++◌, length, filter, drop, leb,
  ◌==◌, if◌then◌else◌, is_some, ok, err,
}
use artifact_dev_toolkit.Common.Text.{Text, codes, text_eq}
use artifact_dev_toolkit.Runner.Files.{Files, lookup, put, is_digit}
use artifact_dev_toolkit.Runner.Metadata.{
  Database, BackupMetadata, max_databases, max_database_size, manifest_json,
}
use artifact_dev_toolkit.Runner.Storage.{
  Setup, Step, Outcome, Failure, safe, failed, other, StorageFailure, no_sqlite_databases,
  sqlite_backup_failed, backup_verification_failed, sqlite_backup_insufficient_space,
  sqlite_home_not_configured, runner_busy, backup_failed, insufficient_space, Activity, idle,
  backup, Entry, directory, ◌>>=◌, return, throw, gets, modify, branch, try_catch, try_finally,
  from, check, operate, files_of, make_stage, remove_stage,
}
use artifact_dev_toolkit.Runner.Backups.{
  databases, find_entry, safe_backup_directory, parse, manifest_name, list,
}

-- `/\.\d{3}/` at the start
unfoldable pub is_millis : Text → Bool
is_millis (a ∷ b ∷ c ∷ d ∷ s) = a == b'.' && is_digit b && is_digit c && is_digit d
is_millis s = false

-- `text.replace(/\.\d{3}/, "")`
unfoldable pub drop_millis : Text → Text
drop_millis [] = []
drop_millis (c ∷ s) = let rest = drop_millis s in if is_millis (c ∷ s) then drop 3 s else c ∷ rest

-- `b-${createdAt.replace(/[-:]/g, "").replace(/\.\d{3}/, "")}-${random}`
unfoldable pub backup_id_of : Text → Text → Text
backup_id_of created_at random =
    codes "b-"
    ++ (drop_millis (filter (λ c. not (c == b'-') && not (c == b':')) created_at)
        ++ (codes "-" ++ random))

-- The sizes of these files of the home, summed.
unfoldable pub required_bytes : List Text → Step ℕ
required_bytes [] = return 0
required_bytes (name ∷ names) =
    let others = required_bytes names in
    operate >>= λ done. gets (λ s. lookup name s.home) >>= λ found.
    from found other >>= λ content. others >>= λ size. return (length content + size)

abbrev pub put_local : Text → Text → Step (Unit {0})
put_local name content =
    modify (λ s. record s { stage = some (put name content (files_of s.stage)) })

abbrev pub put_durable : Text → Text → Step (Unit {0})
put_durable name content =
    modify (λ s. record s { durable_stage = some (put name content (files_of s.durable_stage)) })

-- The category of the failure, as the status shows it.
abbrev pub category : Failure → StorageFailure
category (failed failure) = failure
category _ = sqlite_backup_failed

abbrev pub backup_error : StorageFailure → Failure
backup_error sqlite_backup_insufficient_space = safe insufficient_space 503
backup_error _ = safe backup_failed 503

abbrev pub is_free : Activity → Bool
is_free idle = true
is_free _ = false

unfoldable pub make_durable : Step (Unit {0})
make_durable = operate >>= λ done. modify (λ s. record s { durable_stage = some [] })

module _ (setup : Setup) where
  -- `sqlite3 home/name ".backup local/name"`
  unfoldable pub dump_all : List Text → Step (Unit {0})
  dump_all [] = return tt
  dump_all (name ∷ names) =
      let others = dump_all names in
      gets (λ s. setup.sqlite_backup s.home name) >>= λ copy.
      from copy (failed sqlite_backup_failed) >>= λ content.
      put_local name content >>= λ done. others

  unfoldable pub record_of : Text → Step Database
  record_of name = operate >>= λ found. gets (λ s. lookup name (files_of s.stage)) >>= λ copy.
      from copy other >>= λ content.
      check (leb (length content) max_database_size) (failed sqlite_backup_failed) >>= λ small.
      operate >>= λ read.
      return (record { filename = name; size = length content; sha256 = setup.checksum content })

  unfoldable pub records_of : List Text → Step (List Database)
  records_of [] = return []
  records_of (name ∷ names) =
      let others = records_of names in
      record_of name >>= λ first. others >>= λ rest. return (first ∷ rest)

  -- A copy to the backup root, which is read again.
  unfoldable pub store : Database → Step (Unit {0})
  store database = operate >>= λ copied.
      gets (λ s. lookup database.filename (files_of s.stage)) >>= λ copy.
      from copy other >>= λ content.
      gets (λ s. is_some (lookup database.filename (files_of s.durable_stage))) >>= λ there.
      check (not there) other >>= λ free.
      put_durable database.filename (setup.transfer content) >>= λ done. operate >>= λ read.
      gets (λ s. lookup database.filename (files_of s.durable_stage)) >>= λ stored.
      from stored other >>= λ arrived.
      check (text_eq (setup.checksum arrived) database.sha256) (failed backup_verification_failed)

  unfoldable pub store_all : List Database → Step (Unit {0})
  store_all [] = return tt
  store_all (database ∷ databases) =
      let others = store_all databases in store database >>= λ done. others

  unfoldable pub write_manifest : BackupMetadata → Step (Unit {0})
  write_manifest manifest = operate >>= λ done.
      gets (λ s. is_some (lookup manifest_name (files_of s.durable_stage))) >>= λ there.
      check (not there) other >>= λ free.
      put_durable manifest_name (setup.render_json (manifest_json manifest) ++ codes "\n")

  -- `rename` of the durable staging directory to the backup's own name
  unfoldable pub publish : Text → Step (Unit {0})
  publish id = operate >>= λ done. gets (λ s. is_some (find_entry id s.root)) >>= λ there.
      check (not there) other >>= λ free. modify (λ s. record s {
        root = s.root ++ ((id, directory (files_of s.durable_stage)) ∷ []);
        durable_stage = none;
      })

  abbrev pub without : Text → List (Text × Entry) → List (Text × Entry)
  without id root = filter (λ entry. not (text_eq entry.0 id)) root

  abbrev pub replaced : Text → Files → List (Text × Entry) → List (Text × Entry)
  replaced id files [] = []
  replaced id files ((name, entry) ∷ root) =
      (if text_eq name id then (name, directory files) else (name, entry)) ∷ replaced id files root

  unfoldable pub remove_backup : BackupMetadata → Step (Unit {0})
  remove_backup old = safe_backup_directory old.backup_id >>= λ files s.
      branch (operate s)
        (λ e.
          modify (λ t. record t { root = replaced old.backup_id (setup.leftover files) t.root })
          >>= λ left. throw e)
        (λ removed. modify (λ t. record t { root = without old.backup_id t.root }))

  unfoldable pub remove_backups : List BackupMetadata → Step (Unit {0})
  remove_backups [] = return tt
  remove_backups (old ∷ olds) =
      let others = remove_backups olds in remove_backup old >>= λ done. others

  unfoldable pub prune : Step (Unit {0})
  prune = list setup >>= λ backups. remove_backups (drop setup.retention backups)

  unfoldable pub remove_durable : Step (Unit {0})
  remove_durable = operate >>= λ done. modify (λ s. record s { durable_stage = none })

  -- Up to the copies in the local staging directory and their digests.
  unfoldable pub copy_databases : Step BackupMetadata
  copy_databases = gets (λ s. s.home) >>= λ home. databases home >>= λ names.
      check (leb 1 (length names) && leb (length names) max_databases) (failed no_sqlite_databases)
      >>= λ counted. required_bytes names >>= λ required. operate >>= λ known.
          check (leb required setup.available) (failed sqlite_backup_insufficient_space) >>= λ room.
          make_stage >>= λ made. dump_all names >>= λ dumped. records_of names >>= λ records.
          return (record {
            backup_id = backup_id_of setup.now setup.random;
            created_at = setup.now;
            runner_version = setup.runner_version;
            codex_version = setup.codex_version;
            databases = records;
          })

  unfoldable pub publish_set : BackupMetadata → Step (Unit {0})
  publish_set manifest = operate >>= λ root. make_durable >>= λ made.
      store_all manifest.databases >>= λ stored.
      write_manifest manifest >>= λ written. publish manifest.backup_id

  unfoldable pub publish_backup : BackupMetadata → Step BackupMetadata
  publish_backup manifest = publish_set manifest >>= λ published.
      modify (λ s. record s { last_failure = none }) >>= λ cleared.
      prune >>= λ pruned. parse setup (manifest_json manifest) manifest.backup_id

  unfoldable pub backup_body : Step BackupMetadata
  backup_body = copy_databases >>= λ manifest. publish_backup manifest

  unfoldable pub backup_failed_with : Failure → Step BackupMetadata
  backup_failed_with e = modify (λ s. record s { last_failure = some (category e) }) >>= λ noted.
      throw (backup_error (category e))

  -- The `finally` of a backup: a removal that fails ends it before it is idle.
  unfoldable pub backup_finish : Step (Unit {0})
  backup_finish = (λ s. if is_some s.stage then remove_stage setup s else (ok tt, s)) >>= λ local.
      (λ s. if is_some s.durable_stage then remove_durable s else (ok tt, s)) >>= λ durable.
      modify (λ s. record s { operation = idle })

  -- The operation's variables end with it.
  abbrev pub forget : {A : Type 0} → Outcome A → Outcome A
  forget (result, s) = (result, record s { stage = none; durable_stage = none })

  unfoldable pub run_backup : Step BackupMetadata
  run_backup s =
      try_finally (try_catch backup_body backup_failed_with) backup_finish
        (record s { operation = backup; stage = none; durable_stage = none })

  unfoldable pub create_backup : Step BackupMetadata
  create_backup s =
      if not setup.sqlite_home
      then (err (safe sqlite_home_not_configured 409), s)
      else if not (is_free s.operation)
      then (err (safe runner_busy 409), s)
      else forget (run_backup s)
