-- ===== src/Runner/Backups.antt =====
-- The backups that `SqliteStorageManager` of codex-runner/src/sqlite-storage.ts finds: `databases`,
-- `safeBackupDirectory` and `list`. A directory of the backup root is no link and is resolved under
-- the root, so the comparison of its parent with the root has nothing to find here.
pub mod Reading
pub mod Creation
pub mod Publication
use artifact_dev_toolkit.Common.{
  ℕ, suc, zero, Bool, true, false, not, Option, none, some, List, [], ◌∷◌, length, filter, ◌==◌,
  if◌then◌else◌, is_some, Result, ok, err,
}
use artifact_dev_toolkit.Common.Text.{Text, codes, text_eq}
use artifact_dev_toolkit.Common.Json.{Json, null, num, property, as_num}
use artifact_dev_toolkit.Common.Sorting.{sort_by}
use artifact_dev_toolkit.Auth.Configuration.{sort_names}
use artifact_dev_toolkit.Runner.Files.{Files, lookup, names, is_backup_id, is_database_filename}
use artifact_dev_toolkit.Runner.Metadata.{BackupMetadata, max_databases, parse_backup_metadata}
use artifact_dev_toolkit.Runner.Storage.{
  Setup, Storage, Step, Outcome, Failure, safe, failed, other, Code, invalid_backup_id,
  backup_not_found, invalid_backup_set, Entry, directory, no_directory, ◌>>=◌, return, throw, from,
  check, operate, catching, gets,
}

abbrev pub take : {A : Type 0} → ℕ → List A → List A
take zero xs = []
take (suc n) [] = []
take (suc n) (x ∷ xs) = x ∷ take n xs

abbrev pub database_names : Files → List Text
database_names files =
    take (suc max_databases) (sort_names (filter is_database_filename (names files)))

-- The names of the databases, none where the directory cannot be read.
unfoldable pub databases : Files → Step (List Text)
databases files = catching [] (operate >>= λ done. return (database_names files))

unfoldable pub find_entry : Text → List (Text × Entry) → Option Entry
find_entry name [] = none
find_entry name ((other_name, entry) ∷ root) =
    let rest = find_entry name root in if text_eq other_name name then some entry else rest

abbrev pub directory_of : Option Entry → Option Files
directory_of (some (directory files)) = some files
directory_of _ = none

-- `lstat(candidate).catch(() => undefined)`, of a directory
unfoldable pub read_directory : Text → Step (Option Files)
read_directory id =
    catching none (operate >>= λ done. gets (λ s. directory_of (find_entry id s.root)))

-- What the backup directory of this id holds.
unfoldable pub safe_backup_directory : Text → Step Files
safe_backup_directory id = check (is_backup_id id) (safe invalid_backup_id 400) >>= λ valid.
    operate >>= λ root. read_directory id >>= λ entry.
    from entry (safe backup_not_found 404) >>= λ files. operate >>= λ resolved. return files

abbrev pub is_schema : Option ℕ → Bool
is_schema none = false
is_schema (some version) = version == 1

abbrev pub is_null : Json → Bool
is_null null = true
is_null _ = false

abbrev pub manifest_name : Text
manifest_name = codes "manifest.json"

module _ (setup : Setup) where
  -- `parseBackupMetadata(raw, id)`
  unfoldable pub parse : Json → Text → Step BackupMetadata
  parse raw id s = (
    elim (parse_backup_metadata setup.to_text setup.is_time raw (some id)) [
      | err e ↦ err other
      | ok metadata ↦ ok metadata
    ],
    s,
  )

  -- The JSON of the manifest, where it can be read and is not null.
  unfoldable pub read_raw : Files → Step Json
  read_raw files = operate >>= λ done. from (lookup manifest_name files) other >>= λ content.
      from (setup.parse_json content) other >>= λ raw.
      check (not (is_null raw)) other >>= λ present. return raw

  unfoldable pub has_schema : Json → Bool
  has_schema raw = is_schema (as_num (property (codes "schemaVersion") raw))

  -- One entry of the backup root, where it is a complete backup.
  unfoldable pub read_backup : Text → Step (Option BackupMetadata)
  read_backup id = catching none (
      safe_backup_directory id >>= λ files. read_raw files >>= λ raw.
      if has_schema raw then (parse raw id >>= λ metadata. return (some metadata)) else return none)

  abbrev pub append_found : Option BackupMetadata → List BackupMetadata → List BackupMetadata
  append_found none found = found
  append_found (some metadata) found = metadata ∷ found

  abbrev pub is_candidate : Text × Entry → Bool
  is_candidate (name, no_directory) = false
  is_candidate (name, directory files) = is_backup_id name

  unfoldable pub read_backups : List (Text × Entry) → Step (List BackupMetadata)
  read_backups [] = return []
  read_backups ((name, entry) ∷ entries) =
      let others = read_backups entries in
      (if is_candidate (name, entry) then read_backup name else return none) >>= λ found.
      others >>= λ rest. return (append_found found rest)

  abbrev pub is_older : BackupMetadata → BackupMetadata → Bool
  is_older a b = setup.is_later b.created_at a.created_at

  unfoldable pub list : Step (List BackupMetadata)
  list = operate >>= λ made. operate >>= λ read. gets (λ s. take 1000 s.root) >>= λ entries.
      read_backups entries >>= λ found. return (take 365 (sort_by is_older found))
