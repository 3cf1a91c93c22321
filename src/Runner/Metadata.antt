-- ===== src/Runner/Metadata.antt =====
-- The manifest of a backup: `parseBackupMetadata` of codex-runner/src/sqlite-storage.ts.
pub mod Laws
pub mod RoundTrip
use artifact_dev_toolkit.Common.{
  ℕ, suc, Bool, true, false, not, ◌&&◌, ◌||◌, ◌*◌, Option, none, some, List, [], ◌∷◌, length, all,
  any, leb, ltb, if◌then◌else◌, is_some, Result, ok, err,
}
use artifact_dev_toolkit.Common.Text.{Text, codes, text_eq, is_truthy, split}
use artifact_dev_toolkit.Common.Json.{
  Json, null, bool, num, text, array, object, Items, nil, cons, Fields, end, field, lookup_field,
  is_safe_integer,
}
use artifact_dev_toolkit.Runner.Files.{is_digit, is_hex, is_backup_id, is_database_filename}

abbrev pub max_databases : ℕ
max_databases = 64

abbrev pub max_database_size : ℕ
max_database_size = 16 * 1024 * 1024 * 1024

pub record Database : Type 0 where
  pub filename : Text
  pub size : ℕ
  pub sha256 : Text

pub record BackupMetadata : Type 0 where
  pub backup_id : Text
  pub created_at : Text
  pub runner_version : Text
  pub codex_version : Text
  pub databases : List Database

-- `Object.keys(value)`
unfoldable pub keys : Fields → List Text
keys end = []
keys (field name value rest) = name ∷ keys rest

abbrev pub has_own : Fields → Text → Bool
has_own fields name = is_some (lookup_field name fields)

abbrev pub is_one_of : List Text → Text → Bool
is_one_of names name = any (text_eq name) names

unfoldable pub exact_keys : Fields → List Text → List Text → Bool
exact_keys fields required optional =
    all (has_own fields) required
    && all (λ name. is_one_of required name || is_one_of optional name) (keys fields)

unfoldable pub items_length : Items → ℕ
items_length nil = 0
items_length (cons value items) = suc (items_length items)

abbrev pub is_number_part : Text → Bool
is_number_part part = is_truthy part && all is_digit part

-- `/^\d+\.\d+\.\d+$/`
unfoldable pub is_version : Text → Bool
is_version version =
    let parts = split b'.' version in
    leb 3 (length parts) && leb (length parts) 3 && all is_number_part parts

-- `/^[a-f0-9]{64}$/`
abbrev pub is_sha256 : Text → Bool
is_sha256 sha = leb 64 (length sha) && leb (length sha) 64 && all is_hex sha

pub data InvalidBackup : Type 0 where
  invalid_backup : InvalidBackup

-- `String(value)` of a value that is no string, and whether `Date.parse` knows a time.
module _ (to_text : Json → Text) (is_time : Text → Bool) where
  unfoldable pub string_of : Option Json → Text
  string_of none = codes "undefined"
  string_of (some (text s)) = s
  string_of (some value) = to_text value

  unfoldable pub valid_timestamp : Option Json → Bool
  valid_timestamp (some (text s)) = leb (length s) 32 && is_time s
  valid_timestamp _ = false

  -- `item.backupId === expectedId`, where one is expected
  unfoldable pub is_expected : Option Text → Option Json → Bool
  is_expected none id = true
  is_expected (some expected) (some (text s)) = not (is_truthy expected) || text_eq s expected
  is_expected (some expected) _ = not (is_truthy expected)

  abbrev pub as_short : Option Json → Option Text
  as_short (some (text s)) = if leb (length s) 64 then some s else none
  as_short _ = none

  abbrev pub as_version : Option Json → Option Text
  as_version (some (text s)) = if is_version s then some s else none
  as_version _ = none

  abbrev pub as_size : Option Json → Option ℕ
  as_size (some (num n)) = if is_safe_integer n && leb n max_database_size then some n else none
  as_size _ = none

  abbrev pub as_sha256 : Option Json → Option Text
  as_sha256 (some (text s)) = if is_sha256 s then some s else none
  as_sha256 _ = none

  abbrev pub database_keys : List Text
  database_keys = codes "filename" ∷ codes "size" ∷ codes "sha256" ∷ []

  -- One database of the manifest; no name is seen twice.
  unfoldable pub parse_database : List Text → Json → Result InvalidBackup Database
  parse_database seen (object fields) =
      let filename = string_of (lookup_field (codes "filename") fields) in
      if exact_keys fields database_keys []
        && is_database_filename filename
        && not (is_one_of seen filename)
      then elim (as_size (lookup_field (codes "size") fields)) [
        | none ↦ err invalid_backup
        | some size ↦ elim (as_sha256 (lookup_field (codes "sha256") fields)) [
          | none ↦ err invalid_backup
          | some sha256 ↦ ok (record { filename = filename; size = size; sha256 = sha256 })
        ]
      ]
      else err invalid_backup
  parse_database seen _ = err invalid_backup

  unfoldable pub parse_databases : List Text → Items → Result InvalidBackup (List Database)
  parse_databases seen nil = ok []
  parse_databases seen (cons value items) = elim (parse_database seen value) [
    | err e ↦ err e
    | ok database ↦ elim (parse_databases (database.filename ∷ seen) items) [
      | err e ↦ err e
      | ok databases ↦ ok (database ∷ databases)
    ]
  ]

  unfoldable pub parse_database_list : Option Json → Result InvalidBackup (List Database)
  parse_database_list (some (array items)) =
      if leb 1 (items_length items) && leb (items_length items) max_databases
      then parse_databases [] items
      else err invalid_backup
  parse_database_list _ = err invalid_backup

  abbrev pub metadata_keys : List Text
  metadata_keys =
      codes "backupId"
      ∷ codes "createdAt"
      ∷ codes "runnerVersion"
      ∷ codes "codexVersion"
      ∷ codes "databases"
      ∷ []

  unfoldable pub parse_backup_metadata : Json → Option Text → Result InvalidBackup BackupMetadata
  parse_backup_metadata (object item) expected_id =
      let id = lookup_field (codes "backupId") item in
      let created_at = lookup_field (codes "createdAt") item in
      if exact_keys item metadata_keys (codes "schemaVersion" ∷ [])
        && is_backup_id (string_of id)
        && is_expected expected_id id
        && valid_timestamp created_at
      then elim (as_short (lookup_field (codes "runnerVersion") item)) [
        | none ↦ err invalid_backup
        | some runner_version ↦ elim (as_version (lookup_field (codes "codexVersion") item)) [
          | none ↦ err invalid_backup
          | some codex_version ↦
              elim (parse_database_list (lookup_field (codes "databases") item)) [
                | err e ↦ err e
                | ok databases ↦ ok (record {
                  backup_id = string_of id;
                  created_at = string_of created_at;
                  runner_version = runner_version;
                  codex_version = codex_version;
                  databases = databases;
                })
              ]
        ]
      ]
      else err invalid_backup
  parse_backup_metadata _ expected_id = err invalid_backup

unfoldable pub database_json : Database → Json
database_json database = object (
    field (codes "filename") (text database.filename) (
      field (codes "size") (num database.size) (field (codes "sha256") (text database.sha256) end)))

unfoldable pub databases_json : List Database → Items
databases_json [] = nil
databases_json (database ∷ databases) = cons (database_json database) (databases_json databases)

-- The manifest that a backup writes.
unfoldable pub manifest_json : BackupMetadata → Json
manifest_json metadata = object (
    field (codes "schemaVersion") (num 1) (
      field (codes "backupId") (text metadata.backup_id) (
        field (codes "createdAt") (text metadata.created_at) (
          field (codes "runnerVersion") (text metadata.runner_version) (
            field (codes "codexVersion") (text metadata.codex_version)
              (field (codes "databases") (array (databases_json metadata.databases)) end))))))
