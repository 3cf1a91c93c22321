-- ===== src/Runner/Metadata/RoundTrip.antt =====
-- The manifest of a backup, written and read: codex-runner/src/sqlite-storage.ts.
use artifact_dev_toolkit.Common.{◌≡◌, refl, Bool, false, some, List, [], ◌∷◌, length, arith, ok}
use artifact_dev_toolkit.Common.Text.{Text, text_eq, text_eq_refl}
use artifact_dev_toolkit.Common.Json.{Json, lookup_field}
use artifact_dev_toolkit.Runner.Metadata.{
  Database, BackupMetadata, keys, is_one_of, exact_keys, items_length, string_of, valid_timestamp,
  is_expected, parse_database, parse_databases, parse_database_list, parse_backup_metadata,
  database_json, databases_json, manifest_json,
}
use artifact_dev_toolkit.Runner.Metadata.Laws.{IsDatabase, AreDatabases, IsMetadata}

items_length-databases_json :
    (databases : List Database) → items_length (databases_json databases) ≡ length databases
unfolding items_length databases_json
items_length-databases_json [] = refl
items_length-databases_json (database ∷ databases) =
    ground (arith, items_length-databases_json databases)

module _ (to_text : Json → Text) (is_time : Text → Bool) where
  parse_database-database_json :
      (seen : List Text) (database : Database)
      → IsDatabase database
      → is_one_of seen database.filename ≡ false
      → parse_database to_text is_time seen (database_json database) ≡ ok database
  unfolding parse_database database_json exact_keys keys lookup_field text_eq string_of
  parse_database-database_json seen database (named, small, hashed) new = ground arith

  parse_databases-databases_json :
      (seen : List Text) (databases : List Database)
      → AreDatabases seen databases
      → parse_databases to_text is_time seen (databases_json databases) ≡ ok databases
  unfolding parse_databases databases_json
  parse_databases-databases_json seen [] valid = refl
  parse_databases-databases_json seen (database ∷ databases) (valid, new, others) = ground (
    arith,
    parse_database-database_json seen database valid new,
    parse_databases-databases_json (database.filename ∷ seen) databases others,
  )

  -- The manifest of well-formed metadata is read as that metadata, where its own id is expected.
  pub parse_backup_metadata-manifest_json :
      (metadata : BackupMetadata)
      → IsMetadata is_time metadata
      → parse_backup_metadata to_text is_time (manifest_json metadata) (some metadata.backup_id)
        ≡ ok metadata
  unfolding parse_backup_metadata manifest_json exact_keys keys lookup_field text_eq string_of
      valid_timestamp is_expected parse_database_list
  parse_backup_metadata-manifest_json metadata valid = ground (
    arith,
    valid.id,
    valid.time,
    valid.runner,
    valid.codex,
    valid.count,
    text_eq_refl metadata.backup_id,
    items_length-databases_json metadata.databases,
    parse_databases-databases_json [] metadata.databases valid.databases,
  )
