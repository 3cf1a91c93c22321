-- ===== src/Runner/Metadata/Laws.antt =====
-- Lemmas on `parseBackupMetadata` of codex-runner/src/sqlite-storage.ts.
use artifact_dev_toolkit.Common.{
  ◌≤◌, ◌≡◌, Bool, true, false, Option, some, List, [], ◌∷◌, length, arith, inl, inr, ok,
  Result-cases, Option-cases,
}
use artifact_dev_toolkit.Common.Text.{Text, codes, text_eq_iff, is_truthy}
use artifact_dev_toolkit.Common.Json.{Json, text, array, object, Items, nil, cons, lookup_field}
use artifact_dev_toolkit.Runner.Files.{is_backup_id, is_database_filename}
use artifact_dev_toolkit.Runner.Metadata.{
  Database, BackupMetadata, items_length, is_version, is_sha256, is_one_of, string_of,
  valid_timestamp, is_expected, as_short, as_version, parse_database, parse_databases,
  parse_database_list, parse_backup_metadata, max_databases, max_database_size,
}

abbrev pub IsDatabase : Database → Type 0
IsDatabase database =
    (is_database_filename database.filename ≡ true)
    × (database.size ≤ max_database_size)
    × (is_sha256 database.sha256 ≡ true)

-- The names are those of databases, and none of them is among the names before.
abbrev pub AreDatabases : List Text → List Database → Type 0
AreDatabases seen [] = Unit
AreDatabases seen (database ∷ databases) =
    IsDatabase database
    × (is_one_of seen database.filename ≡ false)
    × AreDatabases (database.filename ∷ seen) databases

module _ (is_time : Text → Bool) where
  pub record IsMetadata (metadata : BackupMetadata) : Type 0 where
    pub id : is_backup_id metadata.backup_id ≡ true
    pub time : (length metadata.created_at ≤ 32) × (is_time metadata.created_at ≡ true)
    pub runner : length metadata.runner_version ≤ 64
    pub codex : is_version metadata.codex_version ≡ true
    pub count : (1 ≤ length metadata.databases) × (length metadata.databases ≤ max_databases)
    pub databases : AreDatabases [] metadata.databases

module _ (to_text : Json → Text) (is_time : Text → Bool) where
  parse_database-ok :
      (seen : List Text) (value : Json) (database : Database)
      → parse_database to_text is_time seen value ≡ ok database
      → IsDatabase database × (is_one_of seen database.filename ≡ false)
  unfolding parse_database
  parse_database-ok seen value database h = ground (arith)

  parse_databases-ok :
      (seen : List Text) (items : Items) (databases : List Database)
      → parse_databases to_text is_time seen items ≡ ok databases
      → AreDatabases seen databases × (length databases ≡ items_length items)
  unfolding parse_databases items_length
  parse_databases-ok seen nil databases h = ground arith
  parse_databases-ok seen (cons value items) databases h =
      elim (Result-cases (parse_database to_text is_time seen value)) [
        | inl (e, failed) ↦ absurd (ground arith)
        | inr (database, read) ↦
            let later = database.filename ∷ seen in
            elim (Result-cases (parse_databases to_text is_time later items)) [
              | inl (e, failed) ↦ absurd (ground arith)
              | inr (rest, read') ↦
                  let same : databases ≡ database ∷ rest = ground arith in
                  let first = parse_database-ok seen value database read in
                  let others = parse_databases-ok later items rest read' in
                  rw same ((first.0, first.1, others.0), omega (arith, others.1))
            ]
      ]

  parse_database_list-ok :
      (value : Option Json) (databases : List Database)
      → parse_database_list to_text is_time value ≡ ok databases
      → (1 ≤ length databases) × (length databases ≤ max_databases) × AreDatabases [] databases
  unfolding parse_database_list
  parse_database_list-ok (some (array items)) databases h =
      elim (Result-cases (parse_databases to_text is_time [] items)) [
        | inl (e, failed) ↦ absurd (ground arith)
        | inr (rest, read) ↦
            let (valid, count) = parse_databases-ok [] items rest read in
            let same : databases ≡ rest = ground arith in
            rw same (ground arith, ground arith, valid)
      ]
  parse_database_list-ok value databases h = absurd (ground arith)

  valid_timestamp-string_of :
      (value : Option Json)
      → valid_timestamp to_text is_time value ≡ true
      → (length (string_of to_text is_time value) ≤ 32)
        × (is_time (string_of to_text is_time value) ≡ true)
  unfolding valid_timestamp string_of
  valid_timestamp-string_of (some (text s)) h = ground arith
  valid_timestamp-string_of value h = absurd (ground arith)

  is_expected-string_of :
      (id : Text) (value : Option Json)
      → is_expected to_text is_time (some id) value ≡ true
      → is_truthy id ≡ true
      → string_of to_text is_time value ≡ id
  unfolding is_expected string_of
  is_expected-string_of id (some (text s)) h t = ground (arith, text_eq_iff s id)
  is_expected-string_of id value h t = absurd (ground arith)

  as_short-bound :
      (value : Option Json) (s : Text) → as_short to_text is_time value ≡ some s → length s ≤ 64
  as_short-bound (some (text t)) s h = ground arith
  as_short-bound value s h = absurd (ground arith)

  as_version-version :
      (value : Option Json) (s : Text)
      → as_version to_text is_time value ≡ some s
      → is_version s ≡ true
  as_version-version (some (text t)) s h = ground arith
  as_version-version value s h = absurd (ground arith)

  -- A manifest that is accepted has a backup's id, the one that was asked for where one was, a time of
  -- at most 32 units, a Codex version, from one to 64 databases, and each of them a database's name
  -- that no other has, a size within the bound and a SHA-256 digest.
  pub parse_backup_metadata-valid :
      (value : Json) (expected : Option Text) (metadata : BackupMetadata)
      → parse_backup_metadata to_text is_time value expected ≡ ok metadata
      → IsMetadata is_time metadata
        × ((id : Text) → expected ≡ some id → is_truthy id ≡ true → metadata.backup_id ≡ id)
  unfolding parse_backup_metadata
  parse_backup_metadata-valid (object item) expected metadata h =
      let runner = lookup_field (codes "runnerVersion") item in
      let codex = lookup_field (codes "codexVersion") item in
      let list = lookup_field (codes "databases") item in
      let id = lookup_field (codes "backupId") item in
      let time = lookup_field (codes "createdAt") item in
      elim (Option-cases (as_short to_text is_time runner)) [
        | inl missing ↦ absurd (ground arith)
        | inr (runner_version, e) ↦ elim (Option-cases (as_version to_text is_time codex)) [
          | inl missing ↦ absurd (ground arith)
          | inr (codex_version, e') ↦
              elim (Result-cases (parse_database_list to_text is_time list)) [
                | inl (thrown, failed) ↦ absurd (ground arith)
                | inr (databases, read) ↦
                    let timed : valid_timestamp to_text is_time time ≡ true = ground arith in
                    let listed = parse_database_list-ok list databases read in
                    let same : metadata ≡ record {
                      backup_id = string_of to_text is_time id;
                      created_at = string_of to_text is_time time;
                      runner_version = runner_version;
                      codex_version = codex_version;
                      databases = databases;
                    } =
                      ground arith in
                    rw same (
                      record {
                        id = ground arith;
                        time = valid_timestamp-string_of time timed;
                        runner = as_short-bound runner runner_version e;
                        codex = as_version-version codex codex_version e';
                        count = (listed.0, listed.1);
                        databases = listed.2;
                      },
                      (λ asked same' t. is_expected-string_of asked id (ground arith) t),
                    )
              ]
        ]
      ]
  parse_backup_metadata-valid value expected metadata h = absurd (ground arith)
