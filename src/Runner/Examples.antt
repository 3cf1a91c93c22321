-- ===== src/Runner/Examples.antt =====
-- A home with one database and one backup of it, and the theorems of the storage there.
use artifact_dev_toolkit.Common.{
  ℕ, arith, ◌≡◌, ◌⊎◌, ◌++◌, refl, Bool, true, false, none, some, List, [], ◌∷◌, any, if◌then◌else◌,
  ok, err, All,
}
use artifact_dev_toolkit.Common.Text.{
  is_truthy, Text, codes, text_eq, to_lower_case, starts_with, ends_with, split, split_from,
}
use artifact_dev_toolkit.Common.Json.{Json, lookup_field, property, as_num}
use artifact_dev_toolkit.Runner.Files.{
  Files, lookup, remove, is_database_file, matches, repeat, is_backup_id, is_stem, before_ending,
  is_database_filename,
}
use artifact_dev_toolkit.Common.Sorting.{sort_by, insert_sorted}
use artifact_dev_toolkit.Runner.Mounts.{
  Mount, local, network, unknown, is_network, classify_filesystem,
}
use artifact_dev_toolkit.Runner.Mounts.Longest.{
  NotCovering, IsLongest, classify_filesystem-IsLongest,
}
use artifact_dev_toolkit.Runner.Metadata.{
  BackupMetadata, is_version, manifest_json, parse_backup_metadata, parse_database, parse_databases,
  parse_database_list, database_json, databases_json, exact_keys, keys, items_length, string_of,
  valid_timestamp, is_expected,
}
use artifact_dev_toolkit.Runner.Metadata.Laws.{IsMetadata, parse_backup_metadata-valid}
use artifact_dev_toolkit.Runner.Metadata.RoundTrip.{parse_backup_metadata-manifest_json}
use artifact_dev_toolkit.Runner.Storage.{
  Setup, Storage, Outcome, directory, safe, other, runner_busy, idle, restore,
  restore_failed_rolled_back, operate, move_out, move_back, promote, copy_back, remove_home,
  read_home, read_safety, make_stage, make_safety, remove_safety, remove_stage,
}
use artifact_dev_toolkit.Runner.Storage.Triples.{Ensures}
use artifact_dev_toolkit.Runner.Backups.{
  manifest_name, find_entry, read_directory, safe_backup_directory, parse, read_raw, has_schema,
  read_backup, read_backups, list,
}
use artifact_dev_toolkit.Runner.Backups.Creation.{publish_set, create_backup}
use artifact_dev_toolkit.Runner.Backups.Publication.{IsComplete, publish_set-IsComplete}
use artifact_dev_toolkit.Runner.Restore.{
  Restored, restore_backup, recovery_marker, write_marker, require_recovery, move_all_back,
  promote_all, remove_all, copy_all_back, undo_moves, move_failed, move_current, select,
  read_manifest, verify_database, verify_all, stage_database, stage_all, prepare, set_aside,
  install, body, put_back, roll_back, recover, finish, run_restore,
}
use artifact_dev_toolkit.Runner.Restore.Outcomes.{Ending, restore_backup-Ending}
use artifact_dev_toolkit.Runner.Restore.Installed.{IsInstalled}
use artifact_dev_toolkit.Runner.Restore.Installs.{restore_backup-IsInstalled}
use artifact_dev_toolkit.Runner.Manager.{initialize}
use artifact_dev_toolkit.Runner.Manager.Start.{
  is_marked_for_recovery, settled, refused, initialize-closed,
}

abbrev mounts : List Mount
mounts =
    record { mount_point = codes "/"; filesystem_type = codes "ext4" }
    ∷ record { mount_point = codes "/data"; filesystem_type = codes "nfs4" }
    ∷ []

classify_filesystem-IsLongest_example :
    ((classify_filesystem (codes "/data/sqlite") mounts ≡ unknown)
      × All (NotCovering (codes "/data/sqlite")) mounts)
    ⊎ ((mount : Mount) × IsLongest (codes "/data/sqlite") mounts mount
        × (classify_filesystem (codes "/data/sqlite") mounts
            ≡ (if is_network mount.filesystem_type then network else local)))
classify_filesystem-IsLongest_example = classify_filesystem-IsLongest (codes "/data/sqlite") mounts

abbrev digest : Text
digest = codes "0123456789abcdef0123456789abcdef0123456789abcdef0123456789abcdef"

abbrev metadata : BackupMetadata
metadata = record {
  backup_id = codes "b-20240506T070809Z-0123456789ab";
  created_at = codes "2024-05-06T07:08:09.000Z";
  runner_version = codes "1";
  codex_version = codes "0.1.2";
  databases = record { filename = codes "state.sqlite"; size = 3; sha256 = digest } ∷ [];
}

abbrev any_text : Json → Text
any_text value = []

abbrev any_time : Text → Bool
any_time value = true

metadata-IsMetadata : IsMetadata any_time metadata
unfolding is_backup_id matches repeat is_version split split_from is_database_filename is_stem
    before_ending to_lower_case text_eq
metadata-IsMetadata = record {
  id = refl;
  time = (omega arith, refl);
  runner = omega arith;
  codex = refl;
  count = (omega arith, omega arith);
  databases = ((refl, omega arith, refl), refl, tt);
}

parse_backup_metadata-manifest_json_example :
    parse_backup_metadata any_text any_time
      (manifest_json metadata)
      (some (codes "b-20240506T070809Z-0123456789ab"))
    ≡ ok metadata
parse_backup_metadata-manifest_json_example =
    parse_backup_metadata-manifest_json any_text any_time metadata metadata-IsMetadata

parse_backup_metadata-valid_example :
    IsMetadata any_time metadata
    × ((id : Text)
        → some metadata.backup_id ≡ some id
        → is_truthy id ≡ true
        → metadata.backup_id ≡ id)
parse_backup_metadata-valid_example =
    parse_backup_metadata-valid any_text any_time (manifest_json metadata) (some metadata.backup_id)
      metadata (parse_backup_metadata-manifest_json any_text any_time metadata metadata-IsMetadata)

-- The App Server is not ready on what is installed, and ready after the rollback.
abbrev setup : Setup
setup = record {
  sqlite_home = true;
  retention = 14;
  runner_version = codes "1";
  codex_version = codes "0.1.2";
  to_text = any_text;
  is_time = any_time;
  parse_json = λ content. some (manifest_json metadata);
  render_json = λ value. codes "{}";
  is_later = λ a b. false;
  checksum = λ content. digest;
  sqlite_backup = λ files name. lookup name files;
  transfer = λ content. content;
  leftover = λ files. files;
  available = 1000;
  now = codes "2024-05-06T07:08:09.000Z";
  random = codes "0123456789ab";
  close_first = λ files. (true, files);
  ready_first = λ files. (false, files);
  close_second = λ files. (true, files);
  ready_second = λ files. (true, files);
}

abbrev backup_files : Files
backup_files = (manifest_name, codes "{}") ∷ (codes "state.sqlite", codes "old") ∷ []

abbrev storage : Storage
storage = record {
  home = (codes "state.sqlite", codes "new") ∷ [];
  root = (metadata.backup_id, directory backup_files) ∷ [];
  abandoned = [];
  operation = idle;
  recovery_required = false;
  last_failure = none;
  stage = none;
  safety = none;
  durable_stage = none;
  moved_current = false;
  outages = [];
}

restore_backup-Ending_example :
    Ending setup storage storage.home (restore_backup setup (codes "latest") storage).1
restore_backup-Ending_example =
    restore_backup-Ending setup (codes "latest") storage (λ files. refl) refl refl

publish_set-IsComplete_example :
    Ensures
      (publish_set setup metadata)
      storage
      (λ done t.
        (files : Files) × IsComplete setup metadata files
        × (t.root ≡ storage.root ++ ((metadata.backup_id, directory files) ∷ [])))
      (λ e t. t.root ≡ storage.root)
publish_set-IsComplete_example = publish_set-IsComplete setup metadata storage

abbrev interrupted : Storage
interrupted = record storage {
  abandoned = ((recovery_marker, []) ∷ (codes "state.sqlite", codes "new") ∷ []) ∷ [];
}

interrupted-marked : any is_marked_for_recovery interrupted.abandoned ≡ true
unfolding lookup text_eq
interrupted-marked = refl

initialize-closed_example :
    (initialize setup [] (codes "/data/sqlite") [] (settled interrupted)
      ≡ (err other, refused interrupted))
    × (restore_backup setup (codes "latest") (refused interrupted)
        ≡ (err (safe runner_busy 409), refused interrupted))
    × (create_backup setup (refused interrupted)
        ≡ (err (safe runner_busy 409), refused interrupted))
initialize-closed_example =
    initialize-closed setup [] (codes "/data/sqlite") [] interrupted (codes "latest") refl
      interrupted-marked

restore_steps : Unit {0}
unfolding lookup remove text_eq is_backup_id matches repeat is_version split split_from
    is_database_filename is_stem before_ending to_lower_case is_database_file ends_with starts_with
    operate move_out move_back promote copy_back remove_home read_home read_safety make_stage
    make_safety remove_safety remove_stage parse_backup_metadata parse_database parse_databases
    parse_database_list manifest_json database_json databases_json exact_keys keys lookup_field
    items_length string_of valid_timestamp is_expected find_entry read_directory
    safe_backup_directory parse read_raw has_schema property as_num read_backup read_backups list
    sort_by insert_sorted write_marker require_recovery move_all_back promote_all remove_all
    copy_all_back undo_moves move_failed move_current select read_manifest verify_database
    verify_all stage_database stage_all prepare set_aside install body put_back roll_back recover
    finish run_restore restore_backup
restore_steps = tt

-- The restoration fails once the App Server is not ready, and brings the database back.
rolled_back :
    ((restore_backup setup (codes "latest") storage).0 ≡ err (safe restore_failed_rolled_back 503))
    × ((restore_backup setup (codes "latest") storage).1.home ≡ storage.home)
unfolding restore_steps
rolled_back = (refl, refl)

abbrev ready_setup : Setup
ready_setup = record setup { ready_first = λ files. (true, files) }

abbrev restored : Restored
restored = record { backup_id = metadata.backup_id; rollback_occurred = false }

installed : (restore_backup ready_setup (codes "latest") storage).0 ≡ ok restored
unfolding restore_steps
installed = refl

restore_backup-IsInstalled_example :
    IsInstalled ready_setup storage.root restored
      (restore_backup ready_setup (codes "latest") storage).1
restore_backup-IsInstalled_example =
    restore_backup-IsInstalled ready_setup (codes "latest") storage restored installed

-- The databases are installed and the App Server is ready, but the removal of the safety directory
-- fails after it removed a part: the rollback then copies back what is left.
abbrev partial_setup : Setup
partial_setup = record ready_setup { leftover = λ files. [] }

abbrev failing_at : ℕ → List Bool
failing_at ℕ.zero = true ∷ []
failing_at (ℕ.suc n) = false ∷ failing_at n

abbrev half_removed : Outcome Restored
half_removed =
    restore_backup partial_setup (codes "latest") (record storage { outages = failing_at 18 })

databases_lost :
    (half_removed.0 ≡ err (safe restore_failed_rolled_back 503))
    × (half_removed.1.home ≡ [])
    × (half_removed.1.abandoned ≡ [])
unfolding restore_steps
databases_lost = (refl, refl, refl)

-- A removal of the stage that fails hides the result of the restoration and leaves the operation
-- busy, though no recovery is required.
abbrev unremoved : Outcome Restored
unremoved = restore_backup ready_setup (codes "latest") (record storage { outages = failing_at 19 })

stays_busy :
    (unremoved.0 ≡ err other)
    × (unremoved.1.home ≡ (codes "state.sqlite", codes "old") ∷ [])
    × (unremoved.1.recovery_required ≡ false)
    × (unremoved.1.operation ≡ restore)
unfolding restore_steps
stays_busy = (refl, refl, refl, refl)
