-- ===== src/Runner/Restore/Preparation.antt =====
-- Lemmas on the checks and copies of `restore` (codex-runner/src/sqlite-storage.ts) before the App
-- Server is stopped.
use artifact_dev_toolkit.Common.{refl, Option, some, List, [], ◌∷◌}
use artifact_dev_toolkit.Common.Text.{Text}
use artifact_dev_toolkit.Runner.Files.{Files}
use artifact_dev_toolkit.Runner.Metadata.{Database}
use artifact_dev_toolkit.Runner.Storage.{Setup, Storage, operate, make_stage, modify}
use artifact_dev_toolkit.Runner.Storage.Quiet.{IsQuiet, >>=-IsQuiet, operate-IsQuiet, quiet_steps}
use artifact_dev_toolkit.Runner.Backups.Reading.{
  safe_backup_directory-IsQuiet, parse-IsQuiet, read_raw-IsQuiet, list-IsQuiet,
}
use artifact_dev_toolkit.Runner.Restore.{
  select, read_manifest, verify_database, verify_all, stage_database, stage_all, prepare,
}

modify_stage-IsQuiet :
    (change : Storage → Option Files) → IsQuiet (modify (λ s. record s { stage = change s }))
modify_stage-IsQuiet change = record {
  quiet = λ s. record {
    home = refl;
    root = refl;
    abandoned = refl;
    operation = refl;
    recovery_required = refl;
    last_failure = refl;
    safety = refl;
    durable_stage = refl;
    moved_current = refl;
  };
}

make_stage-IsQuiet : IsQuiet make_stage
unfolding make_stage
make_stage-IsQuiet =
    >>=-IsQuiet operate (λ done. modify (λ s. record s { stage = some [] })) operate-IsQuiet
      (λ done. modify_stage-IsQuiet (λ s. some []))

module _ (setup : Setup) where
  pub select-IsQuiet : (id : Text) → IsQuiet (select setup id)
  unfolding select
  select-IsQuiet id = search (quiet_steps, list-IsQuiet) depth 20

  read_manifest-IsQuiet : (id : Text) (files : Files) → IsQuiet (read_manifest setup id files)
  unfolding read_manifest
  read_manifest-IsQuiet id files = search (quiet_steps, read_raw-IsQuiet, parse-IsQuiet) depth 20

  verify_database-IsQuiet :
      (files : Files) (database : Database) → IsQuiet (verify_database setup files database)
  unfolding verify_database
  verify_database-IsQuiet files database = search quiet_steps depth 20

  verify_all-IsQuiet :
      (files : Files) (databases : List Database) → IsQuiet (verify_all setup files databases)
  unfolding verify_all
  verify_all-IsQuiet files [] = search quiet_steps
  verify_all-IsQuiet files (database ∷ databases) =
      >>=-IsQuiet (verify_database setup files database) (λ done. verify_all setup files databases)
        (verify_database-IsQuiet files database) (λ done. verify_all-IsQuiet files databases)

  stage_database-IsQuiet :
      (files : Files) (database : Database) → IsQuiet (stage_database setup files database)
  unfolding stage_database
  stage_database-IsQuiet files database = search (quiet_steps, modify_stage-IsQuiet) depth 20

  stage_all-IsQuiet :
      (files : Files) (databases : List Database) → IsQuiet (stage_all setup files databases)
  unfolding stage_all
  stage_all-IsQuiet files [] = search quiet_steps
  stage_all-IsQuiet files (database ∷ databases) =
      >>=-IsQuiet (stage_database setup files database) (λ done. stage_all setup files databases)
        (stage_database-IsQuiet files database) (λ done. stage_all-IsQuiet files databases)

  pub prepare-IsQuiet : (id : Text) → IsQuiet (prepare setup id)
  unfolding prepare
  prepare-IsQuiet id =
      search
        (
          quiet_steps, select-IsQuiet, safe_backup_directory-IsQuiet, read_manifest-IsQuiet,
          verify_all-IsQuiet, make_stage-IsQuiet, stage_all-IsQuiet,
        )
        depth 20
