-- ===== src/Runner/Backups/Reading.antt =====
-- Lemmas on the reading of the backups in codex-runner/src/sqlite-storage.ts.
use artifact_dev_toolkit.Common.{none, List, [], ◌∷◌, if◌then◌else◌}
use artifact_dev_toolkit.Common.Text.{Text}
use artifact_dev_toolkit.Common.Json.{Json}
use artifact_dev_toolkit.Runner.Files.{Files}
use artifact_dev_toolkit.Runner.Storage.{Setup, Entry, ◌>>=◌, return}
use artifact_dev_toolkit.Runner.Storage.Quiet.{
  IsQuiet, Quiet-refl, >>=-IsQuiet, return-IsQuiet, if-IsQuiet, quiet_steps,
}
use artifact_dev_toolkit.Runner.Backups.{
  safe_backup_directory, read_directory, parse, read_raw, read_backup, read_backups, list,
  is_candidate, append_found,
}

read_directory-IsQuiet : (id : Text) → IsQuiet (read_directory id)
unfolding read_directory
read_directory-IsQuiet id = search quiet_steps depth 20

pub safe_backup_directory-IsQuiet : (id : Text) → IsQuiet (safe_backup_directory id)
unfolding safe_backup_directory
safe_backup_directory-IsQuiet id = search (quiet_steps, read_directory-IsQuiet) depth 20

module _ (setup : Setup) where
  pub parse-IsQuiet : (raw : Json) (id : Text) → IsQuiet (parse setup raw id)
  unfolding parse
  parse-IsQuiet raw id = record { quiet = Quiet-refl }

  pub read_raw-IsQuiet : (files : Files) → IsQuiet (read_raw setup files)
  unfolding read_raw
  read_raw-IsQuiet files = search quiet_steps depth 20

  read_backup-IsQuiet : (id : Text) → IsQuiet (read_backup setup id)
  unfolding read_backup
  read_backup-IsQuiet id =
      search (quiet_steps, safe_backup_directory-IsQuiet, read_raw-IsQuiet, parse-IsQuiet) depth 20

  read_backups-IsQuiet : (entries : List (Text × Entry)) → IsQuiet (read_backups setup entries)
  unfolding read_backups
  read_backups-IsQuiet [] = search quiet_steps
  read_backups-IsQuiet ((name, entry) ∷ entries) =
      >>=-IsQuiet (if is_candidate setup (name, entry) then read_backup setup name else return none)
        (λ found. read_backups setup entries >>= λ rest. return (append_found setup found rest))
        (if-IsQuiet (is_candidate setup (name, entry)) _ _ (read_backup-IsQuiet name)
          (return-IsQuiet none))
        (λ found.
          >>=-IsQuiet (read_backups setup entries) (λ rest. return (append_found setup found rest))
            (read_backups-IsQuiet entries) (λ rest. return-IsQuiet (append_found setup found rest)))

  pub list-IsQuiet : IsQuiet (list setup)
  unfolding list
  list-IsQuiet = search (quiet_steps, read_backups-IsQuiet) depth 20
