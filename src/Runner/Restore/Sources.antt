-- ===== src/Runner/Restore/Sources.antt =====
-- Lemmas on what `restore` of codex-runner/src/sqlite-storage.ts has read and verified when its copies
-- stand in the staging directory.
use artifact_dev_toolkit.Common.{◌≡◌, subst, some, List, arith, All}
use artifact_dev_toolkit.Common.Text.{Text}
use artifact_dev_toolkit.Runner.Files.{Files, lookup}
use artifact_dev_toolkit.Runner.Metadata.{BackupMetadata}
use artifact_dev_toolkit.Runner.Storage.{Setup, Storage, Step, ◌>>=◌, return, make_stage}
use artifact_dev_toolkit.Runner.Storage.Triples.{Ensures, >>=-chain, >>=-chain_with}
use artifact_dev_toolkit.Runner.Storage.Operations.{make_stage-Ensures}
use artifact_dev_toolkit.Runner.Backups.{safe_backup_directory}
use artifact_dev_toolkit.Runner.Restore.{select, read_manifest, verify_all, stage_all, prepare}
use artifact_dev_toolkit.Runner.Restore.Copies.{
  Anything, FromFiles, IsVerified, verify_all-IsVerified, stage_all-FromFiles,
}
use artifact_dev_toolkit.Runner.Storage.{Entry}
use artifact_dev_toolkit.Runner.Restore.Preparation.{select-IsQuiet}
use artifact_dev_toolkit.Runner.Backups.{find_entry, directory_of}
use artifact_dev_toolkit.Runner.Restore.Reads.{
  IsQuiet-root, IsManifest, safe_backup_directory-found, read_manifest-IsManifest,
}

module _ (setup : Setup) where
  -- The files are the directory of the backup in this root, and their manifest parses to this one.
  abbrev pub IsRead : List (Text × Entry) → Text → BackupMetadata → Files → Type 0
  IsRead root selected manifest files =
      (directory_of (find_entry selected root) ≡ some files)
      × IsManifest setup selected files manifest

  -- The copies in the staging directory come from files that were read and verified.
  abbrev pub IsPrepared : List (Text × Entry) → Text × BackupMetadata → Storage → Type 0
  IsPrepared root (selected, manifest) t =
      (files : Files) × IsRead root selected manifest files
      × All (IsVerified setup files) manifest.databases
      × FromFiles files t

  stage_files-IsPrepared :
      (root : List (Text × Entry)) (selected : Text) (manifest : BackupMetadata) (files : Files)
      (s : Storage)
      → IsRead root selected manifest files
      → All (IsVerified setup files) manifest.databases
      → Ensures {A = Text × BackupMetadata}
          (make_stage >>= λ made.
            stage_all setup files manifest.databases >>= λ staged. return (selected, manifest))
          s
          (λ prepared t. IsPrepared root prepared t)
          Anything
  unfolding lookup
  stage_files-IsPrepared root selected manifest files s is_read verified =
      let Q : Text × BackupMetadata → Storage → Type 0 = λ prepared t. IsPrepared root prepared t in
      >>=-chain_with make_stage
        (λ made. stage_all setup files manifest.databases >>= λ staged. return (selected, manifest))
        s _ _ Q Anything (make_stage-Ensures s) (λ e t same. tt)
        (λ made t same.
          >>=-chain (stage_all setup files manifest.databases)
            (λ staged. return (selected, manifest)) t (λ staged u. FromFiles files u) Q Anything
            (stage_all-FromFiles setup files manifest.databases t
              (λ key content there. absurd (ground (arith, same))))
            (λ staged u from'. (files, is_read, verified, from')))

  pub prepare-IsPrepared :
      (id : Text) (s : Storage)
      → Ensures (prepare setup id) s (λ prepared t. IsPrepared s.root prepared t) Anything
  unfolding prepare
  prepare-IsPrepared id s =
      let Q : Text × BackupMetadata → Storage → Type 0 =
        λ prepared t. IsPrepared s.root prepared t in
      let stage : Text → Files → BackupMetadata → Step (Text × BackupMetadata) =
        λ selected files manifest. make_stage >>= λ made.
        stage_all setup files manifest.databases >>= λ staged. return (selected, manifest) in
      let verify : Text → Files → Step (Text × BackupMetadata) = λ selected files.
        read_manifest setup selected files >>= λ manifest.
        verify_all setup files manifest.databases >>= λ verified. stage selected files manifest in
      >>=-chain (select setup id)
        (λ selected. safe_backup_directory selected >>= λ files. verify selected files) s _ Q
        Anything (IsQuiet-root (select setup id) (select-IsQuiet setup id) s)
        (λ selected t same.
          >>=-chain (safe_backup_directory selected) (verify selected) t _ Q Anything
            (safe_backup_directory-found selected t)
            (λ files u found.
              >>=-chain (read_manifest setup selected files)
                (λ manifest. verify_all setup files manifest.databases >>= λ verified.
                  stage selected files manifest)
                u _ Q Anything (read_manifest-IsManifest setup selected files u)
                (λ manifest v is.
                  >>=-chain (verify_all setup files manifest.databases)
                    (λ verified. stage selected files manifest) v
                    (λ verified w. All (IsVerified setup files) manifest.databases) Q Anything
                    (verify_all-IsVerified setup files manifest.databases v)
                    (λ verified w all.
                      stage_files-IsPrepared s.root selected manifest files w
                        (
                          subst (λ root. directory_of (find_entry selected root) ≡ some files) same
                              found,
                          is,
                        )
                        all))))
