-- ===== src/Runner/Restore/Installed.antt =====
-- Lemmas on the promotion and the start of the App Server in `restore` of
-- codex-runner/src/sqlite-storage.ts.
use artifact_dev_toolkit.Common.{
  ◌≡◌, refl, ap, sym, ◌∙◌, true, false, List, [], ◌∷◌, filter, arith, All,
}
use artifact_dev_toolkit.Common.Text.{Text}
use artifact_dev_toolkit.Runner.Files.{Files, is_database_file}
use artifact_dev_toolkit.Runner.Metadata.{BackupMetadata}
use artifact_dev_toolkit.Runner.Storage.{
  Setup, Storage, Step, Failure, safe, other, restore_failed_rolled_back,
  app_server_shutdown_unconfirmed, ◌>>=◌, return, throw, modify, try_catch, make_safety, read_home,
  remove_safety, move_out,
}
use artifact_dev_toolkit.Runner.Storage.Triples.{
  Ensures, Judge-weaken, >>=-chain, >>=-chain_with, branch-Judge,
}
use artifact_dev_toolkit.Runner.Storage.Operations.{
  make_safety-Ensures, read_home-Ensures, move_out-Ensures, MovedOut, Unmoved,
  remove_safety-Ensures,
}
use artifact_dev_toolkit.Runner.Restore.{
  Restored, call, require_recovery, undo_moves, move_failed, move_current, prepare, set_aside,
  promote_all, forget_safety, install, body,
}
use artifact_dev_toolkit.Runner.Restore.Rollback.{call-Ensures}
use artifact_dev_toolkit.Runner.Restore.Copies.{
  Anything, IsVerified, IsPromoted, promote_all-IsPromoted,
}
use artifact_dev_toolkit.Runner.Storage.{Entry}
use artifact_dev_toolkit.Runner.Restore.Reads.{Judge-Anything}
use artifact_dev_toolkit.Runner.Restore.Sources.{IsRead, IsPrepared, prepare-IsPrepared}

-- What ends with a throw gives no value.
pub throws :
    {A B : Type 0} (m : Step A) (e : Failure) (s : Storage) (Q : B → Storage → Type 0)
    → Ensures (m >>= λ a. throw e) s Q Anything
throws m e s Q =
    >>=-chain m (λ a. throw e) s (λ a t. Unit {0}) Q Anything (Judge-Anything (m s)) (λ a t u. tt)

module _ (setup : Setup) where
  abbrev SameStage : Storage → Storage → Type 0
  SameStage s t = t.stage ≡ s.stage

  move_current-stage :
      (moved rest : List Text) (s : Storage)
      → Ensures (move_current setup moved rest) s (λ done t. SameStage s t) Anything
  unfolding move_current move_failed
  move_current-stage moved [] s = refl
  move_current-stage moved (name ∷ rest) s =
      branch-Judge (move_out name s) (λ e. move_failed setup moved)
        (λ done. move_current setup (name ∷ moved) rest) (MovedOut name s) (Unmoved name s) _ _
        (move_out-Ensures name s)
        (λ e t same.
          throws (try_catch (undo_moves setup moved) (λ e. require_recovery))
            (safe restore_failed_rolled_back 503) t _)
        (λ done t out.
          Judge-weaken (move_current setup (name ∷ moved) rest t) _ _ _ _
            (λ done' u same. same ∙ ap (λ (w : Storage). w.stage) out.2) (λ e u r. tt)
            (move_current-stage (name ∷ moved) rest t))

  set_aside-stage : (s : Storage) → Ensures (set_aside setup) s (λ done t. SameStage s t) Anything
  unfolding set_aside
  set_aside-stage s =
      let Q : Unit {0} → Storage → Type 0 = λ done t. SameStage s t in
      let move : List Text → Step (Unit {0}) = λ found.
        move_current setup [] (filter is_database_file found) >>= λ moved.
        modify (λ s. record s { moved_current = true }) in
      >>=-chain_with (call setup.close_first (safe app_server_shutdown_unconfirmed 503))
        (λ closed. make_safety >>= λ made. read_home >>= λ found. move found) s _ _ Q Anything
        (call-Ensures setup.close_first (safe app_server_shutdown_unconfirmed 503) s)
        (λ e t same. tt)
        (λ closed t (stopped, same).
          >>=-chain_with make_safety (λ made. read_home >>= λ found. move found) t _ _ Q Anything
            (make_safety-Ensures t) (λ e u same'. tt)
            (λ made u same'.
              >>=-chain_with read_home move u _ _ Q Anything (read_home-Ensures u)
                (λ e v same''. tt)
                (λ found v (listed, same'').
                  >>=-chain (move_current setup [] (filter is_database_file found))
                    (λ moved. modify (λ s. record s { moved_current = true })) v
                    (λ done w. SameStage v w) Q Anything
                    (move_current-stage [] (filter is_database_file found) v)
                    (λ done w same'''.
                      same'''
                      ∙ (ap (λ (w : Storage). w.stage) same''
                          ∙ (ap (λ (w : Storage). w.stage) same'
                              ∙ ap (λ (w : Storage). w.stage) same))))))

  -- The App Server is ready on a home where each database of a manifest is as it is among files that
  -- have the digests and sizes of the manifest.
  abbrev pub IsInstalled : List (Text × Entry) → Restored → Storage → Type 0
  IsInstalled root restored t =
      (manifest : BackupMetadata) × (files : Files) × (home : Files) × IsRead setup root
        restored.backup_id manifest files
      × All (IsVerified setup files) manifest.databases
      × All (IsPromoted files home) manifest.databases
      × (setup.ready_first home ≡ (true, t.home))

  install-IsInstalled :
      (root : List (Text × Entry)) (selected : Text) (manifest : BackupMetadata) (s : Storage)
      → IsPrepared setup root (selected, manifest) s
      → Ensures (install setup selected manifest) s (λ done t. IsInstalled root done t) Anything
  unfolding install
  install-IsInstalled root selected manifest s (files, is_read, verified, from') =
      let Q : Restored → Storage → Type 0 = λ done t. IsInstalled root done t in
      let restored : Restored = record { backup_id = selected; rollback_occurred = false } in
      >>=-chain (promote_all manifest.databases)
        (λ promoted. call setup.ready_first other >>= λ ready.
          remove_safety setup >>= λ removed. forget_safety >>= λ done. return restored)
        s (λ promoted t. All (IsPromoted files t.home) manifest.databases) Q Anything
        (Judge-weaken (promote_all manifest.databases s) _ _ _ _ (λ promoted t (all, agrees). all)
          (λ e t r. tt) (promote_all-IsPromoted files manifest.databases s from'))
        (λ promoted t all.
          >>=-chain_with (call setup.ready_first other)
            (λ ready. remove_safety setup >>= λ removed. forget_safety >>= λ done. return restored)
            t _ _ Q Anything (call-Ensures setup.ready_first other t) (λ e u same. tt)
            (λ ready u (started, same).
              >>=-chain_with (remove_safety setup)
                (λ removed. forget_safety >>= λ done. return restored) u _ _ Q Anything
                (remove_safety-Ensures setup u) (λ e v left. tt)
                (λ removed v cleared. (
                  manifest,
                  files,
                  t.home,
                  is_read,
                  verified,
                  all,
                  started ∙ ap (λ (w : Storage). (true, w.home)) (sym cleared),
                ))))

  pub body-IsInstalled :
      (id : Text) (s : Storage)
      → Ensures (body setup id) s (λ done t. IsInstalled s.root done t) Anything
  unfolding body
  body-IsInstalled id s =
      let Q : Restored → Storage → Type 0 = λ done t. IsInstalled s.root done t in
      >>=-chain (prepare setup id)
        (λ (selected, manifest). set_aside setup >>= λ aside. install setup selected manifest) s
        (λ prepared t. IsPrepared setup s.root prepared t) Q Anything
        (prepare-IsPrepared setup id s)
        (λ (selected, manifest) t (files, is_read, verified, from').
          >>=-chain (set_aside setup) (λ aside. install setup selected manifest) t
            (λ aside u. SameStage t u) Q Anything (set_aside-stage t)
            (λ aside u same. install-IsInstalled s.root selected manifest u (
              files,
              is_read,
              verified,
              (λ key content there. from' key content (ground (arith, same, there))),
            )))

  -- It depends on the home alone.
  pub IsInstalled-home :
      (root : List (Text × Entry)) (restored : Restored) (s t : Storage)
      → t.home ≡ s.home
      → IsInstalled root restored s
      → IsInstalled root restored t
  IsInstalled-home root restored s t same (manifest, files, home, is_read, verified, all, started) =
      (manifest, files, home, is_read, verified, all, started ∙ ap (λ h. (true, h)) (sym same))
