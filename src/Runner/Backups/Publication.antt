-- ===== src/Runner/Backups/Publication.antt =====
-- The publication of a backup by `createBackup` of codex-runner/src/sqlite-storage.ts.
use artifact_dev_toolkit.Common.{
  ◌≡◌, refl, ap, ◌∙◌, true, not, some, List, [], ◌∷◌, ◌++◌, is_some, arith, Bool-cases, inl, inr,
  All,
}
use artifact_dev_toolkit.Common.Text.{Text, codes, text_eq, text_eq_iff, text_eq_refl}
use artifact_dev_toolkit.Runner.Files.{Files, lookup, put}
use artifact_dev_toolkit.Runner.Files.Laws.{lookup-put}
use artifact_dev_toolkit.Runner.Metadata.{Database, BackupMetadata, manifest_json}
use artifact_dev_toolkit.Runner.Storage.{
  Setup, Storage, Failure, directory, ◌>>=◌, files_of, spend, other,
}
use artifact_dev_toolkit.Runner.Storage.Triples.{Ensures, Judge-weaken, >>=-chain, >>=-chain_with}
use artifact_dev_toolkit.Runner.Storage.Operations.{operate->>=, from->>=, check->>=}
use artifact_dev_toolkit.Runner.Backups.{find_entry, manifest_name}
use artifact_dev_toolkit.Runner.Backups.Creation.{
  make_durable, store, store_all, write_manifest, publish, publish_set,
}

module _ (setup : Setup) where
  -- The file of a database arrived with the digest of the manifest.
  abbrev pub IsStored : Files → Database → Type 0
  IsStored files database =
      (content : Text) × (lookup database.filename files ≡ some content)
      × (text_eq (setup.checksum content) database.sha256 ≡ true)

  -- Files that were there stay, and nothing else of the state that is read later changes.
  abbrev Grows : Storage → Storage → Type 0
  Grows s t =
      (t.root ≡ s.root)
      × ((key content : Text)
          → lookup key (files_of s.durable_stage) ≡ some content
          → lookup key (files_of t.durable_stage) ≡ some content)

  abbrev SameRoot : Storage → Failure → Storage → Type 0
  SameRoot s e t = t.root ≡ s.root

  Grows-put :
      (name content : Text) (s : Storage)
      → not (is_some (lookup name (files_of s.durable_stage))) ≡ true
      → (key found : Text) → lookup key (files_of s.durable_stage) ≡ some found
      → lookup key (put name content (files_of s.durable_stage)) ≡ some found
  Grows-put name content s free key found there =
      ground (arith, text_eq_iff name key, lookup-put name content key (files_of s.durable_stage))

  store-Ensures :
      (database : Database) (s : Storage)
      → Ensures
          (store setup database)
          s
          (λ done t. Grows s t × IsStored (files_of t.durable_stage) database)
          (SameRoot s)
  unfolding store
  store-Ensures database s =
      let Q : Unit {0} → Storage → Type 0 =
        λ done t. Grows s t × IsStored (files_of t.durable_stage) database in
      let R = SameRoot s in
      operate->>= _ s Q R refl (
        from->>= (lookup database.filename (files_of s.stage)) other _ (spend s) Q R (λ e. refl)
          (λ content e.
            check->>= (not (is_some (lookup database.filename (files_of s.durable_stage)))) other _
              (spend s) Q R (λ e'. refl)
              (λ free.
                let t : Storage = record (spend s) {
                  durable_stage =
                      some
                        (put database.filename (setup.transfer content) (files_of s.durable_stage));
                } in
                operate->>= _ t Q R refl (
                  from->>= (lookup database.filename (files_of t.durable_stage)) other _ (spend t) Q
                    R (λ e'. refl)
                    (λ arrived e'.
                      elim (Bool-cases (text_eq (setup.checksum arrived) database.sha256)) [
                        | inl same ↦ rw same (
                          (refl, Grows-put database.filename (setup.transfer content) s free),
                          (arrived, e', same),
                        )
                        | inr differs ↦ rw differs refl
                      ])))))

  IsStored-Grows :
      (s t : Storage) (database : Database)
      → Grows s t
      → IsStored (files_of s.durable_stage) database
      → IsStored (files_of t.durable_stage) database
  IsStored-Grows s t database grows (content, there, same) =
      (content, grows.1 database.filename content there, same)

  Grows-trans : (s t u : Storage) → Grows s t → Grows t u → Grows s u
  Grows-trans s t u a b =
      (b.0 ∙ a.0, (λ key content there. b.1 key content (a.1 key content there)))

  All-Grows :
      (s t : Storage) (databases : List Database)
      → Grows s t
      → All (IsStored (files_of s.durable_stage)) databases
      → All (IsStored (files_of t.durable_stage)) databases
  All-Grows s t [] grows all = tt
  All-Grows s t (database ∷ databases) grows (stored, all) =
      (IsStored-Grows s t database grows stored, All-Grows s t databases grows all)

  store_all-Ensures :
      (databases : List Database) (s : Storage)
      → Ensures
          (store_all setup databases)
          s
          (λ done t. Grows s t × All (IsStored (files_of t.durable_stage)) databases)
          (SameRoot s)
  unfolding store_all
  store_all-Ensures [] s = ((refl, (λ key content there. there)), tt)
  store_all-Ensures (database ∷ databases) s =
      >>=-chain (store setup database) (λ done. store_all setup databases) s
        (λ done t. Grows s t × IsStored (files_of t.durable_stage) database) _ (SameRoot s)
        (store-Ensures database s)
        (λ done t (grows, stored).
          Judge-weaken (store_all setup databases t) _ _ _ _
            (λ done' u (grows', all).
              (Grows-trans s t u grows grows', (IsStored-Grows t u database grows' stored, all)))
            (λ e u same. same ∙ grows.0) (store_all-Ensures databases t))

  -- The directory has the manifest and each of its databases.
  abbrev pub IsComplete : BackupMetadata → Files → Type 0
  IsComplete manifest files =
      (lookup manifest_name files ≡ some (setup.render_json (manifest_json manifest) ++ codes "\n"))
      × All (IsStored files) manifest.databases

  write_manifest-Ensures :
      (manifest : BackupMetadata) (s : Storage)
      → Ensures
          (write_manifest setup manifest)
          s
          (λ done t.
            Grows s t
            × (lookup manifest_name (files_of t.durable_stage)
                ≡ some (setup.render_json (manifest_json manifest) ++ codes "\n")))
          (SameRoot s)
  unfolding write_manifest
  write_manifest-Ensures manifest s = operate->>= _ s _ (SameRoot s) refl (
      check->>= (not (is_some (lookup manifest_name (files_of s.durable_stage)))) other _ (spend s)
        _ (SameRoot s) (λ e. refl)
        (λ free.
          let content = setup.render_json (manifest_json manifest) ++ codes "\n" in
          (
            (refl, Grows-put manifest_name content s free),
            ground (
              arith,
              text_eq_refl manifest_name,
              lookup-put manifest_name content manifest_name (files_of s.durable_stage),
            ),
          )))

  publish-Ensures :
      (id : Text) (s : Storage)
      → Ensures
          (publish setup id)
          s
          (λ done t. t.root ≡ s.root ++ ((id, directory (files_of s.durable_stage)) ∷ []))
          (SameRoot s)
  unfolding publish
  publish-Ensures id s = operate->>= _ s _ (SameRoot s) refl (
      check->>= (not (is_some (find_entry id s.root))) other _ (spend s) _ (SameRoot s) (λ e. refl)
        (λ free. refl))

  make_durable-Ensures :
      (s : Storage) → Ensures make_durable s (λ done t. t.root ≡ s.root) (SameRoot s)
  unfolding make_durable
  make_durable-Ensures s = operate->>= _ s _ (SameRoot s) refl refl

  -- Publishing either leaves the backup root as it was, or adds one directory under the manifest's id,
  -- which has the manifest and each of its databases, and each of these arrived with the digest that the
  -- manifest states. So it is whichever file operation fails and whatever arrives of a file.
  pub publish_set-IsComplete :
      (manifest : BackupMetadata) (s : Storage)
      → Ensures
          (publish_set setup manifest)
          s
          (λ done t.
            (files : Files) × IsComplete manifest files
            × (t.root ≡ s.root ++ ((manifest.backup_id, directory files) ∷ [])))
          (λ e t. t.root ≡ s.root)
  unfolding publish_set
  publish_set-IsComplete manifest s =
      let Q : Unit {0} → Storage → Type 0 = λ done t.
        (files : Files) × IsComplete manifest files
        × (t.root ≡ s.root ++ ((manifest.backup_id, directory files) ∷ [])) in
      let R = SameRoot s in
      operate->>= _ s Q R refl (
        >>=-chain make_durable
          (λ made. store_all setup manifest.databases >>= λ stored.
            write_manifest setup manifest >>= λ written. publish setup manifest.backup_id)
          (spend s) (λ made t. t.root ≡ s.root) Q R (make_durable-Ensures (spend s))
          (λ made t same.
            >>=-chain_with (store_all setup manifest.databases)
              (λ stored.
                write_manifest setup manifest >>= λ written. publish setup manifest.backup_id)
              t _ _ Q R (store_all-Ensures manifest.databases t) (λ e u same'. same' ∙ same)
              (λ stored u (grows, all).
                >>=-chain_with (write_manifest setup manifest)
                  (λ written. publish setup manifest.backup_id) u _ _ Q R
                  (write_manifest-Ensures manifest u) (λ e v same'. same' ∙ (grows.0 ∙ same))
                  (λ written v (grows', there).
                    let still : v.root ≡ s.root = grows'.0 ∙ (grows.0 ∙ same) in
                    Judge-weaken (publish setup manifest.backup_id v) _ _ _ _
                      (λ done w added. (
                        files_of v.durable_stage,
                        (there, All-Grows u v manifest.databases grows' all),
                        added
                            ∙ ap
                                (λ root.
                                  root
                                  ++ ((manifest.backup_id, directory (files_of v.durable_stage))
                                      ∷ []))
                                still,
                      ))
                      (λ e w same'. same' ∙ still) (publish-Ensures manifest.backup_id v)))))
