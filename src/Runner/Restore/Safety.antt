-- ===== src/Runner/Restore/Safety.antt =====
-- Lemmas on the databases of the home between the stop of the App Server and the end of the
-- installation, for `restore` of codex-runner/src/sqlite-storage.ts.
use artifact_dev_toolkit.Common.{
  ◌≡◌, refl, ap, sym, ◌∙◌, true, false, some, List, [], ◌∷◌, any, arith, filter, inl,
}
use artifact_dev_toolkit.Common.Text.{Text, text_eq, text_eq_iff}
use artifact_dev_toolkit.Runner.Files.{Files, lookup, names, is_database_file}
use artifact_dev_toolkit.Runner.Metadata.{BackupMetadata}
use artifact_dev_toolkit.Runner.Storage.{
  Setup, Storage, Step, Failure, safe, other, app_server_shutdown_unconfirmed, ◌>>=◌, modify,
  return, remove_safety, read_home, make_safety,
}
use artifact_dev_toolkit.Runner.Storage.Triples.{Ensures, >>=-chain, >>=-chain_with}
use artifact_dev_toolkit.Runner.Storage.Operations.{
  read_home-Ensures, make_safety-Ensures, remove_safety-Ensures,
}
use artifact_dev_toolkit.Runner.Restore.{
  Restored, call, promote_all, forget_safety, install, set_aside, move_current,
}
use artifact_dev_toolkit.Runner.Restore.SetAside.{
  Holds, Recovering, Intact, Secured, move_current-Ensures,
}
use artifact_dev_toolkit.Runner.Restore.Rollback.{
  Restarted, Aside, Left-safety, call-Ensures, promote_all-Aside,
}

any-names :
    (key content : Text) (files : Files)
    → is_database_file key ≡ true
    → lookup key files ≡ some content
    → any (text_eq key) (filter is_database_file (names files)) ≡ true
unfolding lookup
any-names key content [] named there = absurd (ground arith)
any-names key content ((name, found) ∷ files) named there =
    ground (arith, text_eq_iff key name, text_eq_iff name key, any-names key content files named)

module _ (setup : Setup) (original : Files) where
  -- The databases are set aside, each as it was.
  abbrev pub Suspended : Storage → Type 0
  Suspended t = (safety : Files) × Aside safety t × Holds original safety

  -- No database is lost.
  pub data Preserved (t : Storage) : Type 0 where
    untouched : Holds original t.home → Preserved t
    recovering : Recovering original t → Preserved t
    restarted : Restarted setup original t → Preserved t

  Holds-Intact : (t : Storage) → t.home ≡ original → t.moved_current ≡ false → Intact original t
  Holds-Intact t home unmoved =
      (unmoved, inl (λ key content named there. ground (arith, home, there)))

  set_aside-moves :
      (v : Storage) (found : List Text)
      → v.home ≡ original
      → v.safety ≡ some []
      → found ≡ names v.home
      → v.moved_current ≡ false
      → Ensures
          (move_current setup [] (filter is_database_file found) >>= λ moved.
            modify (λ s. record s { moved_current = true }))
          v
          (λ done t. Suspended t)
          (λ e t. Intact original t)
  unfolding lookup
  set_aside-moves v found home safety listed unmoved =
      >>=-chain (move_current setup [] (filter is_database_file found))
        (λ moved. modify (λ s. record s { moved_current = true })) v
        (λ done t. Secured original setup t) (λ done t. Suspended t) (λ e t. Intact original t)
        (move_current-Ensures original setup [] (filter is_database_file found) v [] safety
          (λ key. inl (ground (arith, home), ground (arith, safety)))
          (λ key content there. absurd (ground (arith, safety)))
          (λ key content named there.
            ground (arith, listed, any-names key content v.home named there))
          unmoved)
        (λ done t (kept, is, holds). (kept, (is, refl), holds))

  pub set_aside-Ensures :
      (s : Storage)
      → original ≡ (setup.close_first s.home).1
      → s.moved_current ≡ false
      → Ensures (set_aside setup) s (λ done t. Suspended t) (λ e t. Intact original t)
  unfolding set_aside
  set_aside-Ensures s is unmoved =
      let Q : Unit {0} → Storage → Type 0 = λ done t. Suspended t in
      let R : Failure → Storage → Type 0 = λ e t. Intact original t in
      let move : List Text → Step (Unit {0}) = λ found.
        move_current setup [] (filter is_database_file found) >>= λ moved.
        modify (λ s. record s { moved_current = true }) in
      >>=-chain_with (call setup.close_first (safe app_server_shutdown_unconfirmed 503))
        (λ closed. make_safety >>= λ made. read_home >>= λ found. move found) s _ _ Q R
        (call-Ensures setup.close_first (safe app_server_shutdown_unconfirmed 503) s)
        (λ e t same.
          Holds-Intact t (ap (λ (u : Storage). u.home) same ∙ sym is)
            (ap (λ (u : Storage). u.moved_current) same ∙ unmoved))
        (λ closed t (stopped, same).
          let home : t.home ≡ original = ap (λ p. p.1) (sym stopped) ∙ sym is in
          let still : t.moved_current ≡ false =
            ap (λ (u : Storage). u.moved_current) same ∙ unmoved in
          >>=-chain_with make_safety (λ made. read_home >>= λ found. move found) t _ _ Q R
            (make_safety-Ensures t)
            (λ e u alike.
              Holds-Intact u (ap (λ (u : Storage). u.home) alike ∙ home)
                (ap (λ (u : Storage). u.moved_current) alike ∙ still))
            (λ made u alike.
              let home' : u.home ≡ original = ap (λ (u : Storage). u.home) alike ∙ home in
              let still' : u.moved_current ≡ false =
                ap (λ (u : Storage). u.moved_current) alike ∙ still in
              >>=-chain_with read_home move u _ _ Q R (read_home-Ensures u)
                (λ e v alike'.
                  Holds-Intact v (ap (λ (u : Storage). u.home) alike' ∙ home')
                    (ap (λ (u : Storage). u.moved_current) alike' ∙ still'))
                (λ found v (listed, alike').
                  set_aside-moves v found (ap (λ (u : Storage). u.home) alike' ∙ home')
                    (ap (λ (u : Storage). u.safety) alike' ∙ ap (λ (u : Storage). u.safety) alike)
                    (listed ∙ ap (λ (u : Storage). names u.home) (sym alike'))
                    (ap (λ (u : Storage). u.moved_current) alike' ∙ still'))))

  pub install-Ensures :
      (selected : Text) (manifest : BackupMetadata) (s : Storage)
      → ((files : Files) → setup.leftover files ≡ files)
      → Suspended s
      → Ensures (install setup selected manifest) s (λ done t. Unit {0}) (λ e t. Suspended t)
  unfolding install
  install-Ensures selected manifest s whole (safety, aside, holds) =
      let Q : Restored → Storage → Type 0 = λ done t. Unit {0} in
      let R : Failure → Storage → Type 0 = λ e t. Suspended t in
      let restored : Restored = record { backup_id = selected; rollback_occurred = false } in
      >>=-chain_with (promote_all manifest.databases)
        (λ promoted. call setup.ready_first other >>= λ ready.
          remove_safety setup >>= λ removed. forget_safety >>= λ done. return restored)
        s _ _ Q R (promote_all-Aside manifest.databases s safety aside)
        (λ e t aside'. (safety, aside', holds))
        (λ promoted t aside'.
          >>=-chain_with (call setup.ready_first other)
            (λ ready. remove_safety setup >>= λ removed. forget_safety >>= λ done. return restored)
            t _ _ Q R (call-Ensures setup.ready_first other t)
            (λ e u same. (safety, ground (arith, same, aside'), holds))
            (λ ready u (started, same).
              >>=-chain_with (remove_safety setup)
                (λ removed. forget_safety >>= λ done. return restored) u _ _ Q R
                (remove_safety-Ensures setup u)
                (λ e v left. (
                  safety,
                  (
                    Left-safety setup original u v safety whole left (ground (arith, same, aside')),
                    ground (arith, left, same, aside'),
                  ),
                  holds,
                ))
                (λ removed v cleared. tt)))
