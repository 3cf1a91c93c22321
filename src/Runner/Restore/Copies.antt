-- ===== src/Runner/Restore/Copies.antt =====
-- Lemmas on the verification, the copies and the promotion of `restore`
-- (codex-runner/src/sqlite-storage.ts).
use artifact_dev_toolkit.Common.{
  ◌≡◌, true, not, some, List, [], ◌∷◌, is_some, arith, length, Bool-cases, inl, inr, All, ◌==◌,
}
use artifact_dev_toolkit.Common.Text.{Text, text_eq, text_eq_iff, text_eq_refl}
use artifact_dev_toolkit.Runner.Files.{Files, lookup}
use artifact_dev_toolkit.Runner.Files.Laws.{lookup-remove, lookup-put}
use artifact_dev_toolkit.Runner.Metadata.{Database}
use artifact_dev_toolkit.Runner.Storage.{
  Setup, Storage, Failure, safe, other, invalid_backup_set, files_of, spend, promote,
}
use artifact_dev_toolkit.Runner.Storage.Triples.{Ensures, Judge-weaken, >>=-chain, >>=-chain_with}
use artifact_dev_toolkit.Runner.Storage.Operations.{
  operate->>=, from->>=, check->>=, promote-Ensures, Promoted, Unmoved,
}
use artifact_dev_toolkit.Runner.Restore.{
  verify_database, verify_all, stage_database, stage_all, promote_all,
}

-- Nothing is said where a step throws.
abbrev pub Anything : Failure → Storage → Type 0
Anything e t = Unit {0}

-- What the staging directory holds comes from these files.
abbrev pub FromFiles : Files → Storage → Type 0
FromFiles files s =
    (key content : Text)
    → lookup key (files_of s.stage) ≡ some content
    → lookup key files ≡ some content

module _ (setup : Setup) where
  -- The file of a database is there with the digest and the size that the manifest states.
  abbrev pub IsVerified : Files → Database → Type 0
  IsVerified files database =
      (content : Text) × (lookup database.filename files ≡ some content)
      × (text_eq (setup.checksum content) database.sha256 ≡ true)
      × ((length content == database.size) ≡ true)

  verify_database-IsVerified :
      (files : Files) (database : Database) (s : Storage)
      → Ensures
          (verify_database setup files database)
          s
          (λ done t. IsVerified files database)
          Anything
  unfolding verify_database
  verify_database-IsVerified files database s =
      let Q : Unit {0} → Storage → Type 0 = λ done t. IsVerified files database in
      operate->>= _ s Q Anything tt (
        from->>= (lookup database.filename files) other _ (spend s) Q Anything (λ e. tt)
          (λ content there.
            check->>= (text_eq (setup.checksum content) database.sha256)
              (safe invalid_backup_set 409) _ (spend s) Q Anything (λ e. tt)
              (λ same.
                operate->>= _ (spend s) Q Anything tt
                  (elim (Bool-cases (length content == database.size)) [
                    | inl sized ↦ rw sized (content, there, same, sized)
                    | inr sized ↦ rw sized tt
                  ]))))

  pub verify_all-IsVerified :
      (files : Files) (databases : List Database) (s : Storage)
      → Ensures
          (verify_all setup files databases)
          s
          (λ done t. All (IsVerified files) databases)
          Anything
  unfolding verify_all
  verify_all-IsVerified files [] s = tt
  verify_all-IsVerified files (database ∷ databases) s =
      >>=-chain (verify_database setup files database) (λ done. verify_all setup files databases) s
        (λ done t. IsVerified files database) _ Anything
        (verify_database-IsVerified files database s)
        (λ done t first.
          Judge-weaken (verify_all setup files databases t) _ _ _ _ (λ done' u rest. (first, rest))
            (λ e u r. tt) (verify_all-IsVerified files databases t))

  stage_database-FromFiles :
      (files : Files) (database : Database) (s : Storage)
      → FromFiles files s
      → Ensures (stage_database setup files database) s (λ done t. FromFiles files t) Anything
  unfolding stage_database
  stage_database-FromFiles files database s from' =
      let Q : Unit {0} → Storage → Type 0 = λ done t. FromFiles files t in
      operate->>= _ s Q Anything tt (
        from->>= (lookup database.filename files) other _ (spend s) Q Anything (λ e. tt)
          (λ content there.
            check->>= (not (is_some (lookup database.filename (files_of s.stage)))) other _
              (spend s) Q Anything (λ e. tt)
              (λ free key found e. ground (
                arith,
                text_eq_iff database.filename key,
                from' key found,
                there,
                lookup-put database.filename content key (files_of s.stage),
              ))))

  pub stage_all-FromFiles :
      (files : Files) (databases : List Database) (s : Storage)
      → FromFiles files s
      → Ensures (stage_all setup files databases) s (λ done t. FromFiles files t) Anything
  unfolding stage_all
  stage_all-FromFiles files [] s from' = from'
  stage_all-FromFiles files (database ∷ databases) s from' =
      >>=-chain (stage_database setup files database) (λ done. stage_all setup files databases) s
        (λ done t. FromFiles files t) _ Anything (stage_database-FromFiles files database s from')
        (λ done t from''. stage_all-FromFiles files databases t from'')

-- The file of a database is at home as it is among these files.
abbrev pub IsPromoted : Files → Files → Database → Type 0
IsPromoted files home database =
    (content : Text) × (lookup database.filename files ≡ some content)
    × (lookup database.filename home ≡ some content)

-- What is at home as it is among these files stays so.
abbrev pub Agrees : Files → Storage → Storage → Type 0
Agrees files s t =
    (key content : Text)
    → lookup key files ≡ some content
    → lookup key s.home ≡ some content
    → lookup key t.home ≡ some content

promote-IsPromoted :
    (files : Files) (name : Text) (s t : Storage)
    → FromFiles files s
    → Promoted name s tt t
    → ((content : Text) × (lookup name files ≡ some content) × (lookup name t.home ≡ some content))
      × Agrees files s t
      × FromFiles files t
promote-IsPromoted files name s t from' (content, there, same) = rw same (
  (
    content,
    from' name content there,
    ground (arith, text_eq_refl name, lookup-put name content name s.home),
  ),
  (λ key found e e'.
      ground (
        arith,
        text_eq_iff name key,
        from' name content there,
        lookup-put name content key s.home,
      )),
  (λ key found e. ground (arith, from' key found, lookup-remove name key (files_of s.stage))),
)

All-Agrees :
    (files : Files) (s t : Storage) (databases : List Database)
    → Agrees files s t
    → All (IsPromoted files s.home) databases
    → All (IsPromoted files t.home) databases
All-Agrees files s t [] agrees h = tt
All-Agrees files s t (database ∷ databases) agrees ((content, there, home), h) = (
  (content, there, agrees database.filename content there home),
  All-Agrees files s t databases agrees h,
)

pub promote_all-IsPromoted :
    (files : Files) (databases : List Database) (s : Storage)
    → FromFiles files s
    → Ensures
        (promote_all databases)
        s
        (λ done t. All (IsPromoted files t.home) databases × Agrees files s t)
        Anything
unfolding promote_all
promote_all-IsPromoted files [] s from' = (tt, (λ key content there home. home))
promote_all-IsPromoted files (database ∷ databases) s from' =
    >>=-chain_with (promote database.filename) (λ done. promote_all databases) s
      (Promoted database.filename s) (Unmoved database.filename s) _ Anything
      (promote-Ensures database.filename s) (λ e t same. tt)
      (λ done t moved.
        let ((content, there, home), agrees, from'') =
          promote-IsPromoted files database.filename s t from' moved in
        Judge-weaken (promote_all databases t) _ _ _ _
          (λ done' u (all, agrees'). (
            ((content, there, agrees' database.filename content there home), all),
            (λ key found e e'. agrees' key found e (agrees key found e e')),
          ))
          (λ e u r. tt) (promote_all-IsPromoted files databases t from''))
