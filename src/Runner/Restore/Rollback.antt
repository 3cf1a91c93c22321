-- ===== src/Runner/Restore/Rollback.antt =====
-- Lemmas on the promotion and the rollback of `restore` (codex-runner/src/sqlite-storage.ts).
use artifact_dev_toolkit.Common.{
  ◌≡◌, refl, ap, sym, ◌∙◌, Bool, true, some, List, [], ◌∷◌, if◌then◌else◌, any, arith, Bool-cases,
  inl, inr,
}
use artifact_dev_toolkit.Common.Text.{Text, text_eq, text_eq_iff, text_eq_refl}
use artifact_dev_toolkit.Runner.Files.{Files, lookup, names, is_database_file}
use artifact_dev_toolkit.Runner.Files.Laws.{lookup-put}
use artifact_dev_toolkit.Runner.Metadata.{Database}
use artifact_dev_toolkit.Runner.Storage.{
  Setup, Storage, Failure, other, files_of, ◌>>=◌, spend, return, catching, remove_safety,
  read_home, read_safety, remove_home, copy_back, promote,
}
use artifact_dev_toolkit.Runner.Storage.Triples.{
  Ensures, Judge-weaken, >>=-chain, >>=-chain_with, recovered-Judge,
}
use artifact_dev_toolkit.Runner.Storage.Operations.{
  Unmoved, CopiedBack, remove_home-Ensures, copy_back-Ensures, promote-Ensures, read_home-Ensures,
  read_safety-Ensures, remove_safety-Ensures, Left,
}
use artifact_dev_toolkit.Runner.Restore.{
  call, promote_all, remove_all, copy_all_back, forget_safety, put_back,
}
use artifact_dev_toolkit.Runner.Restore.SetAside.{Holds, Kept}

-- A step's end where the safety directory is this one.
abbrev Safe : Files → {A : Type 0} → A → Storage → Type 0
Safe safety a t = t.safety ≡ some safety

pub call-Ensures :
    (hook : Files → Bool × Files) (e : Failure) (s : Storage)
    → Ensures
        (call hook e)
        s
        (λ done t. (hook s.home ≡ (true, t.home)) × (t ≡ record s { home = t.home }))
        (λ e' t. t ≡ record s { home = (hook s.home).1 })
call-Ensures hook e s = elim (Bool-cases (hook s.home).0) [
  | inl is ↦ rw is (ground arith, refl)
  | inr is ↦ rw is refl
]

remove_all-Safe :
    (found : List Text) (s : Storage) (safety : Files)
    → s.safety ≡ some safety
    → Ensures (remove_all found) s (λ done t. Safe safety done t) (λ e t. Safe safety e t)
unfolding remove_all
remove_all-Safe [] s safety is = is
remove_all-Safe (name ∷ rest) s safety is =
    >>=-chain (if is_database_file name then remove_home name else return tt)
      (λ done. remove_all rest) s (λ done t. Safe safety done t) _ _
      (elim (Bool-cases (is_database_file name)) [
        | inl e ↦ rw e (
            Judge-weaken (remove_home name s) _ _ _ _
              (λ done t same. ap (λ (u : Storage). u.safety) same ∙ is)
              (λ thrown t same. ap (λ (u : Storage). u.safety) same ∙ is)
              (remove_home-Ensures name s))
        | inr e ↦ rw e is
      ])
      (λ done t is'. remove_all-Safe rest t safety is')

-- The databases are set aside in this safety directory.
abbrev pub Aside : Files → Storage → Type 0
Aside safety t = (t.safety ≡ some safety) × (t.moved_current ≡ true)

pub promote_all-Aside :
    (databases : List Database) (s : Storage) (safety : Files)
    → Aside safety s
    → Ensures (promote_all databases) s (λ done t. Aside safety t) (λ e t. Aside safety t)
unfolding promote_all
promote_all-Aside [] s safety is = is
promote_all-Aside (database ∷ databases) s safety is =
    >>=-chain (promote database.filename) (λ done. promote_all databases) s
      (λ done t. Aside safety t) _ _
      (Judge-weaken (promote database.filename s) _ _ _ _ (λ done t moved. ground (arith, moved.2))
        (λ thrown t same. ground (arith, same)) (promote-Ensures database.filename s))
      (λ done t is'. promote_all-Aside databases t safety is')

-- The names that were copied: each file is at home as it is in the safety directory.
abbrev Copied : List Text → Files → Storage → Type 0
Copied kept safety t =
    (key : Text) → any (text_eq key) kept ≡ true → lookup key t.home ≡ lookup key safety

-- A file that is at home is not overwritten.
abbrev Stays : Storage → Storage → Type 0
Stays s t =
    (key : Text) (content : Text)
    → lookup key s.home ≡ some content
    → lookup key t.home ≡ some content

CopiedBack-Stays : (name : Text) (s t : Storage) → CopiedBack name s tt t → Stays s t
CopiedBack-Stays name s t (content, kept, free, same) key found there =
    rw same (ground (arith, text_eq_iff name key, lookup-put name content key s.home))

CopiedBack-there :
    (name : Text) (s t : Storage) (copied : CopiedBack name s tt t)
    → lookup name t.home ≡ some copied.0
CopiedBack-there name s t (content, kept, free, same) =
    rw same (ground (arith, text_eq_refl name, lookup-put name content name s.home))

copy_all_back-Copied :
    (kept : List Text) (s : Storage) (safety : Files)
    → s.safety ≡ some safety
    → Ensures
        (copy_all_back kept)
        s
        (λ done t. Safe safety done t × Copied kept safety t × Stays s t)
        (λ e t. Safe safety e t)
unfolding copy_all_back
copy_all_back-Copied [] s safety is = (is, (λ key there. absurd (cc)), (λ key content there. there))
copy_all_back-Copied (name ∷ rest) s safety is =
    >>=-chain_with (copy_back name) (λ done. copy_all_back rest) s (CopiedBack name s)
      (Unmoved name s) _ _ (copy_back-Ensures name s)
      (λ thrown t same. ap (λ (u : Storage). u.safety) same ∙ is)
      (λ done t copied.
        Judge-weaken (copy_all_back rest t) _ _ _ _
          (λ done' u (safe', all', stays). (
            safe',
            (λ key there. ground (
              arith,
              text_eq_iff key name,
              all' key,
              copied.1,
              is,
              stays name copied.0 (CopiedBack-there name s t copied),
            )),
            (λ key content there.
                stays key content (CopiedBack-Stays name s t copied key content there)),
          ))
          (λ e u safe'. safe')
          (copy_all_back-Copied rest t safety (ap (λ (u : Storage). u.safety) copied.3 ∙ is)))

lookup-names :
    (key content : Text) (files : Files)
    → lookup key files ≡ some content
    → any (text_eq key) (names files) ≡ true
unfolding lookup
lookup-names key content [] there = absurd (ground arith)
lookup-names key content ((name, found) ∷ files) there =
    ground (arith, text_eq_iff key name, text_eq_iff name key, lookup-names key content files)

module _ (setup : Setup) (original : Files) where
  -- A rollback has started the App Server on every database as it was.
  abbrev pub Restarted : Storage → Type 0
  Restarted t = (files : Files) × Holds original files × (setup.ready_second files ≡ (true, t.home))

  pub Kept-safety :
      (safety : Files) (t : Storage)
      → Holds original safety
      → t.safety ≡ some safety
      → Kept original t
  Kept-safety safety t holds is key content named there =
      inr (ground (arith, holds key content named there))

  safety_of :
      (s t : Storage) (safety : Files)
      → t ≡ spend s
      → s.safety ≡ some safety
      → t.safety ≡ some safety
  safety_of s t safety same is = ap (λ (u : Storage). u.safety) same ∙ is

  catching-Safe :
      (s : Storage) (safety : Files)
      → s.safety ≡ some safety
      → Ensures
          (catching [] read_home)
          s
          (λ found t. t.safety ≡ some safety)
          (λ e t. Kept original t)
  catching-Safe s safety is = recovered-Judge [] (read_home s) _ _ (
      Judge-weaken (read_home s) _ _ _ _ (λ found t same. safety_of s t safety same.1 is)
        (λ e t same. safety_of s t safety same is) (read_home-Ensures s))

  pub Left-safety :
      (s t : Storage) (safety : Files)
      → ((files : Files) → setup.leftover files ≡ files)
      → Left setup s other t
      → s.safety ≡ some safety
      → t.safety ≡ some safety
  Left-safety s t safety whole left is = ground (arith, left, is, whole (files_of s.safety))

  start-Ensures :
      (s : Storage) (safety : Files)
      → ((files : Files) → setup.leftover files ≡ files)
      → s.safety ≡ some safety
      → Holds original safety
      → Holds original s.home
      → Ensures
          (call setup.ready_second other >>= λ ready.
            remove_safety setup >>= λ removed. forget_safety)
          s
          (λ done t. Restarted t)
          (λ e t. Kept original t)
  start-Ensures s safety whole is holds back =
      let Q : Unit {0} → Storage → Type 0 = λ done t. Restarted t in
      let R : Failure → Storage → Type 0 = λ e t. Kept original t in
      >>=-chain_with (call setup.ready_second other)
        (λ ready. remove_safety setup >>= λ removed. forget_safety) s _ _ Q R
        (call-Ensures setup.ready_second other s)
        (λ e t same. Kept-safety safety t holds (ap (λ (u : Storage). u.safety) same ∙ is))
        (λ ready t (started, same).
          >>=-chain_with (remove_safety setup) (λ removed. forget_safety) t _ _ Q R
            (remove_safety-Ensures setup t)
            (λ e u left.
              Kept-safety safety u holds
                (Left-safety t u safety whole left (ap (λ (w : Storage). w.safety) same ∙ is)))
            (λ removed u cleared.
              (s.home, back, started ∙ ap (λ (w : Storage). (true, w.home)) (sym cleared))))

  pub put_back-Ensures :
      (s : Storage) (safety : Files)
      → ((files : Files) → setup.leftover files ≡ files)
      → s.safety ≡ some safety
      → Holds original safety
      → Ensures (put_back setup) s (λ done t. Restarted t) (λ e t. Kept original t)
  unfolding put_back
  put_back-Ensures s safety whole is holds =
      let Q : Unit {0} → Storage → Type 0 = λ done t. Restarted t in
      let R : Failure → Storage → Type 0 = λ e t. Kept original t in
      >>=-chain (catching [] read_home)
        (λ found. remove_all found >>= λ cleared. read_safety >>= λ kept.
          copy_all_back kept >>= λ copied. call setup.ready_second other >>= λ ready.
          remove_safety setup >>= λ removed. forget_safety)
        s (λ found t. t.safety ≡ some safety) Q R (catching-Safe s safety is)
        (λ found t is1.
          >>=-chain_with (remove_all found)
            (λ cleared. read_safety >>= λ kept. copy_all_back kept >>= λ copied.
              call setup.ready_second other >>= λ ready.
              remove_safety setup >>= λ removed. forget_safety)
            t _ _ Q R (remove_all-Safe found t safety is1)
            (λ e u is2. Kept-safety safety u holds is2)
            (λ cleared u is2.
              >>=-chain_with read_safety
                (λ kept. copy_all_back kept >>= λ copied. call setup.ready_second other >>= λ ready.
                  remove_safety setup >>= λ removed. forget_safety)
                u _ _ Q R (read_safety-Ensures u)
                (λ e v same. Kept-safety safety v holds (safety_of u v safety same is2))
                (λ kept v (named, same).
                  >>=-chain_with (copy_all_back kept)
                    (λ copied. call setup.ready_second other >>= λ ready.
                      remove_safety setup >>= λ removed. forget_safety)
                    v _ _ Q R (copy_all_back-Copied kept v safety (safety_of u v safety same is2))
                    (λ e w is3. Kept-safety safety w holds is3)
                    (λ copied w (is3, all, stays).
                      start-Ensures w safety whole is3 holds (λ key content name there.
                        all key (
                          ground (
                            arith,
                            named,
                            is2,
                            lookup-names key content safety (holds key content name there),
                          ))
                        ∙ holds key content name there)))))
