-- ===== src/Runner/Restore/Reads.antt =====
-- Lemmas on the reading of a backup and its manifest in codex-runner/src/sqlite-storage.ts.
use artifact_dev_toolkit.Common.{
  ◌≡◌, refl, subst, ◌∙◌, not, Option, none, some, List, Bool-cases, inl, inr, Result, ok, err,
}
use artifact_dev_toolkit.Common.Text.{Text}
use artifact_dev_toolkit.Common.Json.{Json}
use artifact_dev_toolkit.Runner.Files.{Files, lookup, is_backup_id}
use artifact_dev_toolkit.Runner.Metadata.{BackupMetadata, InvalidBackup, parse_backup_metadata}
use artifact_dev_toolkit.Runner.Storage.{
  Setup, Storage, Step, Outcome, Entry, Failure, ◌>>=◌, return, operate, check, from, fails_next,
  safe, other, invalid_backup_id, invalid_backup_set, backup_not_found,
}
use artifact_dev_toolkit.Runner.Storage.Triples.{Ensures, Judge, Judge-weaken, >>=-chain}
use artifact_dev_toolkit.Runner.Storage.Quiet.{IsQuiet, check-IsQuiet, operate-IsQuiet}
use artifact_dev_toolkit.Runner.Backups.{
  find_entry, directory_of, read_directory, safe_backup_directory, manifest_name, parse, read_raw,
  has_schema, is_null,
}
use artifact_dev_toolkit.Runner.Restore.{read_manifest}
use artifact_dev_toolkit.Runner.Restore.Copies.{Anything}

pub Judge-Anything : {A : Type 0} (o : Outcome A) → Judge o (λ a t. Unit {0}) Anything
Judge-Anything (ok a, t) = tt
Judge-Anything (err e, t) = tt

Judge-root :
    {A : Type 0} (o : Outcome A) (s : Storage)
    → o.1.root ≡ s.root
    → Judge o (λ a t. t.root ≡ s.root) Anything
Judge-root (ok a, t) s same = same
Judge-root (err e, t) s same = tt

-- A quiet step leaves the root as it is.
pub IsQuiet-root :
    {A : Type 0} (m : Step A)
    → IsQuiet m
    → (s : Storage) → Ensures m s (λ a t. t.root ≡ s.root) Anything
IsQuiet-root m q s = Judge-root (m s) s (q.quiet s).root

from-some :
    {A : Type 0} (o : Option A) (e : Failure) (s : Storage)
    → Ensures (from o e) s (λ a t. o ≡ some a) Anything
from-some none e s = tt
from-some (some a) e s = refl

-- What an entry of the root that was found tells of the root.
abbrev IsFound : List (Text × Entry) → Text → Option Files → Type 0
IsFound root id entry =
    (files : Files) → entry ≡ some files → directory_of (find_entry id root) ≡ some files

read_directory-IsFound :
    (id : Text) (s : Storage)
    → Ensures (read_directory id) s (λ entry t. IsFound s.root id entry) Anything
unfolding read_directory operate
read_directory-IsFound id s = elim (Bool-cases (fails_next s.outages)) [
  | inl e ↦ simp e (λ files h. absurd (cc))
  | inr e ↦ simp e (λ files h. h)
]

pub safe_backup_directory-found :
    (id : Text) (s : Storage)
    → Ensures
        (safe_backup_directory id)
        s
        (λ files t. directory_of (find_entry id s.root) ≡ some files)
        Anything
unfolding safe_backup_directory
safe_backup_directory-found id s =
    let Q : Files → Storage → Type 0 =
      λ files t. directory_of (find_entry id s.root) ≡ some files in
    let resolve : Option Files → Step Files = λ entry.
      from entry (safe backup_not_found 404) >>= λ files. operate >>= λ resolved. return files in
    >>=-chain (check (is_backup_id id) (safe invalid_backup_id 400))
      (λ valid. operate >>= λ root. read_directory id >>= resolve) s _ Q Anything
      (IsQuiet-root _ (check-IsQuiet (is_backup_id id) (safe invalid_backup_id 400)) s)
      (λ valid t same.
        >>=-chain operate (λ root. read_directory id >>= resolve) t _ Q Anything
          (IsQuiet-root operate operate-IsQuiet t)
          (λ root u same'.
            >>=-chain (read_directory id) resolve u _ Q Anything (read_directory-IsFound id u)
              (λ entry v found.
                >>=-chain (from entry (safe backup_not_found 404))
                  (λ files. operate >>= λ resolved. return files) v _ Q Anything
                  (from-some entry (safe backup_not_found 404) v)
                  (λ files w is.
                    >>=-chain operate (λ resolved. return files) w (λ done x. Unit {0}) Q Anything
                      (Judge-Anything (operate w))
                      (λ done x r.
                        subst (λ root. directory_of (find_entry id root) ≡ some files)
                          (same' ∙ same) (found files is))))))

parsed-ok :
    (r : Result InvalidBackup BackupMetadata) (s : Storage)
    → Judge
        (elim r [ err e ↦ err other | ok metadata ↦ ok metadata ], s)
        (λ manifest t. r ≡ ok manifest)
        Anything
parsed-ok (err e) s = tt
parsed-ok (ok metadata) s = refl

module _ (setup : Setup) where
  -- The manifest of the files parses to this metadata, under this id.
  abbrev pub IsManifest : Text → Files → BackupMetadata → Type 0
  IsManifest id files manifest =
      (content : Text) × (raw : Json) × (lookup manifest_name files ≡ some content)
      × (setup.parse_json content ≡ some raw)
      × (parse_backup_metadata setup.to_text setup.is_time raw (some id) ≡ ok manifest)

  abbrev IsRaw : Files → Json → Type 0
  IsRaw files raw =
      (content : Text) × (lookup manifest_name files ≡ some content)
      × (setup.parse_json content ≡ some raw)

  read_raw-IsRaw :
      (files : Files) (s : Storage)
      → Ensures (read_raw setup files) s (λ raw t. IsRaw files raw) Anything
  unfolding read_raw
  read_raw-IsRaw files s =
      let Q : Json → Storage → Type 0 = λ raw t. IsRaw files raw in
      let present : Json → Step Json =
        λ raw. check (not (is_null raw)) other >>= λ present. return raw in
      >>=-chain operate
        (λ done. from (lookup manifest_name files) other >>= λ content.
          from (setup.parse_json content) other >>= present)
        s (λ done t. Unit {0}) Q Anything (Judge-Anything (operate s))
        (λ done t r.
          >>=-chain (from (lookup manifest_name files) other)
            (λ content. from (setup.parse_json content) other >>= present) t _ Q Anything
            (from-some (lookup manifest_name files) other t)
            (λ content u there.
              >>=-chain (from (setup.parse_json content) other) present u _ Q Anything
                (from-some (setup.parse_json content) other u)
                (λ raw v parsed.
                  >>=-chain (check (not (is_null raw)) other) (λ present. return raw) v
                    (λ done w. Unit {0}) Q Anything
                    (Judge-Anything (check (not (is_null raw)) other v))
                    (λ done w r'. (content, there, parsed)))))

  parse-ok :
      (raw : Json) (id : Text) (s : Storage)
      → Ensures
          (parse setup raw id)
          s
          (λ manifest t.
            parse_backup_metadata setup.to_text setup.is_time raw (some id) ≡ ok manifest)
          Anything
  unfolding parse
  parse-ok raw id s = parsed-ok (parse_backup_metadata setup.to_text setup.is_time raw (some id)) s

  pub read_manifest-IsManifest :
      (id : Text) (files : Files) (s : Storage)
      → Ensures
          (read_manifest setup id files)
          s
          (λ manifest t. IsManifest id files manifest)
          Anything
  unfolding read_manifest
  read_manifest-IsManifest id files s =
      let Q : BackupMetadata → Storage → Type 0 = λ manifest t. IsManifest id files manifest in
      >>=-chain (read_raw setup files)
        (λ raw. check (has_schema setup raw) (safe invalid_backup_set 409) >>= λ known.
          parse setup raw id)
        s _ Q Anything (read_raw-IsRaw files s)
        (λ raw t (content, there, parsed).
          >>=-chain (check (has_schema setup raw) (safe invalid_backup_set 409))
            (λ known. parse setup raw id) t (λ done u. Unit {0}) Q Anything
            (Judge-Anything (check (has_schema setup raw) (safe invalid_backup_set 409) t))
            (λ known u r.
              Judge-weaken (parse setup raw id u) _ _ _ _
                (λ manifest v is. (content, raw, there, parsed, is)) (λ e v r'. tt)
                (parse-ok raw id u)))
