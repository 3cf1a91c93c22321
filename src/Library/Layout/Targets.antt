-- ===== src/Library/Layout/Targets.antt =====
-- The write targets of lib/repository-layout.ts.
use mathlib.Core.List.{append_cancel_right}
use artifact_dev_toolkit.Common.{
  ℕ, ◌≡◌, refl, ap, true, false, none, some, ◌⊎◌, List, [], ◌∷◌, ◌++◌, arith, Bool-cases, inl, inr,
}
use artifact_dev_toolkit.Common.Text.{Text, codes, text_eq, ends_with}
use artifact_dev_toolkit.Common.Text.Laws.{ends_with-append}
use artifact_dev_toolkit.Library.Layout.{
  ArtifactType, prompt, snippet, template, app_idea, directory_of, is_slug, is_safe_segment,
  canonical, in_library, safe_segments, classify_artifact_path, is_supported_artifact_path,
  canonical_artifact_write_path,
}
use artifact_dev_toolkit.Library.Layout.Paths.{
  write_path, file_name-Plain, is_safe_file_name, normalize_path-write_path, split-write_path,
  replace_all-write_path,
}

ends_with-write_path :
    (type : ArtifactType) (id : Text)
    → ends_with (write_path type (id ++ codes ".md")) (codes ".md") ≡ true
ends_with-write_path prompt id = ends_with-append (codes "prompts/" ++ id) (codes ".md")
ends_with-write_path snippet id = ends_with-append (codes "snippets/" ++ id) (codes ".md")
ends_with-write_path template id = ends_with-append (codes "templates/" ++ id) (codes ".md")
ends_with-write_path app_idea id = ends_with-append (codes "app-ideas/" ++ id) (codes ".md")

is_safe_directory : (type : ArtifactType) → is_safe_segment (directory_of type) ≡ true
unfolding is_safe_segment text_eq
is_safe_directory prompt = refl
is_safe_directory snippet = refl
is_safe_directory template = refl
is_safe_directory app_idea = refl

in_library-directory_of :
    (type : ArtifactType) (rest : Text) → in_library (directory_of type ∷ rest ∷ []) ≡ true
unfolding in_library text_eq
in_library-directory_of prompt rest = refl
in_library-directory_of snippet rest = refl
in_library-directory_of template rest = refl
in_library-directory_of app_idea rest = refl

abbrev segments_of : ArtifactType → Text → List Text
segments_of type id = directory_of type ∷ (id ++ codes ".md") ∷ []

safe_segments-write_path :
    (type : ArtifactType) (id : Text)
    → is_slug id ≡ true
    → safe_segments (write_path type (id ++ codes ".md")) ≡ some (segments_of type id)
unfolding safe_segments
safe_segments-write_path type id h = rw (
  normalize_path-write_path _ (file_name-Plain id h) type,
  split-write_path _ (file_name-Plain id h) type,
  is_safe_file_name id h,
  is_safe_directory type,
)

classify-write_path :
    (type : ArtifactType) (id : Text)
    → is_slug id ≡ true
    → classify_artifact_path (write_path type (id ++ codes ".md")) ≡ some canonical
unfolding classify_artifact_path
classify-write_path type id h =
    ground
      (arith, safe_segments-write_path type id h, in_library-directory_of type (id ++ codes ".md"))

is_supported-write_path :
    (type : ArtifactType) (id : Text)
    → is_slug id ≡ true
    → is_supported_artifact_path (write_path type (id ++ codes ".md")) ≡ true
unfolding is_supported_artifact_path
is_supported-write_path type id h = rw (
  classify-write_path type id h,
  replace_all-write_path _ (file_name-Plain id h) type,
  ends_with-write_path type id,
)

-- An id that is a slug has a write target, a relative path of two safe segments, the directory of the
-- type and the file, which `isSupportedArtifactPath` accepts; any other id has none.
pub canonical_artifact_write_path-supported :
    (type : ArtifactType) (id : Text)
    → ((is_slug id ≡ true)
        × ((path : Text) × (canonical_artifact_write_path type id ≡ some path)
            × (safe_segments path ≡ some (segments_of type id))
            × (is_supported_artifact_path path ≡ true)))
      ⊎ ((is_slug id ≡ false) × (canonical_artifact_write_path type id ≡ none))
unfolding canonical_artifact_write_path
canonical_artifact_write_path-supported type id = elim (Bool-cases (is_slug id)) [
  | inl h ↦ inl (
    h,
    (
      write_path type (id ++ codes ".md"),
      ground arith,
      safe_segments-write_path type id h,
      is_supported-write_path type id h,
    ),
  )
  | inr h ↦ inr (h, ground arith)
]

same_file : (id id' : Text) → id ++ codes ".md" ≡ id' ++ codes ".md" → id ≡ id'
same_file id id' e = append_cancel_right id id' (codes ".md") e

-- The four directories differ in their first letter.
abbrev first : Text → ℕ
first [] = 0
first (c ∷ s) = c

write_path_inj :
    (t t' : ArtifactType) (f f' : Text) → write_path t f ≡ write_path t' f' → (t ≡ t') × (f ≡ f')
write_path_inj prompt prompt f f' e = (refl, cc)
write_path_inj snippet snippet f f' e = (refl, cc)
write_path_inj template template f f' e = (refl, cc)
write_path_inj app_idea app_idea f f' e = (refl, cc)
write_path_inj t t' f f' e = absurd (omega (arith, ap first e))

-- Two artifacts share a write target only if they have the same type and the same id.
pub canonical_artifact_write_path-injective :
    (t t' : ArtifactType) (id id' path : Text)
    → canonical_artifact_write_path t id ≡ some path
    → canonical_artifact_write_path t' id' ≡ some path
    → (t ≡ t') × (id ≡ id')
unfolding canonical_artifact_write_path
canonical_artifact_write_path-injective t t' id id' path e e' =
    let (same_type, same) =
      write_path_inj t t' (id ++ codes ".md") (id' ++ codes ".md") (ground arith) in
    (same_type, same_file id id' same)
