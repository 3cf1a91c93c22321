-- ===== src/Library/Contract/Unique.antt =====
-- The checks of ids and paths of lib/artifact-contract.ts.
use artifact_dev_toolkit.Common.{
  ◌≡◌, ◌↔◌, refl, Bool, true, false, not, none, some, List, [], ◌∷◌, length, all, any, map, All,
  arith, ltb, ok,
}
use artifact_dev_toolkit.Common.Text.{Text, text_eq, text_eq_iff, is_truthy, split, split_from}
use artifact_dev_toolkit.Library.Layout.{
  canonical, normalize_path, is_safe_segment, safe_segments, classify_artifact_path,
}
use artifact_dev_toolkit.Library.Contract.{
  Artifact, seen_path, unique_from, validate_unique_artifact_ids, validate_artifact_path,
}

-- No artifact has one of the ids, and no two have the same.
abbrev pub Fresh : List Text → List Artifact → Type 0
Fresh used [] = Unit
Fresh used (artifact ∷ artifacts) =
    (any (text_eq artifact.metadata.id) used ≡ false)
    × Fresh (artifact.metadata.id ∷ used) artifacts

abbrev ids : List (Text × Text) → List Text
ids seen = map (λ entry. entry.0) seen

seen_path-any :
    (id : Text) (seen : List (Text × Text))
    → All (λ entry. is_truthy entry.1 ≡ true) seen
    → is_truthy (seen_path id seen) ≡ any (text_eq id) (ids seen)
unfolding seen_path
seen_path-any id [] h = refl
seen_path-any id ((other, path) ∷ seen) h =
    ground (arith, text_eq_iff id other, text_eq_iff other id, seen_path-any id seen h.1)

unique_from_iff :
    (seen : List (Text × Text)) (artifacts : List Artifact)
    → All (λ entry. is_truthy entry.1 ≡ true) seen
    → All (λ (artifact : Artifact). is_truthy artifact.path ≡ true) artifacts
    → (unique_from seen artifacts ≡ ok tt) ↔ Fresh (ids seen) artifacts
unfolding unique_from
unique_from_iff seen [] h p = (λ e. tt, λ e. refl)
unique_from_iff seen (artifact ∷ artifacts) h p = ground (
  arith,
  seen_path-any artifact.metadata.id seen h,
  unique_from_iff ((artifact.metadata.id, artifact.path) ∷ seen) artifacts (p.0, h) p.1,
)

-- Where every artifact has a path, the check of the ids succeeds exactly when no two artifacts share
-- one.
pub validate_unique_artifact_ids_iff :
    (artifacts : List Artifact)
    → All (λ (artifact : Artifact). is_truthy artifact.path ≡ true) artifacts
    → (validate_unique_artifact_ids artifacts ≡ ok tt) ↔ Fresh [] artifacts
unfolding validate_unique_artifact_ids
validate_unique_artifact_ids_iff artifacts p = unique_from_iff [] artifacts tt p

any-not : (p : Text → Bool) (xs : List Text) → any (λ x. not (p x)) xs ≡ not (all p xs)
any-not p [] = refl
any-not p (x ∷ xs) = ground (arith, any-not p xs)

split_empty : (s : Text) → is_truthy s ≡ false → all is_safe_segment (split b'/' s) ≡ false
unfolding split split_from is_safe_segment
split_empty [] h = refl
split_empty (c ∷ s) h = absurd (cc)

-- The two checks of a path agree: a path is classified exactly when the validation has no complaint
-- and the path has a directory and a file.
pub classify_artifact_path-validate_artifact_path_iff :
    (path : Text)
    → (classify_artifact_path path ≡ some canonical) ↔ (
        (validate_artifact_path path ≡ none)
        × (ltb 1 (length (split b'/' (normalize_path path))) ≡ true))
unfolding classify_artifact_path safe_segments validate_artifact_path
classify_artifact_path-validate_artifact_path_iff path = ground (
  arith,
  any-not is_safe_segment (split b'/' (normalize_path path)),
  split_empty (normalize_path path),
)
