-- ===== src/Library/Report.antt =====
-- The report of `diagnoseCatalogue` in lib/artifact-repository.ts: the findings on the candidates of a
-- tree, with their places, and what is counted and shown of them.
pub mod Counts
use artifact_dev_toolkit.Common.{
  ℕ, zero, suc, ◌-◌, Bool, true, false, ◌||◌, Option, none, some, List, [], ◌∷◌, ◌++◌, length, any,
  filter, map, ltb, ◌==◌, if◌then◌else◌, Result, ok, err,
}
use artifact_dev_toolkit.Common.Text.{Text, codes, text_eq}
use artifact_dev_toolkit.Library.Contract.{
  Artifact, ParseErrorCode, invalid_metadata, max_serialized_artifact_bytes, unique,
}
use artifact_dev_toolkit.Library.Requests.{
  RepositoryError, unavailable, access_denied, blob_diagnostic, BlobProblem,
}

pub data DiagnosticCode : Type 0 where
  invalid_path : DiagnosticCode
  missing_sha : DiagnosticCode
  of_blob : BlobProblem → DiagnosticCode
  of_parser : ParseErrorCode → DiagnosticCode
  duplicate_id : DiagnosticCode

pub record ArtifactValidationDiagnostic : Type 0 where
  pub path : Text
  pub code : DiagnosticCode

-- What a candidate of the tree gives.
pub data Finding : Type 0 where
  valid : Artifact → Finding
  invalid : ArtifactValidationDiagnostic → Finding

pub record RepositoryValidationReport : Type 0 where
  pub revision : Text
  pub valid_count : ℕ
  pub invalid_count : ℕ
  pub errors : List ArtifactValidationDiagnostic
  pub omitted_error_count : ℕ

abbrev pub unsafe_path : Text
unsafe_path = codes "[unsafe repository path]"

abbrev pub is_too_large : Option ℕ → Bool
is_too_large none = false
is_too_large (some size) = ltb max_serialized_artifact_bytes size

-- The code of an error that is reported; an unavailable repository and a denied access end the report.
abbrev pub reported : RepositoryError → Result RepositoryError DiagnosticCode
reported (unavailable status) = err (unavailable status)
reported access_denied = err access_denied
reported (blob_diagnostic problem) = ok (of_blob problem)
reported _ = ok (of_parser invalid_metadata)

abbrev pub found_by : (Text → Bool) → List (ℕ × Finding) → List (ℕ × Artifact)
found_by p [] = []
found_by p ((n, invalid diagnostic) ∷ results) = found_by p results
found_by p ((n, valid artifact) ∷ results) =
    if p artifact.metadata.id then (n, artifact) ∷ found_by p results else found_by p results

abbrev pub valid_results : List (ℕ × Finding) → List (ℕ × Artifact)
valid_results results = found_by (λ id. true) results

unfoldable pub invalid_results : List (ℕ × Finding) → List (ℕ × ArtifactValidationDiagnostic)
invalid_results [] = []
invalid_results ((n, valid artifact) ∷ results) = invalid_results results
invalid_results ((n, invalid diagnostic) ∷ results) = (n, diagnostic) ∷ invalid_results results

abbrev pub duplicate_of : ℕ × Artifact → ℕ × ArtifactValidationDiagnostic
duplicate_of (n, artifact) = (n, record { path = artifact.path; code = duplicate_id })

-- One diagnostic for each of several artifacts with this id.
unfoldable pub duplicates_of : List (ℕ × Finding) → Text → List (ℕ × ArtifactValidationDiagnostic)
duplicates_of results id =
    let same = found_by (text_eq id) results in
    if ltb 1 (length same) then map duplicate_of same else []

unfoldable pub duplicates : List (ℕ × Finding) → List Text → List (ℕ × ArtifactValidationDiagnostic)
duplicates results [] = []
duplicates results (id ∷ ids) = duplicates_of results id ++ duplicates results ids

-- The ids of the artifacts, each once, in the order of their first artifacts.
abbrev pub ids_of : List (ℕ × Finding) → List Text
ids_of results = unique (map (λ found. (found.1).metadata.id) (valid_results results))

unfoldable pub diagnostics_of : List (ℕ × Finding) → List (ℕ × ArtifactValidationDiagnostic)
diagnostics_of results = invalid_results results ++ duplicates results (ids_of results)

abbrev pub is_index_of : List (ℕ × ArtifactValidationDiagnostic) → ℕ → Bool
is_index_of diagnostics n = any (λ item. item.0 == n) diagnostics

-- `new Set(diagnostics.map((item) => item.entryIndex)).size`
unfoldable pub distinct_entries : List (ℕ × ArtifactValidationDiagnostic) → ℕ
distinct_entries [] = 0
distinct_entries ((n, diagnostic) ∷ diagnostics) =
    let rest = distinct_entries diagnostics in if is_index_of diagnostics n then rest else suc rest

abbrev pub first_errors :
    ℕ → List (ℕ × ArtifactValidationDiagnostic) → List ArtifactValidationDiagnostic
first_errors zero diagnostics = []
first_errors (suc n) [] = []
first_errors (suc n) ((entry, diagnostic) ∷ diagnostics) = diagnostic ∷ first_errors n diagnostics

unfoldable pub report_of : Text → List (ℕ × Finding) → RepositoryValidationReport
report_of revision results =
    let diagnostics = diagnostics_of results in
    let found = valid_results results in
    let errors = first_errors 50 diagnostics in
    record {
      revision = revision;
      valid_count = length found - length (filter (λ item. is_index_of diagnostics item.0) found);
      invalid_count = distinct_entries diagnostics;
      errors = errors;
      omitted_error_count = length diagnostics - length errors;
    }
