-- ===== src/Library/Catalogue.antt =====
-- Reading the whole library: `list`, `findById`, `getBaseRevision`, `loadCatalogue` and
-- `diagnoseCatalogue` of `GitHubArtifactRepository` in lib/artifact-repository.ts. Blobs are read one
-- after another, as in Branch.
pub mod Loads
mod Examples
use artifact_dev_toolkit.Common.{
  ℕ, zero, suc, ◌+◌, ◌-◌, Bool, true, false, not, ◌&&◌, ◌||◌, Option, none, some, List, [], ◌∷◌,
  ◌++◌, length, all, any, find, filter, map, ltb, leb, ◌==◌, if◌then◌else◌, is_some, Result, ok,
  err,
}
use artifact_dev_toolkit.Common.Text.{Text, codes, text_eq, is_truthy, to_lower_case}
use artifact_dev_toolkit.Common.Sorting.{sort_by}
use artifact_dev_toolkit.Library.Layout.{is_supported_artifact_path}
use artifact_dev_toolkit.Library.Contract.{
  Artifact, ParseErrorCode, invalid_front_matter, invalid_metadata, invalid_body,
  max_serialized_artifact_bytes, parse_artifact_markdown, unique,
}
use artifact_dev_toolkit.Library.Requests.{
  RepositoryError, unavailable, access_denied, blob_diagnostic, BlobProblem, unsupported_encoding,
  blob_too_large, blob_unavailable, bad_content, missing_blob_sha, Capability, read, Attempt,
  Request, missing_branch, missing_content,
}
use artifact_dev_toolkit.Library.Branch.{
  Entry, TreeResponse, Setup, State, Operation, ◌>>=◌, lift, check, given, is_file, is_candidate,
  option_text, has_artifact_id, tree_entries, request_json, fetch_tree, fetch_blob,
  artifacts_from_tree, parse_stored, unique_or_error,
}
use artifact_dev_toolkit.Library.Report.{
  DiagnosticCode, invalid_path, missing_sha, of_blob, of_parser, ArtifactValidationDiagnostic,
  Finding, valid, invalid, RepositoryValidationReport, unsafe_path, is_too_large, reported,
  report_of,
}

-- `/^[a-f0-9]{7,64}$/i`
unfoldable pub is_revision : Text → Bool
is_revision sha =
    leb 7 (length sha)
    && leb (length sha) 64
    && all (λ c. leb b'0' c && leb c b'9' || leb b'a' c && leb c b'f') (to_lower_case sha)

abbrev pub is_revision_sha : Option Text → Bool
is_revision_sha none = false
is_revision_sha (some sha) = is_revision sha

-- The branch with what GitHub answers for its reference and for the tree of a revision, and whether a
-- text stands after another: `a.localeCompare(b) > 0`.
pub record Reads : Type 0 where
  pub branch : Text
  pub reference : ℕ → Attempt (Option Text)
  pub tree_at : Text → ℕ → Attempt TreeResponse
  pub is_after : Text → Text → Bool

-- The shas of the files, by the ids of their artifacts.
pub record RepositoryCatalogue : Type 0 where
  pub artifacts : List Artifact
  pub revision : Text
  pub file_shas : List (Text × Text)

module _ (setup : Setup) (reads : Reads) where
  unfoldable pub resolve_branch : Capability → Operation Text
  resolve_branch capability =
      request_json setup (record { of_branch = true; of_blob = false; missing = missing_content })
        reads.reference capability
      >>= λ sha. lift (if is_revision_sha sha then ok (option_text sha) else err bad_content)

  unfoldable pub get_base_revision : Operation Text
  get_base_revision = resolve_branch read

  abbrev pub revision_request : Text → Request
  revision_request revision = record {
    of_branch = false;
    of_blob = false;
    missing = if text_eq revision reads.branch then missing_branch else missing_content;
  }

  unfoldable pub fetch_revision : Capability → Text → Operation (List Entry)
  fetch_revision capability revision =
      request_json setup (revision_request revision) (reads.tree_at revision) capability
      >>= λ response. lift (tree_entries setup response)

  -- `revision ?? await this.getBaseRevision()`
  abbrev pub resolved : Option Text → Operation Text
  resolved none = get_base_revision
  resolved (some revision) = lift (ok revision)

  abbrev pub is_path_after : Entry → Entry → Bool
  is_path_after a b = reads.is_after (option_text a.path) (option_text b.path)

  abbrev pub is_title_after : Artifact → Artifact → Bool
  is_title_after a b = reads.is_after a.metadata.title b.metadata.title

  unfoldable pub listed_artifact : Entry → Operation Artifact
  listed_artifact entry = lift (check (given entry.sha) missing_blob_sha) >>= λ there.
      fetch_blob setup (option_text entry.sha) (option_text entry.path) read >>= λ raw.
      lift (parse_stored setup raw (option_text entry.path))

  unfoldable pub listed_artifacts : List Entry → Operation (List Artifact)
  listed_artifacts [] = lift (ok [])
  listed_artifacts (entry ∷ entries) = listed_artifact entry >>= λ artifact.
      listed_artifacts entries >>= λ artifacts. lift (ok (artifact ∷ artifacts))

  abbrev pub is_supported : Entry → Bool
  is_supported entry = is_supported_artifact_path (option_text entry.path)

  unfoldable pub list : Operation (List Artifact)
  list = fetch_tree setup read >>= λ tree.
      let files = sort_by is_path_after (filter is_candidate tree) in
      lift (check (all is_supported files) bad_content) >>= λ supported.
      listed_artifacts files >>= λ artifacts.
      lift (unique_or_error setup artifacts) >>= λ same. lift (ok (sort_by is_title_after same))

  unfoldable pub find_by_id : Text → Operation (Option Artifact)
  find_by_id id = list >>= λ artifacts. lift (ok (find (has_artifact_id id) artifacts))

  -- The sha of the first file at the artifact's path.
  unfoldable pub file_sha : List Entry → Artifact → Result RepositoryError Text
  file_sha tree artifact = elim (find (is_file artifact.path) tree) [
    | none ↦ err bad_content
    | some entry ↦ if is_revision_sha entry.sha then ok (option_text entry.sha) else err bad_content
  ]

  unfoldable pub file_shas_of :
      List Entry → List Artifact → Result RepositoryError (List (Text × Text))
  file_shas_of tree [] = ok []
  file_shas_of tree (artifact ∷ artifacts) = elim (file_sha tree artifact) [
    | err e ↦ err e
    | ok sha ↦ elim (file_shas_of tree artifacts) [
      | err e ↦ err e
      | ok shas ↦ ok ((artifact.metadata.id, sha) ∷ shas)
    ]
  ]

  unfoldable pub load_catalogue : Option Text → Operation RepositoryCatalogue
  load_catalogue revision = resolved revision >>= λ at. fetch_revision read at >>= λ tree.
      artifacts_from_tree setup tree read >>= λ artifacts.
      lift (file_shas_of tree artifacts) >>= λ shas. lift (
        ok (record {
          artifacts = sort_by is_title_after artifacts;
          revision = at;
          file_shas = shas;
        }))

  abbrev pub fault : Text → DiagnosticCode → Finding
  fault path code = invalid (record { path = path; code = code })

  -- A blob that was read, or the error of reading it.
  unfoldable pub finding_of : Text → Result RepositoryError Text → Result RepositoryError Finding
  finding_of path (err e) = elim (reported e) [
    | err thrown ↦ err thrown
    | ok code ↦ ok (fault path code)
  ]
  finding_of path (ok raw) = elim (parse_artifact_markdown setup.markdown raw path) [
    | err code ↦ ok (fault path (of_parser code))
    | ok artifact ↦ ok (valid artifact)
  ]

  unfoldable pub diagnose_blob : Entry → Operation Finding
  diagnose_blob entry s =
      let (raw, t) = fetch_blob setup (option_text entry.sha) (option_text entry.path) read s in
      (finding_of (option_text entry.path) raw, t)

  unfoldable pub diagnose_entry : Entry → Operation Finding
  diagnose_entry entry =
      let path = option_text entry.path in
      if not (is_supported_artifact_path path)
      then lift (ok (fault unsafe_path invalid_path))
      else if not (is_revision_sha entry.sha)
      then lift (ok (fault path missing_sha))
      else if is_too_large entry.size
      then lift (ok (fault path (of_blob blob_too_large)))
      else diagnose_blob entry

  -- The findings with the indices of their entries, from this one on.
  unfoldable pub diagnose_entries : ℕ → List Entry → Operation (List (ℕ × Finding))
  diagnose_entries n [] = lift (ok [])
  diagnose_entries n (entry ∷ entries) = diagnose_entry entry >>= λ finding.
      diagnose_entries (suc n) entries >>= λ findings. lift (ok ((n, finding) ∷ findings))

  unfoldable pub diagnose_catalogue : Option Text → Operation RepositoryValidationReport
  diagnose_catalogue revision = resolved revision >>= λ at. fetch_revision read at >>= λ tree.
      diagnose_entries 0 (filter is_candidate tree) >>= λ results. lift (ok (report_of at results))
