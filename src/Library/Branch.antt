-- ===== src/Library/Branch.antt =====
-- What `GitHubArtifactRepository` of lib/artifact-repository.ts reads of a branch. Blobs are read one
-- after another here, by four workers there; where several fail, the first in the order of the tree
-- decides here, and there the first in time.
pub mod Reads
use artifact_dev_toolkit.Common.{
  ℕ, Bool, true, false, not, ◌&&◌, ◌||◌, Option, none, some, List, [], ◌∷◌, ◌++◌, length, all, any,
  find, filter, ltb, leb, ◌==◌, if◌then◌else◌, is_some, Result, ok, err,
}
use artifact_dev_toolkit.Common.Text.{Text, codes, text_eq, is_truthy, trim, is_space, starts_with}
use artifact_dev_toolkit.Library.Layout.{
  is_slug, is_slug_char, directory_of, classify_artifact_path, is_supported_artifact_mutation_path,
  is_artifact_markdown_candidate, canonical_artifact_write_path,
}
use artifact_dev_toolkit.Library.Contract.{
  ArtifactMetadata, Artifact, Markdown, max_serialized_artifact_bytes, normalize_artifact_metadata,
  validate_unique_artifact_ids, parse_artifact_markdown, serialize_artifact_markdown,
}
use artifact_dev_toolkit.Library.Requests.{
  RepositoryError, unavailable, blob_diagnostic, unsupported_encoding, blob_too_large, bad_content,
  write_validation, too_large, secret_rejected, duplicate, write_conflict, write_permission,
  write_authentication, not_found, bad_write_response, malformed_tree, truncated_tree,
  duplicate_ids, Capability, read, write, Provider, Kept, credential, write_credential_error,
  is_temporary_status, Attempt, Request, missing_branch, missing_content, github_json, is_ok,
}

pub record Entry : Type 0 where
  pub path : Option Text
  pub is_blob : Bool
  pub sha : Option Text
  pub size : Option ℕ

pub record TreeResponse : Type 0 where
  pub tree : Option (List Entry)
  pub truncated : Bool

pub record BlobResponse : Type 0 where
  pub content : Option Text
  pub encoding : Option Text
  pub size : Option ℕ

-- A PUT has the sha of the file that it replaces, and none for a new file.
pub record PutRequest : Type 0 where
  pub path : Text
  pub content : Text
  pub message : Text
  pub sha : Option Text

pub record DeleteRequest : Type 0 where
  pub path : Text
  pub message : Text
  pub sha : Text

pub data Write : Type 0 where
  put : PutRequest → Write
  remove : DeleteRequest → Write

-- What of an answer the schema reads; a path is there after a PUT.
pub record Confirmation : Type 0 where
  pub path : Text
  pub file_sha : Text
  pub commit_sha : Text
  pub commit_url : Text

-- The answer is missing where it does not match the schema.
pub data WriteReply : Type 0 where
  write_rejected : WriteReply
  write_answered : ℕ → Option Confirmation → WriteReply

-- GitHub as an operation finds it, the platform's texts and bytes, and the patterns of secrets.
pub record Setup : Type 0 where
  pub provider : Provider
  pub tree : ℕ → Attempt TreeResponse
  pub blob : Text → ℕ → Attempt BlobResponse
  pub send : Write → WriteReply
  pub markdown : Markdown
  pub decode_base64 : Text → List ℕ
  pub decode_utf8 : List ℕ → Text
  pub byte_length : Text → ℕ
  pub has_secret : Text → Bool

-- The credentials that are kept, and the writes that were sent, the last one first.
pub record State : Type 0 where
  pub kept : Kept
  pub sent : List Write

abbrev pub Operation : Type 0 → Type 0
Operation A = State → Result RepositoryError A × State

infixl 5 ◌>>=◌
abbrev pub ◌>>=◌ : {A B : Type 0} → Operation A → (A → Operation B) → Operation B
m >>= f = λ s. let (r, s') = m s in elim r [ err e ↦ (err e, s') | ok a ↦ f a s' ]

-- A computation that touches nothing.
abbrev pub lift : {A : Type 0} → Result RepositoryError A → Operation A
lift r = λ s. (r, s)

abbrev pub check : Bool → RepositoryError → Result RepositoryError (Unit {0})
check test e = if test then ok tt else err e

abbrev pub given : Option Text → Bool
given none = false
given (some value) = is_truthy value

abbrev pub is_text : Option Text → Text → Bool
is_text none t = false
is_text (some s) t = text_eq s t

-- `entry.type === "blob" && entry.path === path`
abbrev pub is_file : Text → Entry → Bool
is_file path entry = entry.is_blob && is_text entry.path path

abbrev pub is_candidate : Entry → Bool
is_candidate entry =
    entry.is_blob
    && elim entry.path [ none ↦ false | some path ↦ is_artifact_markdown_candidate path ]

abbrev pub has_artifact_id : Text → Artifact → Bool
has_artifact_id id artifact = text_eq artifact.metadata.id id

abbrev pub option_text : Option Text → Text
option_text none = []
option_text (some value) = value

module _ (setup : Setup) where
  unfoldable pub tree_entries : TreeResponse → Result RepositoryError (List Entry)
  tree_entries response = elim response.tree [
    | none ↦ err malformed_tree
    | some entries ↦ if response.truncated then err truncated_tree else ok entries
  ]

  unfoldable pub request_json : {A : Type 0} → Request → (ℕ → Attempt A) → Capability → Operation A
  request_json request reply capability s =
      let (answered, kept') = github_json request setup.provider capability reply s.kept in
      (answered.0, record s { kept = kept' })

  abbrev pub tree_request : Request
  tree_request = record { of_branch = false; of_blob = false; missing = missing_branch }

  abbrev pub blob_request : Text → Request
  blob_request path = record {
    of_branch = false;
    of_blob = is_truthy path;
    missing = missing_content;
  }

  unfoldable pub fetch_tree : Capability → Operation (List Entry)
  fetch_tree capability =
      request_json tree_request setup.tree capability >>= λ response. lift (tree_entries response)

  unfoldable pub blob_text : BlobResponse → Result RepositoryError Text
  blob_text blob =
      if elim blob.size [ none ↦ false | some size ↦ ltb max_serialized_artifact_bytes size ]
      then err (blob_diagnostic blob_too_large)
      else elim blob.content [
        | none ↦ err (blob_diagnostic unsupported_encoding)
        | some content ↦
            if not (is_text blob.encoding (codes "base64"))
            then err (blob_diagnostic unsupported_encoding)
            else (let decoded = setup.decode_base64 (filter (λ c. not (is_space c)) content) in
                if ltb max_serialized_artifact_bytes (length decoded)
                then err (blob_diagnostic blob_too_large)
                else ok (setup.decode_utf8 decoded))
      ]

  unfoldable pub fetch_blob : Text → Text → Capability → Operation Text
  fetch_blob sha path capability =
      request_json (blob_request path) (setup.blob sha) capability >>= λ blob. lift (blob_text blob)

  unfoldable pub parse_stored : Text → Text → Result RepositoryError Artifact
  parse_stored raw path = elim (parse_artifact_markdown setup.markdown raw path) [
    | err code ↦ err bad_content
    | ok artifact ↦ ok artifact
  ]

  unfoldable pub artifact_from_entry : Entry → Capability → Operation Artifact
  artifact_from_entry entry capability =
      if not (given entry.path) || not (given entry.sha)
      then lift (err bad_content)
      else if not (is_some (classify_artifact_path (option_text entry.path)))
      then lift (err bad_content)
      else (fetch_blob (option_text entry.sha) (option_text entry.path) capability >>= λ raw.
          lift (parse_stored raw (option_text entry.path)))

  unfoldable pub artifacts_from_entries : List Entry → Capability → Operation (List Artifact)
  artifacts_from_entries [] capability = lift (ok [])
  artifacts_from_entries (entry ∷ entries) capability =
      artifact_from_entry entry capability >>= λ artifact.
      artifacts_from_entries entries capability >>= λ artifacts. lift (ok (artifact ∷ artifacts))

  abbrev pub unique_or_error : List Artifact → Result RepositoryError (List Artifact)
  unique_or_error artifacts = elim (validate_unique_artifact_ids artifacts) [
    | err artifact ↦ err duplicate_ids
    | ok done ↦ ok artifacts
  ]

  unfoldable pub artifacts_from_tree : List Entry → Capability → Operation (List Artifact)
  artifacts_from_tree tree capability =
      artifacts_from_entries (filter is_candidate tree) capability >>= λ artifacts.
      lift (unique_or_error artifacts)

  -- What a later write needs: an artifact with the sha of its file.
  abbrev pub revision_of : Artifact → List Entry → Result RepositoryError (Option (Artifact × Text))
  revision_of artifact tree = elim (find (is_file artifact.path) tree) [
    | none ↦ err bad_content
    | some entry ↦ elim entry.sha [
      | none ↦ err bad_content
      | some sha ↦ if is_truthy (trim sha) then ok (some (artifact, sha)) else err bad_content
    ]
  ]

  unfoldable pub find_by_id_with_revision : Text → Operation (Option (Artifact × Text))
  find_by_id_with_revision id = fetch_tree read >>= λ tree.
      artifacts_from_tree tree read >>= λ artifacts. elim (find (has_artifact_id id) artifacts) [
        | none ↦ lift (ok none)
        | some artifact ↦ lift (revision_of artifact tree)
      ]
