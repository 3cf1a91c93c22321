-- ===== src/Library/Repository.antt =====
-- The writes of `GitHubArtifactRepository` in lib/artifact-repository.ts: what is checked before one is
-- sent, and what its answer means.
pub mod Sends
pub mod Updates
pub mod Creates
pub mod Deletes
pub mod Variations
pub mod Refusals
mod Examples
use artifact_dev_toolkit.Common.{
  ℕ, Bool, true, false, not, ◌&&◌, ◌||◌, Option, none, some, List, [], ◌∷◌, ◌++◌, length, all, any,
  find, filter, ltb, leb, ◌==◌, if◌then◌else◌, is_some, Result, ok, err,
}
use artifact_dev_toolkit.Common.Text.{Text, codes, text_eq, is_truthy, trim, is_space, starts_with}
use artifact_dev_toolkit.Library.Layout.{
  is_slug, is_slug_char, directory_of, classify_artifact_path, is_supported_artifact_mutation_path,
  is_artifact_markdown_candidate, canonical_artifact_write_path,
}
use artifact_dev_toolkit.Library.Contract.{
  ArtifactMetadata, Artifact, Markdown, max_serialized_artifact_bytes, normalize_artifact_metadata,
  validate_unique_artifact_ids, parse_artifact_markdown, serialize_artifact_markdown,
}
use artifact_dev_toolkit.Library.Requests.{
  RepositoryError, unavailable, blob_diagnostic, unsupported_encoding, blob_too_large, bad_content,
  write_validation, too_large, secret_rejected, duplicate, write_conflict, write_permission,
  write_authentication, not_found, bad_write_response, malformed_tree, truncated_tree,
  duplicate_ids, Capability, read, write, Provider, Kept, credential, write_credential_error,
  is_temporary_status, Attempt, Request, missing_branch, missing_content, github_json, is_ok,
}
use artifact_dev_toolkit.Library.Branch.{
  Entry, Write, put, remove, PutRequest, DeleteRequest, Confirmation, WriteReply, write_rejected,
  write_answered, Setup, State, Operation, ◌>>=◌, lift, check, given, is_text, is_file,
  has_artifact_id, option_text, fetch_tree, artifacts_from_tree,
}

-- `/^[A-Za-z0-9-]+$/`
unfoldable pub is_actor : Text → Bool
is_actor login =
    is_truthy login && all (λ c. is_slug_char c || leb b'A' c && leb c b'Z' || c == b'-') login

-- What `prepareArtifactWrite` gives.
pub record PreparedWrite : Type 0 where
  pub metadata : ArtifactMetadata
  pub markdown : Text

pub record UpdateInput : Type 0 where
  pub id : Text
  pub metadata : ArtifactMetadata
  pub body : Text
  pub current_file_sha : Text
  pub actor_login : Text

pub record CreateInput : Type 0 where
  pub metadata : ArtifactMetadata
  pub body : Text
  pub actor_login : Text

pub record DeleteInput : Type 0 where
  pub id : Text
  pub current_file_sha : Text
  pub actor_login : Text

pub record WriteResult : Type 0 where
  pub artifact_id : Text
  pub path : Text
  pub confirmation : Confirmation

-- Both missing, or the same text.
abbrev pub same_option : Option Text → Option Text → Bool
same_option none none = true
same_option (some a) (some b) = text_eq a b
same_option _ _ = false

-- The submitted metadata, if what cannot change is as it is stored.
unfoldable pub is_immutable_same : Artifact → ArtifactMetadata → Bool
is_immutable_same stored metadata =
    text_eq metadata.id stored.metadata.id
    && text_eq (directory_of metadata.type) (directory_of stored.metadata.type)
    && same_option metadata.source_id stored.metadata.source_id
    && text_eq (option_text metadata.created_at) (option_text stored.metadata.created_at)

-- The status of an answer to a write that failed. A new file cannot be in conflict with itself.
unfoldable pub put_error : Bool → ℕ → RepositoryError
put_error has_sha status =
    if status == 401
    then write_authentication
    else if status == 403
    then write_permission
    else if status == 409 || status == 422
    then (if has_sha then write_conflict else duplicate)
    else if is_temporary_status status
    then unavailable (some status)
    else bad_write_response

unfoldable pub delete_error : ℕ → RepositoryError
delete_error status =
    if status == 401
    then write_authentication
    else if status == 403
    then write_permission
    else if status == 404 || status == 409 || status == 422
    then write_conflict
    else if is_temporary_status status
    then unavailable (some status)
    else bad_write_response

unfoldable pub commit_message : Text → Text → Text → Text
commit_message verb id actor =
    verb ++ codes " artifact " ++ id ++ codes " (requested by @" ++ actor ++ codes ")"

module _ (setup : Setup) where
  unfoldable pub prepare_artifact_write :
      ArtifactMetadata → Text → Result RepositoryError PreparedWrite
  prepare_artifact_write input body =
      elim (normalize_artifact_metadata setup.markdown.is_datetime input) [
        | none ↦ err write_validation
        | some metadata ↦
            if not (is_slug metadata.id)
            then err write_validation
            else if not (is_truthy (trim body))
            then err write_validation
            else elim (serialize_artifact_markdown setup.markdown metadata body) [
              | none ↦ err write_validation
              | some markdown ↦
                  if ltb max_serialized_artifact_bytes (setup.byte_length markdown)
                  then err too_large
                  else if setup.has_secret markdown
                  then err secret_rejected
                  else ok (record { metadata = metadata; markdown = markdown })
            ]
      ]

  unfoldable pub write_credential : Operation Text
  write_credential s =
      let (asked, kept') = credential setup.provider write s.kept in
      (
        elim asked [ err e ↦ err (write_credential_error e) | ok token ↦ ok token ],
        record s { kept = kept' },
      )

  unfoldable pub put_result : PutRequest → Text → WriteReply → Result RepositoryError WriteResult
  put_result request id write_rejected = err (unavailable none)
  put_result request id (write_answered status confirmation) =
      if not (is_ok status) then err (put_error (given request.sha) status) else elim confirmation [
        | none ↦ err bad_write_response
        | some c ↦
            if text_eq c.path request.path
            then ok (record { artifact_id = id; path = request.path; confirmation = c })
            else err bad_write_response
      ]

  unfoldable pub write_contents : PutRequest → Text → Operation WriteResult
  write_contents request id = write_credential >>= λ token. λ s.
      (put_result request id (setup.send (put request)), record s { sent = put request ∷ s.sent })

  unfoldable pub delete_result : Text → Text → WriteReply → Result RepositoryError WriteResult
  delete_result path id write_rejected = err (unavailable none)
  delete_result path id (write_answered status confirmation) =
      if not (is_ok status) then err (delete_error status) else elim confirmation [
        | none ↦ err bad_write_response
        | some c ↦
            if starts_with c.commit_url (codes "https://github.com/")
            then ok (record { artifact_id = id; path = path; confirmation = c })
            else err bad_write_response
      ]

  unfoldable pub delete_contents : Text → DeleteInput → Operation WriteResult
  delete_contents path input =
      let request : DeleteRequest = record {
        path = path;
        message = commit_message (codes "Delete") input.id input.actor_login;
        sha = input.current_file_sha;
      } in
      write_credential >>= λ token. λ s. (
        delete_result path input.id (setup.send (remove request)),
        record s { sent = remove request ∷ s.sent },
      )

  -- The checks of an update before anything is read, and after it.
  unfoldable pub check_update : UpdateInput → Result RepositoryError PreparedWrite
  check_update input =
      if not (is_actor input.actor_login)
      then err write_validation
      else elim (prepare_artifact_write input.metadata input.body) [
        | err e ↦ err e
        | ok prepared ↦
            if not (text_eq prepared.metadata.id input.id)
              || not (is_truthy (trim input.current_file_sha))
            then err write_validation
            else ok prepared
      ]

  unfoldable pub update_target :
      UpdateInput → ArtifactMetadata → List Entry → List Artifact → Result RepositoryError Artifact
  update_target input metadata tree artifacts = elim (find (has_artifact_id input.id) artifacts) [
    | none ↦ err not_found
    | some artifact ↦ elim (find (is_file artifact.path) tree) [
      | none ↦ err bad_write_response
      | some entry ↦
          if not (given entry.sha)
          then err bad_write_response
          else if not (is_text entry.sha input.current_file_sha)
          then err write_conflict
          else if not (is_supported_artifact_mutation_path artifact.path)
          then err bad_content
          else if not (is_immutable_same artifact metadata)
          then err write_validation
          else ok artifact
    ]
  ]

  unfoldable pub send_update : UpdateInput → PreparedWrite → Artifact → Operation WriteResult
  send_update input prepared artifact =
      write_contents
        (record {
          path = artifact.path;
          content = prepared.markdown;
          message = commit_message (codes "Update") prepared.metadata.id input.actor_login;
          sha = some input.current_file_sha;
        })
        prepared.metadata.id

  -- The tree is read, then its artifacts, and then the target is found.
  unfoldable pub update_found :
      UpdateInput → PreparedWrite → List Entry → List Artifact → Operation WriteResult
  update_found input prepared tree artifacts =
      lift (update_target input prepared.metadata tree artifacts) >>= send_update input prepared

  unfoldable pub update_listed : UpdateInput → PreparedWrite → List Entry → Operation WriteResult
  update_listed input prepared tree =
      artifacts_from_tree setup tree write >>= update_found input prepared tree

  unfoldable pub update_prepared : UpdateInput → PreparedWrite → Operation WriteResult
  update_prepared input prepared = fetch_tree setup write >>= update_listed input prepared

  unfoldable pub update : UpdateInput → Operation WriteResult
  update input = lift (check_update input) >>= update_prepared input

  -- `artifactPath`, and the check that the path is the expected one, which it then is.
  unfoldable pub check_create : CreateInput → Result RepositoryError (PreparedWrite × Text)
  check_create input =
      if not (is_actor input.actor_login)
      then err write_validation
      else elim (prepare_artifact_write input.metadata input.body) [
        | err e ↦ err e
        | ok prepared ↦
            elim (canonical_artifact_write_path prepared.metadata.type prepared.metadata.id) [
              | none ↦ err write_validation
              | some path ↦ ok (prepared, path)
            ]
      ]

  abbrev pub check_new_path : Text → List Entry → Result RepositoryError (Unit {0})
  check_new_path path tree = check (not (any (is_file path) tree)) duplicate

  abbrev pub check_new_id : Text → List Artifact → Result RepositoryError (Unit {0})
  check_new_id id artifacts = check (not (any (has_artifact_id id) artifacts)) duplicate

  unfoldable pub send_create : CreateInput → PreparedWrite → Text → Unit {0} → Operation WriteResult
  send_create input prepared path new_id =
      write_contents
        (record {
          path = path;
          content = prepared.markdown;
          message = commit_message (codes "Create") prepared.metadata.id input.actor_login;
          sha = none;
        })
        prepared.metadata.id

  unfoldable pub create_found :
      CreateInput → PreparedWrite → Text → List Artifact → Operation WriteResult
  create_found input prepared path artifacts =
      lift (check_new_id prepared.metadata.id artifacts) >>= send_create input prepared path

  unfoldable pub create_unlisted :
      CreateInput → PreparedWrite → Text → List Entry → Unit {0} → Operation WriteResult
  create_unlisted input prepared path tree new_path =
      artifacts_from_tree setup tree write >>= create_found input prepared path

  unfoldable pub create_listed :
      CreateInput → PreparedWrite → Text → List Entry → Operation WriteResult
  create_listed input prepared path tree =
      lift (check_new_path path tree) >>= create_unlisted input prepared path tree

  unfoldable pub create_prepared : CreateInput → PreparedWrite × Text → Operation WriteResult
  create_prepared input target = fetch_tree setup write >>= create_listed input target.0 target.1

  unfoldable pub create : CreateInput → Operation WriteResult
  create input = lift (check_create input) >>= create_prepared input

  unfoldable pub check_delete : DeleteInput → Result RepositoryError (Unit {0})
  check_delete input =
      check (is_actor input.actor_login && is_truthy (trim input.current_file_sha)) write_validation

  unfoldable pub delete_target :
      DeleteInput → List Entry → List Artifact → Result RepositoryError Artifact
  delete_target input tree artifacts = elim (find (has_artifact_id input.id) artifacts) [
    | none ↦ err not_found
    | some artifact ↦
        if not (is_supported_artifact_mutation_path artifact.path)
        then err bad_content
        else elim (find (is_file artifact.path) tree) [
          | none ↦ err bad_content
          | some entry ↦
              if not (given entry.sha)
              then err bad_content
              else if not (is_text entry.sha input.current_file_sha)
              then err write_conflict
              else ok artifact
        ]
  ]

  unfoldable pub send_delete : DeleteInput → Artifact → Operation WriteResult
  send_delete input artifact = delete_contents artifact.path input

  unfoldable pub delete_found : DeleteInput → List Entry → List Artifact → Operation WriteResult
  delete_found input tree artifacts =
      lift (delete_target input tree artifacts) >>= send_delete input

  unfoldable pub delete_listed : DeleteInput → List Entry → Operation WriteResult
  delete_listed input tree = artifacts_from_tree setup tree write >>= delete_found input tree

  unfoldable pub delete_checked : DeleteInput → Unit {0} → Operation WriteResult
  delete_checked input checked = fetch_tree setup write >>= delete_listed input

  unfoldable pub delete : DeleteInput → Operation WriteResult
  delete input = lift (check_delete input) >>= delete_checked input
