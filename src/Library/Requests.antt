-- ===== src/Library/Requests.antt =====
-- The requests of `GitHubArtifactRepository` in lib/artifact-repository.ts: its errors, the
-- credentials that it keeps, and the retries of `githubJson`.
pub mod Attempts
pub mod Credentials
use artifact_dev_toolkit.Common.{
  ℕ, zero, suc, ◌+◌, ◌-◌, ◌*◌, ◌^◌, min, Bool, true, false, not, ◌&&◌, ◌||◌, Option, none, some,
  List, [], ◌∷◌, ltb, leb, ◌==◌, if◌then◌else◌, Result, ok, err,
}
use artifact_dev_toolkit.Common.Text.{Text}

pub data BlobProblem : Type 0 where
  unsupported_encoding blob_too_large blob_unavailable : BlobProblem

-- The classes of errors, and the plain errors of a tree that is malformed, truncated or has an entry
-- without a sha. An error
-- of equal ids is plain too.
pub data RepositoryError : Type 0 where
  unavailable : Option ℕ → RepositoryError
  blob_diagnostic : BlobProblem → RepositoryError
  bad_configuration access_denied repository_not_found branch_not_found : RepositoryError
  bad_content write_validation too_large secret_rejected duplicate : RepositoryError
  write_conflict write_permission write_authentication not_found : RepositoryError
  bad_write_response malformed_tree truncated_tree duplicate_ids missing_blob_sha : RepositoryError

pub data Capability : Type 0 where
  read write : Capability

pub data Contents : Type 0 where
  contents_none contents_read contents_write : Contents

pub record RepositoryCredential : Type 0 where
  pub token : Text
  pub contents : Contents

-- What a credential fails with: permissions that do not suffice, or the status of the provider's
-- error, if it has one.
pub data CredentialError : Type 0 where
  not_permitted : CredentialError
  provider_failed : Option ℕ → CredentialError

-- The promises that are kept, one for each capability. A failure is kept too.
pub record Kept : Type 0 where
  pub for_read : Option (Result CredentialError Text)
  pub for_write : Option (Result CredentialError Text)

-- What the provider gives when it is asked. A repository asks once for each capability and keeps the
-- answer.
abbrev pub Provider : Type 0
Provider = Capability → Result (Option ℕ) RepositoryCredential

unfoldable pub allows : Capability → Contents → Bool
allows read contents_none = false
allows read contents_read = true
allows read contents_write = true
allows write contents_write = true
allows write _ = false

unfoldable pub ask_provider : Provider → Capability → Result CredentialError Text
ask_provider provider capability = elim (provider capability) [
  | err status ↦ err (provider_failed status)
  | ok credential ↦
      if allows capability credential.contents then ok credential.token else err not_permitted
]

abbrev pub kept_for : Capability → Kept → Option (Result CredentialError Text)
kept_for read kept = kept.for_read
kept_for write kept = kept.for_write

abbrev pub keep : Capability → Result CredentialError Text → Kept → Kept
keep read result kept = record kept { for_read = some result }
keep write result kept = record kept { for_write = some result }

unfoldable pub credential : Provider → Capability → Kept → Result CredentialError Text × Kept
credential provider capability kept =
    let asked = ask_provider provider capability in
    elim (kept_for capability kept) [
      | some result ↦ (result, kept)
      | none ↦ (asked, keep capability asked kept)
    ]

abbrev pub is_denied_status : ℕ → Bool
is_denied_status status = status == 401 || status == 403 || status == 404

abbrev pub is_temporary_status : ℕ → Bool
is_temporary_status status = status == 429 || leb 500 status

abbrev pub permission_error : Capability → RepositoryError
permission_error read = access_denied
permission_error write = write_permission

-- The `catch` around the credential of a read request.
unfoldable pub read_credential_error : Capability → CredentialError → RepositoryError
read_credential_error capability not_permitted = permission_error capability
read_credential_error capability (provider_failed none) = unavailable none
read_credential_error capability (provider_failed (some status)) =
    if is_temporary_status status
    then unavailable (some status)
    else if is_denied_status status
    then access_denied
    else bad_configuration

-- The `catch` of `writeCredential`.
unfoldable pub write_credential_error : CredentialError → RepositoryError
write_credential_error not_permitted = write_permission
write_credential_error (provider_failed none) = unavailable none
write_credential_error (provider_failed (some status)) =
    if is_denied_status status
    then write_authentication
    else if is_temporary_status status
    then unavailable (some status)
    else bad_configuration

abbrev pub github_max_attempts : ℕ
github_max_attempts = 3

abbrev pub github_maximum_retry_delay_ms : ℕ
github_maximum_retry_delay_ms = 5000

-- A body: its value, a connection that broke off (a `TypeError`), or a text that is no JSON.
pub data Body (A : Type 0) : Type 0 where
  json : A → Body A
  broken_off not_json : Body A

-- `retry_after` is the wait in milliseconds that the header asks for, zero where it asks for a time
-- that is past; none where the header is missing or cannot be read.
pub record Response (A : Type 0) : Type 0 where
  pub status : ℕ
  pub retry_after : Option ℕ
  pub body : Body A

pub data Attempt (A : Type 0) : Type 0 where
  no_response : Attempt A
  responded : Response A → Attempt A

unfoldable pub retry_delay : Option ℕ → ℕ → ℕ
retry_delay none attempt = min github_maximum_retry_delay_ms (100 * 2 ^ (attempt - 1))
retry_delay (some milliseconds) attempt = min github_maximum_retry_delay_ms milliseconds

pub data Missing : Type 0 where
  missing_branch missing_content missing_repository : Missing

-- What of a request decides the meaning of 404: whether it reads a branch, whether it is for the blob
-- of a path, and what it asks for otherwise.
pub record Request : Type 0 where
  pub of_branch : Bool
  pub of_blob : Bool
  pub missing : Missing

abbrev pub missing_error : Missing → RepositoryError
missing_error missing_branch = branch_not_found
missing_error missing_content = bad_content
missing_error missing_repository = repository_not_found

-- The error of a status that is not tried again.
unfoldable pub status_error : Request → ℕ → RepositoryError
status_error request status =
    if status == 401 || status == 403
    then access_denied
    else if status == 404 && request.of_branch
    then branch_not_found
    else if status == 404 && request.of_blob
    then blob_diagnostic blob_unavailable
    else if status == 404
    then missing_error request.missing
    else bad_content

abbrev pub is_retryable : ℕ → Bool
is_retryable status = status == 429 || leb 500 status && leb status 599

abbrev pub is_ok : ℕ → Bool
is_ok status = leb 200 status && leb status 299

-- One turn of the loop: it ends, or waits and tries again.
pub data Verdict (A : Type 0) : Type 0 where
  done : Result RepositoryError A → Verdict A
  again : Option ℕ → ℕ → Verdict A

module _ {A : Type 0} (request : Request) where
  unfoldable pub judge : ℕ → Attempt A → Verdict A
  judge attempt no_response = again none (retry_delay none attempt)
  judge attempt (responded response) =
      if is_ok response.status
      then elim response.body [
        | json value ↦ done (ok value)
        | broken_off ↦ again none (retry_delay none attempt)
        | not_json ↦ done (err bad_content)
      ]
      else if is_retryable response.status
      then again (some response.status) (retry_delay response.retry_after attempt)
      else done (err (status_error request response.status))

  -- The loop from an attempt on, with the waits between the attempts; `left` counts its turns.
  unfoldable pub attempt_from : (ℕ → Attempt A) → ℕ → ℕ → Result RepositoryError A × List ℕ
  attempt_from reply zero attempt = (err (unavailable none), [])
  attempt_from reply (suc left) attempt =
      let rest = attempt_from reply left (attempt + 1) in
      elim (judge attempt (reply attempt)) [
        | done result ↦ (result, [])
        | again status delay ↦
            if ltb attempt github_max_attempts
            then (rest.0, delay ∷ rest.1)
            else (err (unavailable status), [])
      ]

  -- The result of `githubJson` and the times that it slept, without a credential no request.
  unfoldable pub github_json :
      Provider → Capability → (ℕ → Attempt A) → Kept → (Result RepositoryError A × List ℕ) × Kept
  github_json provider capability reply kept =
      let (asked, kept') = credential provider capability kept in
      elim asked [
        | err e ↦ ((err (read_credential_error capability e), []), kept')
        | ok token ↦ (attempt_from reply github_max_attempts 1, kept')
      ]
