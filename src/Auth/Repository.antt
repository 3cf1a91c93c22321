-- ===== src/Auth/Repository.antt =====
-- lib/repository-authorization.ts, with the GitHub requests of lib/github-app.ts that it makes: may
-- this user use the configured repository? The provider of installation credentials that a granted
-- status carries is left out.
pub mod Verification
use artifact_dev_toolkit.Common.{
  ℕ, ◌+◌, ◌*◌, Bool, true, false, not, ◌&&◌, ◌||◌, Option, none, some, List, [], ◌∷◌, map, any,
  filter, length, ltb, leb, ◌==◌, if◌then◌else◌, Result, ok, err, ◌>>=◌, ◌>>◌,
}
use artifact_dev_toolkit.Common.Text.{Text, codes, text_eq, is_truthy, split, trim, to_lower_case}
use artifact_dev_toolkit.Auth.Types.{
  authorized, denied, FailureReason, configuration, allowlist, app_access, user_access,
  temporary_unavailable, RepositoryAuthorization, SessionRecord, GitHubUser,
}
use artifact_dev_toolkit.Auth.Configuration.{
  Environment, AuthenticationConfigurationError, Configured, setting, require_authentication_values,
  value_of,
}

abbrev pub authorization_freshness_ms : ℕ
authorization_freshness_ms = 7 * 60 * 1000

-- What a granted status says, `RepositoryAccessContext`.
pub record Access : Type 0 where
  pub owner : Text
  pub repo : Text
  pub login : Text
  pub github_id : ℕ
  pub repository_id : ℕ
  pub installation_id : ℕ
  pub checked_at : ℕ

pub record Refusal : Type 0 where
  pub reason : FailureReason
  pub message : Text
  pub temporary : Option Bool

-- `RepositoryAuthorizationStatus`
pub data Status : Type 0 where
  granted : Access → Status
  refused : Refusal → Status

abbrev pub is_temporary : FailureReason → Bool
is_temporary temporary_unavailable = true
is_temporary _ = false

-- A difference of two times is compared, so the sum stands on the other side.
unfoldable pub authorization_requires_revalidation : RepositoryAuthorization → ℕ → Bool
authorization_requires_revalidation a now =
    elim a.denial_reason [ none ↦ false | some reason ↦ is_temporary reason ]
    || leb (a.checked_at + authorization_freshness_ms) now

unfoldable pub should_retain_user_token : Status → Bool
should_retain_user_token (granted access) = true
should_retain_user_token (refused refusal) = is_temporary refusal.reason

unfoldable pub repository_access_denied_message : FailureReason → Text
repository_access_denied_message configuration =
    codes "Artifact repository access is not configured. Contact an administrator."
repository_access_denied_message allowlist =
    codes "Your GitHub account is not on the artifact library allowlist."
repository_access_denied_message app_access =
    codes "The GitHub App is not installed with access to the configured artifact repository."
repository_access_denied_message user_access =
    codes "Your GitHub account is not authorised for the configured artifact repository."
repository_access_denied_message temporary_unavailable =
    codes "Artifact repository authorisation is temporarily unavailable. Please try again later."

unfoldable pub parse_allowed_github_logins : Text → List Text
parse_allowed_github_logins value =
    filter is_truthy (map (λ login. to_lower_case (trim login)) (split b',' value))

pub record GitHubAppConfig : Type 0 where
  pub app_id : Text
  pub client_id : Text
  pub client_secret : Text
  pub private_key : Text
  pub owner : Text
  pub repo : Text
  pub branch : Text
  pub root_path : Text
  pub allowed_logins : List Text

abbrev pub text_or : Text → Text → Text
text_or value fallback = if is_truthy value then value else fallback

abbrev pub option_or : Option Text → Text → Text
option_or none fallback = fallback
option_or (some value) fallback = value

unfoldable pub get_repository_authorization_config : Environment → Configured GitHubAppConfig
get_repository_authorization_config env = do
  values ← require_authentication_values env (
      codes "GITHUB_APP_ID"
      ∷ codes "GITHUB_APP_CLIENT_ID"
      ∷ codes "GITHUB_APP_CLIENT_SECRET"
      ∷ codes "GITHUB_APP_PRIVATE_KEY"
      ∷ codes "GITHUB_TOKEN_ENCRYPTION_KEY"
      ∷ codes "GITHUB_ARTIFACT_REPOSITORY_OWNER"
      ∷ codes "GITHUB_ARTIFACT_REPOSITORY_NAME"
      ∷ [])
  ok (record {
    app_id = value_of "GITHUB_APP_ID" values;
    client_id = value_of "GITHUB_APP_CLIENT_ID" values;
    client_secret = value_of "GITHUB_APP_CLIENT_SECRET" values;
    private_key = value_of "GITHUB_APP_PRIVATE_KEY" values;
    owner = value_of "GITHUB_ARTIFACT_REPOSITORY_OWNER" values;
    repo = value_of "GITHUB_ARTIFACT_REPOSITORY_NAME" values;
    branch = text_or (setting env (codes "GITHUB_ARTIFACT_REPOSITORY_BRANCH")) (codes "main");
    root_path = codes "canonical-root-v1";
    allowed_logins =
        parse_allowed_github_logins (option_or (env (codes "GITHUB_ARTIFACT_ALLOWED_LOGINS")) []);
  })

pub record GitHubRepository : Type 0 where
  pub id : ℕ
  pub name : Text
  pub owner_login : Text

pub record GitHubInstallation : Type 0 where
  pub id : ℕ

-- How a request ends: it is rejected before an answer, or answered with a status and a body, which
-- is missing where it is not the JSON that is read from it.
pub data Reply (A : Type 0) : Type 0 where
  rejected : Reply A
  answered : ℕ → Option A → Reply A

-- What a step throws: an error of the configuration, a refused request with its status, or an error
-- that carries no status.
pub data Thrown : Type 0 where
  configuration_error : AuthenticationConfigurationError → Thrown
  http_error : ℕ → Thrown
  other_error : Thrown

abbrev pub is_ok_status : ℕ → Bool
is_ok_status status = leb 200 status && leb status 299

unfoldable pub github_json : {A : Type 0} → Reply A → Result Thrown A
github_json rejected = err other_error
github_json (answered status body) =
    if is_ok_status status
    then elim body [ none ↦ err other_error | some value ↦ ok value ]
    else err (http_error status)

-- The requests, and the signed token of the app, which fails on a private key that is no key.
pub record GitHub : Type 0 where
  pub repository : Text → Text → Text → Reply GitHubRepository
  pub installation : Text → Text → Text → Reply GitHubInstallation
  pub app_jwt : Text → Text → Result Thrown Text

abbrev pub is_access_status : ℕ → Bool
is_access_status status = status == 401 || status == 403 || status == 404

unfoldable pub classify_status : ℕ → FailureReason
classify_status status =
    if is_access_status status
    then app_access
    else if status == 429 || leb 500 status || status == 0
    then temporary_unavailable
    else configuration

unfoldable pub classify : Thrown → FailureReason
classify (configuration_error e) = temporary_unavailable
classify (http_error status) = classify_status status
classify other_error = temporary_unavailable

abbrev pub refuse : FailureReason → Status
refuse reason = refused (record {
  reason = reason;
  message = repository_access_denied_message reason;
  temporary = none;
})

-- The outer `catch`.
unfoldable pub settle : Result Thrown Status → Configured Status
settle (ok status) = ok status
settle (err (configuration_error e)) = err e
settle (err other) = ok (
    refused (record {
      reason = classify other;
      message = repository_access_denied_message (classify other);
      temporary = some (is_temporary (classify other));
    }))

-- The inner `catch`: a refusal of the repository's own address is the user's.
unfoldable pub is_user_refusal : Thrown → Bool
is_user_refusal (http_error status) = is_access_status status
is_user_refusal _ = false

module _ (github : GitHub) (config : GitHubAppConfig) where
  unfoldable pub is_configured_repository : GitHubRepository → Bool
  is_configured_repository repo =
      text_eq (to_lower_case repo.name) (to_lower_case config.repo)
      && text_eq (to_lower_case repo.owner_login) (to_lower_case config.owner)

  unfoldable pub find_installation : Text → ℕ → ℕ → GitHubRepository → Result Thrown Status
  find_installation login github_id now repo = do
    jwt ← github.app_jwt config.app_id config.private_key
    installation ← github_json (github.installation config.owner config.repo jwt)
    ok (
        granted (record {
          owner = config.owner;
          repo = config.repo;
          login = login;
          github_id = github_id;
          repository_id = repo.id;
          installation_id = installation.id;
          checked_at = now;
        }))

  unfoldable pub check_repository :
      Text → ℕ → ℕ → Result Thrown GitHubRepository → Result Thrown Status
  check_repository login github_id now (err thrown) =
      if is_user_refusal thrown then ok (refuse user_access) else err thrown
  check_repository login github_id now (ok repo) =
      if is_configured_repository repo
      then find_installation login github_id now repo
      else ok (refuse user_access)

  unfoldable pub is_allowed : Text → Bool
  is_allowed login =
      not (ltb 0 (length config.allowed_logins))
      || any (text_eq (to_lower_case login)) config.allowed_logins

  unfoldable pub verify_repository_authorization : ℕ → Text → Text → ℕ → Configured Status
  verify_repository_authorization github_id login user_access_token now =
      if is_allowed login
      then settle (
          check_repository login github_id now
            (github_json (github.repository config.owner config.repo user_access_token)))
      else ok (refuse allowlist)

unfoldable pub create_repository_authorization_record : Access → ℕ → RepositoryAuthorization
create_repository_authorization_record status now = record {
  state = authorized;
  denial_reason = none;
  owner = status.owner;
  repo = status.repo;
  repository_id = some status.repository_id;
  installation_id = some status.installation_id;
  login = status.login;
  github_id = status.github_id;
  checked_at = now;
}

unfoldable pub create_denied_authorization_record :
    ℕ → Text → FailureReason → GitHubAppConfig → ℕ → RepositoryAuthorization
create_denied_authorization_record github_id login reason config now = record {
  state = denied;
  denial_reason = some reason;
  owner = config.owner;
  repo = config.repo;
  repository_id = none;
  installation_id = none;
  login = login;
  github_id = github_id;
  checked_at = now;
}

abbrev pub same_name : Text → Text → Bool
same_name a b = text_eq (to_lower_case a) (to_lower_case b)

unfoldable pub stored_authorization_matches_config : SessionRecord → GitHubAppConfig → Bool
stored_authorization_matches_config session config =
    a.github_id == session.github_id
    && same_name a.login session.login
    && same_name a.owner config.owner
    && same_name a.repo config.repo
  where
    open session use {repository_authorization as a}

pub record DeniedResponse : Type 0 where
  pub status : ℕ
  pub reason : FailureReason
  pub message : Text

unfoldable pub authorization_denied_response : FailureReason → DeniedResponse
authorization_denied_response reason = record {
  status = if is_temporary reason then 503 else 403;
  reason = reason;
  message = repository_access_denied_message reason;
}
