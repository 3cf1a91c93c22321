-- ===== src/Auth/Gates.antt =====
-- The gates of lib/auth.ts that pages and API routes pass through, and the public configuration of
-- lib/public-repository-configuration.ts that the diagnostics compare with.
pub mod Entry
use Prim.Native.String.{String}
use artifact_dev_toolkit.Common.{
  ℕ, Bool, true, false, not, ◌&&◌, ◌||◌, Option, none, some, List, [], ltb, ◌==◌, if◌then◌else◌,
  Result, ok, err, is_some,
}
use artifact_dev_toolkit.Common.Text.{Text, codes, text_eq, is_truthy, trim, to_lower_case}
use artifact_dev_toolkit.Common.Json.{is_safe_id}
use artifact_dev_toolkit.Auth.Types.{
  SessionRecord, RepositoryAuthorization, configuration, FailureReason,
}
use artifact_dev_toolkit.Auth.Configuration.{Environment}
use artifact_dev_toolkit.Auth.Sessions.Store.{Database}
use artifact_dev_toolkit.Auth.Repository.{
  Access, Refusal, DeniedResponse, authorization_denied_response, same_name,
}
use artifact_dev_toolkit.Auth.Access.{
  Deployment, Uncaught, Resolution, is_authorized, resolve_repository_access,
}
use artifact_dev_toolkit.Auth.Oauth.{Jar, get_session}

-- A page goes on with a value, or the browser is sent to another page. The return address is a
-- parameter of the sign-in page.
pub data Page (A : Type 0) : Type 0 where
  enter : A → Page A
  redirect_sign_in : Text → Page A
  redirect_denied : Page A

-- An API route goes on with a value, or answers 401, or 403 or 503 with a reason.
pub data Api (A : Type 0) : Type 0 where
  proceed : A → Api A
  unauthenticated : Text → Api A
  forbidden : DeniedResponse → Api A
  diagnostics_denied : Api A

pub data Backend : Type 0 where
  github_backend file_backend : Backend

-- `value === "..."`
abbrev pub is_value : String → Option Text → Bool
is_value expected none = false
is_value expected (some value) = text_eq value (codes expected)

-- `none` is the error of the configuration. An empty value counts as missing.
unfoldable pub get_artifact_repository_backend : Environment → Option Backend
get_artifact_repository_backend env =
    let production = is_value "production" (env (codes "NODE_ENV")) in
    elim (env (codes "ARTIFACT_REPOSITORY")) [
      | none ↦ if production then none else some file_backend
      | some value ↦
          if text_eq value (codes "github")
          then some github_backend
          else if text_eq value (codes "file") && not production
          then some file_backend
          else if text_eq value (codes "file")
          then none
          else if not (is_truthy value) && not production
          then some file_backend
          else none
    ]

pub record PublicConfiguration : Type 0 where
  pub backend : Option Backend
  pub owner : Option Text
  pub repository : Option Text
  pub branch : Text
  pub identity_valid : Bool

unfoldable pub normalized : Option Text → Option Text
normalized none = none
normalized (some value) = if is_truthy (trim value) then some (trim value) else none

abbrev pub names_both : Option Text → Option Text → Bool
names_both owner repository = is_some owner && is_some repository

unfoldable pub get_public_repository_configuration : Environment → PublicConfiguration
get_public_repository_configuration env =
    let backend = get_artifact_repository_backend env in
    let owner = normalized (env (codes "GITHUB_ARTIFACT_REPOSITORY_OWNER")) in
    let repository = normalized (env (codes "GITHUB_ARTIFACT_REPOSITORY_NAME")) in
    record {
      backend = backend;
      owner = owner;
      repository = repository;
      branch = elim (normalized (env (codes "GITHUB_ARTIFACT_REPOSITORY_BRANCH"))) [
        | none ↦ codes "main"
        | some branch ↦ branch
      ];
      identity_valid = elim backend [
        | none ↦ false
        | some file_backend ↦ true
        | some github_backend ↦ names_both owner repository
      ];
    }

-- `none` is "unknown".
unfoldable pub stored_repository_matches_public_configuration :
    RepositoryAuthorization → PublicConfiguration → Option Bool
stored_repository_matches_public_configuration stored config = elim config.owner [
  | none ↦ none
  | some owner ↦ elim config.repository [
    | none ↦ none
    | some repository ↦ some (same_name stored.owner owner && same_name stored.repo repository)
  ]
]

-- A safe integer above zero.
abbrev pub is_positive_id : Option ℕ → Bool
is_positive_id none = false
is_positive_id (some n) = is_safe_id (some n) && ltb 0 n

abbrev pub is_not_false : Option Bool → Bool
is_not_false none = true
is_not_false (some b) = b

module _ (d : Deployment) (node_env : Text) where
  unfoldable pub require_auth :
      Text → ℕ → Database × Jar → Result Uncaught (Page SessionRecord) × Database
  require_auth return_to now s =
      let (found, db') = get_session d node_env now s in
      elim found [
        | err e ↦ (err e, db')
        | ok none ↦ (ok (redirect_sign_in return_to), db')
        | ok (some session) ↦ (ok (enter session), db')
      ]

  abbrev pub page_of : Text → Resolution → Page (SessionRecord × Access)
  page_of return_to resolution =
      if resolution.reauthenticate then redirect_sign_in return_to else elim resolution.access [
        | none ↦ redirect_denied
        | some access ↦ enter (resolution.session, access)
      ]

  -- `now` is the time at which the session is read, `checked` that of the check of its access.
  unfoldable pub require_repository_access :
      Text → ℕ → ℕ → ℕ → Database × Jar → Result Uncaught (Page (SessionRecord × Access)) × Database
  require_repository_access return_to now checked revoked_at s =
      let (page, db') = require_auth return_to now s in
      elim page [
        | err e ↦ (err e, db')
        | ok (redirect_sign_in target) ↦ (ok (redirect_sign_in target), db')
        | ok redirect_denied ↦ (ok redirect_denied, db')
        | ok (enter session) ↦
            let (resolved, db'') = resolve_repository_access d session checked revoked_at db' in
            elim resolved [
              | err e ↦ (err e, db'')
              | ok resolution ↦ (ok (page_of return_to resolution), db'')
            ]
      ]

  -- The test of both diagnostics gates, on the stored authorisation alone.
  unfoldable pub may_diagnose : SessionRecord → Bool
  may_diagnose session =
      is_authorized a.state
      && is_positive_id a.repository_id
      && is_positive_id a.installation_id
      && a.github_id == session.github_id
      && same_name a.login session.login
      && is_not_false (
          stored_repository_matches_public_configuration a
            (get_public_repository_configuration d.env))
    where
      open session use {repository_authorization as a}

  unfoldable pub require_diagnostics_access :
      Text → ℕ → Database × Jar → Result Uncaught (Page SessionRecord) × Database
  require_diagnostics_access return_to now s =
      let (page, db') = require_auth return_to now s in
      elim page [
        | err e ↦ (err e, db')
        | ok (redirect_sign_in target) ↦ (ok (redirect_sign_in target), db')
        | ok redirect_denied ↦ (ok redirect_denied, db')
        | ok (enter session) ↦
            (ok (if may_diagnose session then enter session else redirect_denied), db')
      ]

  unfoldable pub require_api_diagnostics_access :
      ℕ → Database × Jar → Result Uncaught (Api SessionRecord) × Database
  require_api_diagnostics_access now s =
      let (found, db') = get_session d node_env now s in
      elim found [
        | err e ↦ (err e, db')
        | ok none ↦ (ok (unauthenticated (codes "/diagnostics")), db')
        | ok (some session) ↦
            (ok (if may_diagnose session then proceed session else diagnostics_denied), db')
      ]

  abbrev pub failure_reason : Option Refusal → FailureReason
  failure_reason none = configuration
  failure_reason (some refusal) = refusal.reason

  abbrev pub api_of : Text → Resolution → Api (Access × SessionRecord)
  api_of request_path resolution = elim resolution.access [
    | some access ↦ proceed (access, resolution.session)
    | none ↦
        if resolution.reauthenticate
        then unauthenticated request_path
        else forbidden (authorization_denied_response (failure_reason resolution.failure))
  ]

  -- `request_path` is the path and the query of the request.
  unfoldable pub require_api_repository_access :
      Text → ℕ → ℕ → ℕ → Database × Jar → Result Uncaught (Api (Access × SessionRecord)) × Database
  require_api_repository_access request_path now checked revoked_at s =
      let (found, db') = get_session d node_env now s in
      elim found [
        | err e ↦ (err e, db')
        | ok none ↦ (ok (unauthenticated request_path), db')
        | ok (some session) ↦
            let (resolved, db'') = resolve_repository_access d session checked revoked_at db' in
            elim resolved [
              | err e ↦ (err e, db'')
              | ok resolution ↦ (ok (api_of request_path resolution), db'')
            ]
      ]
