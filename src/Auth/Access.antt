-- ===== src/Auth/Access.antt =====
-- `resolveRepositoryAccess` of lib/auth.ts: what a session may do now, with the stored authorisation
-- renewed where it has grown old.
pub mod Grants
pub mod Outcomes
use artifact_dev_toolkit.Common.{
  ℕ, Bool, true, false, not, ◌&&◌, ◌||◌, Option, none, some, List, leb, ltb, ◌==◌, if◌then◌else◌,
  Result, ok, err, ◌>>=◌,
}
use artifact_dev_toolkit.Common.Text.{Text, codes, is_truthy, to_lower_case}
use artifact_dev_toolkit.Common.Json.{is_safe_integer, is_safe_id}
use artifact_dev_toolkit.Auth.Types.{
  AuthorizationState, authorized, denied, FailureReason, configuration, temporary_unavailable,
  RepositoryAuthorization, SessionRecord,
}
use artifact_dev_toolkit.Auth.Configuration.{
  Environment, AuthenticationConfigurationError, Configured, SessionSecurityConfig,
  get_oauth_exchange_config, get_session_security_config, validate_token_encryption_key,
}
use artifact_dev_toolkit.Auth.Sessions.Store.{
  Database, StoreError, Platform, update_session_authorization, revoke_session_id, find_session,
}
use artifact_dev_toolkit.Auth.Repository.{
  Access, Refusal, Status, granted, refused, GitHubAppConfig, GitHub,
  get_repository_authorization_config, authorization_requires_revalidation,
  stored_authorization_matches_config, create_denied_authorization_record,
  create_repository_authorization_record, verify_repository_authorization, DeniedResponse,
  authorization_denied_response,
}

-- An exception that reaches the caller.
pub data Uncaught : Type 0 where
  bad_configuration : AuthenticationConfigurationError → Uncaught
  store_failed : StoreError → Uncaught

pub record Resolution : Type 0 where
  pub session : SessionRecord
  pub access : Option Access
  pub failure : Option Refusal
  pub reauthenticate : Bool
  pub refreshed : Bool

-- The deployment: its settings, the platform, GitHub, and the decryption of a stored token under the
-- bytes of the key, which fails on what was not encrypted so.
pub record Deployment : Type 0 where
  pub env : Environment
  pub platform : Platform
  pub github : GitHub
  pub decrypt : List ℕ → Text → Text → Option Text

-- A computation over the table of sessions.
abbrev pub Stored : Type 0 → Type 0
Stored A = Database → Result Uncaught A × Database

unfoldable pub not_authorised : FailureReason → Refusal
not_authorised reason = record {
  reason = reason;
  message = codes "Repository access is not authorised.";
  temporary = none;
}

unfoldable pub unavailable : Refusal
unavailable = record {
  reason = temporary_unavailable;
  message = codes "Repository authorisation is temporarily unavailable.";
  temporary = none;
}

abbrev pub give_access : SessionRecord → Access → Bool → Resolution
give_access session access refreshed = record {
  session = session;
  access = some access;
  failure = none;
  reauthenticate = false;
  refreshed = refreshed;
}

abbrev pub fail : SessionRecord → Refusal → Bool → Resolution
fail session refusal refreshed = record {
  session = session;
  access = none;
  failure = some refusal;
  reauthenticate = false;
  refreshed = refreshed;
}

abbrev pub sign_in_again : SessionRecord → Resolution
sign_in_again session = record {
  session = session;
  access = none;
  failure = none;
  reauthenticate = true;
  refreshed = false;
}

abbrev pub reason_or : Option FailureReason → FailureReason → FailureReason
reason_or none fallback = fallback
reason_or (some reason) fallback = reason

unfoldable pub authorize : SessionRecord → RepositoryAuthorization → SessionRecord
authorize session a = record session { repository_authorization = a }

-- The access of a stored authorisation that is fresh, with the ids that were checked to be there.
unfoldable pub stored_access : SessionRecord → ℕ → ℕ → Access
stored_access session repository_id installation_id = record {
  owner = session.repository_authorization.owner;
  repo = session.repository_authorization.repo;
  login = to_lower_case session.login;
  github_id = session.github_id;
  repository_id = repository_id;
  installation_id = installation_id;
  checked_at = session.repository_authorization.checked_at;
}

abbrev pub is_authorized : AuthorizationState → Bool
is_authorized authorized = true
is_authorized denied = false

-- An option whose text is not empty.
abbrev pub present : Option Text → Option Text
present none = none
present (some value) = if is_truthy value then some value else none

-- The encrypted token, where the session still has one that has not expired. A time of zero counts
-- as missing.
unfoldable pub usable_token : SessionRecord → ℕ → Option (Text × Text)
usable_token session now = elim (present session.encrypted_user_access_token) [
  | none ↦ none
  | some encrypted ↦ elim (present session.token_iv) [
    | none ↦ none
    | some iv ↦ elim session.user_access_token_expires_at [
      | none ↦ none
      | some expires_at ↦
          if expires_at == 0 || leb expires_at now then none else some (encrypted, iv)
    ]
  ]
]

unfoldable pub get_auth_config : Environment → Configured SessionSecurityConfig
get_auth_config env = get_oauth_exchange_config env >>= λ exchange. get_session_security_config env

module _ (d : Deployment) where
  -- A statement under the session secret; without a valid configuration it is not run.
  unfoldable pub with_secret :
      {A : Type 0} → (Text → Database → Result StoreError A × Database) → Stored A
  with_secret run db = elim (get_auth_config d.env) [
    | err e ↦ (err (bad_configuration e), db)
    | ok config ↦
        let (result, db') = run config.session_secret db in
        (elim result [ err e ↦ err (store_failed e) | ok a ↦ ok a ], db')
  ]

  unfoldable pub persist_authorization : SessionRecord → Stored (Unit {0})
  persist_authorization session =
      with_secret λ secret. update_session_authorization d.platform secret session

  unfoldable pub revoke_session : Text → ℕ → Stored Text
  revoke_session id now = with_secret λ secret. revoke_session_id d.platform secret id now

  unfoldable pub load_session : Text → ℕ → Stored (Option SessionRecord)
  load_session id now = with_secret λ secret. find_session d.platform secret id now

  -- `none` is any error: the caller treats them alike.
  unfoldable pub decrypt_user_access_token : Text → Text → Option Text
  decrypt_user_access_token encrypted iv = elim (get_auth_config d.env) [
    | err e ↦ none
    | ok config ↦ elim (validate_token_encryption_key config.token_encryption_key) [
      | err e ↦ none
      | ok key ↦ d.decrypt key encrypted iv
    ]
  ]

  -- The stored authorisation names another user or repository.
  unfoldable pub deny_mismatch : GitHubAppConfig → SessionRecord → ℕ → Stored Resolution
  deny_mismatch config session now db =
      let record_ =
        create_denied_authorization_record session.github_id session.login configuration config
          now in
      let session' = authorize session record_ in
      let (saved, db') = persist_authorization session' db in
      elim saved [
        | err e ↦ (ok (fail session' unavailable false), db')
        | ok done ↦ (ok (fail session' (not_authorised configuration) false), db')
      ]

  unfoldable pub revoke_and_sign_in : SessionRecord → ℕ → Stored Resolution
  revoke_and_sign_in session revoked_at db =
      let (revoked, db') = revoke_session session.id revoked_at db in
      elim revoked [ err e ↦ (err e, db') | ok id ↦ (ok (sign_in_again session), db') ]

  unfoldable pub renewed : GitHubAppConfig → SessionRecord → ℕ → Status → SessionRecord
  renewed config session now (granted access) =
      authorize session (create_repository_authorization_record access now)
  renewed config session now (refused refusal) =
      authorize session (
        create_denied_authorization_record session.github_id session.login refusal.reason config
          now)

  abbrev pub resolution_of : SessionRecord → Status → Resolution
  resolution_of session (granted access) = give_access session access true
  resolution_of session (refused refusal) = fail session refusal true

  unfoldable pub save_renewed : GitHubAppConfig → SessionRecord → ℕ → Status → Stored Resolution
  save_renewed config session now status db =
      let session' = renewed config session now status in
      let (saved, db') = persist_authorization session' db in
      elim saved [
        | err e ↦ (ok (fail session' unavailable true), db')
        | ok done ↦ (ok (resolution_of session' status), db')
      ]

  unfoldable pub renew : GitHubAppConfig → SessionRecord → ℕ → ℕ → Stored Resolution
  renew config session now revoked_at db = elim (usable_token session now) [
    | none ↦ revoke_and_sign_in session revoked_at db
    | some (encrypted, iv) ↦ elim (decrypt_user_access_token encrypted iv) [
      | none ↦ revoke_and_sign_in session revoked_at db
      | some token ↦
          elim (verify_repository_authorization d.github config session.github_id session.login
            token now) [
              | err e ↦ (err (bad_configuration e), db)
              | ok status ↦ save_renewed config session now status db
            ]
    ]
  ]

  -- The stored authorisation is fresh, so it decides.
  unfoldable pub use_stored : SessionRecord → Resolution
  use_stored session =
      if not (is_authorized a.state)
        || not (is_safe_id a.repository_id)
        || not (is_safe_id a.installation_id)
      then fail session (not_authorised (reason_or a.denial_reason configuration)) false
      else elim a.repository_id [
        | none ↦ fail session (not_authorised (reason_or a.denial_reason configuration)) false
        | some repository_id ↦ elim a.installation_id [
          | none ↦ fail session (not_authorised (reason_or a.denial_reason configuration)) false
          | some installation_id ↦
              give_access session (stored_access session repository_id installation_id) false
        ]
      ]
    where
      open session use {repository_authorization as a}

  -- `now` is the time of the request, `revoked_at` the later reading of a revocation.
  unfoldable pub resolve_repository_access : SessionRecord → ℕ → ℕ → Stored Resolution
  resolve_repository_access session now revoked_at db =
      elim (get_repository_authorization_config d.env) [
        | err e ↦ (err (bad_configuration e), db)
        | ok config ↦
            if not (stored_authorization_matches_config session config)
            then deny_mismatch config session now db
            else if authorization_requires_revalidation session.repository_authorization now
            then renew config session now revoked_at db
            else (ok (use_stored session), db)
      ]
