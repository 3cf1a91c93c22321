-- ===== src/Auth/Types.antt =====
-- The constants and record types of lib/auth-core.ts and lib/repository-authorization.ts. Optional
-- fields are options; a time is in milliseconds since the epoch.
use artifact_dev_toolkit.Common.{ℕ, Bool, Option, ◌*◌}
use artifact_dev_toolkit.Common.Text.{Text}

abbrev pub session_ttl_seconds : ℕ
session_ttl_seconds = 60 * 60 * 8

abbrev pub oauth_state_ttl_seconds : ℕ
oauth_state_ttl_seconds = 60 * 10

pub record AuthCookie : Type 0 where
  pub http_only : Bool
  pub secure : Bool
  pub same_site : Text
  pub path : Text
  pub max_age : ℕ

pub data AuthorizationState : Type 0 where
  authorized denied : AuthorizationState

pub data FailureReason : Type 0 where
  configuration allowlist app_access user_access temporary_unavailable : FailureReason

pub record RepositoryAuthorization : Type 0 where
  pub state : AuthorizationState
  pub denial_reason : Option FailureReason
  pub owner : Text
  pub repo : Text
  pub repository_id : Option ℕ
  pub installation_id : Option ℕ
  pub login : Text
  pub github_id : ℕ
  pub checked_at : ℕ

pub record SessionRecord : Type 0 where
  pub id : Text
  pub github_id : ℕ
  pub login : Text
  pub name : Option Text
  pub avatar_url : Option Text
  pub expires_at : ℕ
  pub created_at : Option ℕ
  pub revoked_at : Option ℕ
  pub repository_authorization : RepositoryAuthorization
  pub encrypted_user_access_token : Option Text
  pub user_access_token_expires_at : Option ℕ
  pub token_iv : Option Text

pub record GitHubUser : Type 0 where
  pub id : ℕ
  pub login : Text
  pub name : Option Text
  pub avatar_url : Option Text

pub record CookieNames : Type 0 where
  pub session : Text
  pub state : Text
  pub return_to : Text
  pub pkce : Text

pub data OauthErrorCode : Type 0 where
  denied invalid_state missing_code : OauthErrorCode
  github_exchange_failed github_identity_failed session_creation_failed : OauthErrorCode
  configuration oauth_start_failed : OauthErrorCode
