-- ===== src/Auth/Sessions/RoundTrip.antt =====
-- `parseSession` after `serializeSession`, both of lib/auth-core.ts.
use mathlib.Core.Option
use artifact_dev_toolkit.Common.{
  ℕ, ◌≡◌, refl, Bool, true, ◌&&◌, Option, none, some, arith, ltb, if◌then◌else◌,
}
use artifact_dev_toolkit.Common.Text.{Text, text_eq, is_truthy}
use artifact_dev_toolkit.Common.Json.{
  Json, num, text, Fields, property, lookup_field, as_text, as_num, as_nonempty, is_safe_integer,
}
use artifact_dev_toolkit.Auth.Types.{
  AuthorizationState, authorized, denied, FailureReason, configuration, allowlist, app_access,
  user_access, temporary_unavailable, RepositoryAuthorization, SessionRecord,
}
use artifact_dev_toolkit.Auth.Sessions.Codec.{
  state_text, reason_text, state_of, reason_of, optional, as_object, authorization_json,
  session_json, get, session_of, JsonText, serialize_session, parse_session,
}

abbrev merge : Option Json → Option Json → Option Json
merge (some value) rest = some value
merge none rest = rest

lookup-optional :
    {A : Type 0} (f : A → Json) (key name : Text) (value : Option A) (rest : Fields)
    → lookup_field key (optional f name value rest) ≡ (
        if text_eq name key
        then merge (Option.map f value) (lookup_field key rest)
        else lookup_field key rest)
unfolding optional lookup_field
lookup-optional f key name none rest = ground arith
lookup-optional f key name (some value) rest = refl

as_text-merge : (v : Option Text) → as_text (merge (Option.map text v) none) ≡ v
unfolding as_text
as_text-merge none = refl
as_text-merge (some v) = refl

as_num-merge : (v : Option ℕ) → as_num (merge (Option.map num v) none) ≡ v
unfolding as_num
as_num-merge none = refl
as_num-merge (some v) = refl

state_of-state_text : (s : AuthorizationState) → state_of (some (state_text s)) ≡ some s
unfolding state_of text_eq
state_of-state_text authorized = refl
state_of-state_text denied = refl

reason_of-merge :
    (v : Option FailureReason)
    → reason_of (as_text (merge (Option.map (λ reason. text (reason_text reason)) v) none)) ≡ v
unfolding reason_of text_eq as_text
reason_of-merge none = refl
reason_of-merge (some configuration) = refl
reason_of-merge (some allowlist) = refl
reason_of-merge (some app_access) = refl
reason_of-merge (some user_access) = refl
reason_of-merge (some temporary_unavailable) = refl

ruleset reads = (lookup-optional, as_text-merge, as_num-merge, reason_of-merge, state_of-state_text)

-- What `parseSession` asks of a session that is well typed.
abbrev pub is_readable : SessionRecord → ℕ → Bool
is_readable s now =
    is_truthy s.id
    && is_safe_integer s.github_id
    && is_truthy s.login
    && ltb now s.expires_at
    && is_truthy a.owner
    && is_truthy a.repo
    && is_truthy a.login
    && is_safe_integer a.github_id
  where
    open s use {repository_authorization as a}

authorization_reads :
    (a : RepositoryAuthorization)
    → (as_text (get "state" (authorization_json a)) ≡ some (state_text a.state))
      × (reason_of (as_text (get "denialReason" (authorization_json a))) ≡ a.denial_reason)
      × (get "owner" (authorization_json a) ≡ some (text a.owner))
      × (get "repo" (authorization_json a) ≡ some (text a.repo))
      × (as_num (get "repositoryId" (authorization_json a)) ≡ a.repository_id)
      × (as_num (get "installationId" (authorization_json a)) ≡ a.installation_id)
      × (get "login" (authorization_json a) ≡ some (text a.login))
      × (get "githubId" (authorization_json a) ≡ some (num a.github_id))
      × (get "checkedAt" (authorization_json a) ≡ some (num a.checked_at))
unfolding authorization_json property lookup_field text_eq as_text as_num
authorization_reads a = (
  refl,
  simp reads,
  simp reads,
  simp reads,
  simp reads,
  simp reads,
  simp reads,
  simp reads,
  simp reads,
)

as_object-authorization_json :
    (a : RepositoryAuthorization)
    → as_object (some (authorization_json a)) ≡ some (authorization_json a)
unfolding authorization_json
as_object-authorization_json a = refl

module _ (s : SessionRecord) where
  identity_reads :
      (get "id" (session_json s) ≡ some (text s.id))
      × (get "githubId" (session_json s) ≡ some (num s.github_id))
      × (get "login" (session_json s) ≡ some (text s.login))
      × (get "expiresAt" (session_json s) ≡ some (num s.expires_at))
      × (get "repositoryAuthorization" (session_json s)
          ≡ some (authorization_json s.repository_authorization))
  unfolding session_json property lookup_field text_eq
  identity_reads = (refl, refl, refl, simp reads, simp reads)

  optional_reads :
      (as_text (get "name" (session_json s)) ≡ s.name)
      × (as_text (get "avatarUrl" (session_json s)) ≡ s.avatar_url)
      × (as_num (get "createdAt" (session_json s)) ≡ s.created_at)
      × (as_num (get "revokedAt" (session_json s)) ≡ s.revoked_at)
      × (as_text (get "encryptedUserAccessToken" (session_json s)) ≡ s.encrypted_user_access_token)
      × (as_num (get "userAccessTokenExpiresAt" (session_json s)) ≡ s.user_access_token_expires_at)
      × (as_text (get "tokenIv" (session_json s)) ≡ s.token_iv)
  unfolding session_json property lookup_field text_eq
  optional_reads =
      (simp reads, simp reads, simp reads, simp reads, simp reads, simp reads, simp reads)

-- Reading the JSON of a session gives the session back, or nothing if a test fails.
session_of-session_json :
    (s : SessionRecord) (now : ℕ)
    → session_of (session_json s) now ≡ (if is_readable s now then some s else none)
unfolding session_of as_nonempty as_num
session_of-session_json s now =
    let (i0, i1, i2, i3, i4) = identity_reads s in
    let (o0, o1, o2, o3, o4, o5, o6) = optional_reads s in
    let (a0, a1, a2, a3, a4, a5, a6, a7, a8) = authorization_reads s.repository_authorization in
    let i5 = as_object-authorization_json s.repository_authorization in
    simp
      (
        i0, i1, i2, i3, i4, i5, o0, o1, o2, o3, o4, o5, o6, a0, a1, a2, a3, a4, a5, a6, a7, a8,
        state_of-state_text,
      )
      (ground arith)

-- The platform's JSON: reading back what was written gives the value, and no text of a value is
-- empty.
pub record IsCodec (json : JsonText) : Type 0 where
  pub reads_back : (value : Json) → json.parse (json.stringify value) ≡ some value
  pub not_empty : (value : Json) → is_truthy (json.stringify value) ≡ true

-- `parseSession` of a serialized session is the session while it has not expired, its ids are safe
-- integers and its names are not empty; otherwise it is undefined.
pub parse_session-serialize_session :
    (json : JsonText)
    → IsCodec json
    → (s : SessionRecord) (now : ℕ)
    → parse_session json (some (serialize_session json s)) now
      ≡ (if is_readable s now then some s else none)
unfolding parse_session serialize_session
parse_session-serialize_session json codec s now = ground (
  arith,
  codec.not_empty (session_json s),
  codec.reads_back (session_json s),
  session_of-session_json s now,
)
