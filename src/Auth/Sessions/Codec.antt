-- ===== src/Auth/Sessions/Codec.antt =====
-- `serializeSession` and `parseSession` of lib/auth-core.ts. The text of JSON is the platform's:
-- `stringify` and `parse` are parameters. `JSON.stringify` drops fields that are undefined.
use Prim.Native.String.{String}
use artifact_dev_toolkit.Common.{ℕ, Bool, not, Option, none, some, ltb, if◌then◌else◌}
use artifact_dev_toolkit.Common.Text.{Text, codes, text_eq, is_truthy}
use artifact_dev_toolkit.Common.Json.{
  Json, array, num, text, object, Fields, end, field, property, as_text, as_num, as_nonempty,
  is_safe_id,
}
use artifact_dev_toolkit.Auth.Types.{
  AuthorizationState, authorized, denied, FailureReason, configuration, allowlist, app_access,
  user_access, temporary_unavailable, RepositoryAuthorization, SessionRecord,
}

abbrev pub state_text : AuthorizationState → Text
state_text authorized = codes "authorized"
state_text denied = codes "denied"

abbrev pub reason_text : FailureReason → Text
reason_text configuration = codes "configuration"
reason_text allowlist = codes "allowlist"
reason_text app_access = codes "app_access"
reason_text user_access = codes "user_access"
reason_text temporary_unavailable = codes "temporary_unavailable"

unfoldable pub state_of : Option Text → Option AuthorizationState
state_of none = none
state_of (some s) =
    if text_eq s (codes "authorized")
    then some authorized
    else if text_eq s (codes "denied")
    then some denied
    else none

unfoldable pub reason_of : Option Text → Option FailureReason
reason_of none = none
reason_of (some s) =
    if text_eq s (codes "configuration")
    then some configuration
    else if text_eq s (codes "allowlist")
    then some allowlist
    else if text_eq s (codes "app_access")
    then some app_access
    else if text_eq s (codes "user_access")
    then some user_access
    else if text_eq s (codes "temporary_unavailable")
    then some temporary_unavailable
    else none

-- A field whose value is undefined is left out.
unfoldable pub optional : {A : Type 0} → (A → Json) → Text → Option A → Fields → Fields
optional f name none rest = rest
optional f name (some value) rest = field name (f value) rest

unfoldable pub authorization_json : RepositoryAuthorization → Json
authorization_json a = object (
    field (codes "state") (text (state_text a.state)) (
      optional (λ reason. text (reason_text reason)) (codes "denialReason") a.denial_reason
        (field (codes "owner") (text a.owner) (
          field (codes "repo") (text a.repo) (
            optional num (codes "repositoryId") a.repository_id (
              optional num (codes "installationId") a.installation_id (
                field (codes "login") (text a.login) (
                  field (codes "githubId") (num a.github_id)
                    (field (codes "checkedAt") (num a.checked_at) end)))))))))

unfoldable pub session_json : SessionRecord → Json
session_json s = object (
    field (codes "id") (text s.id) (
      field (codes "githubId") (num s.github_id) (
        field (codes "login") (text s.login) (
          optional text (codes "name") s.name (
            optional text (codes "avatarUrl") s.avatar_url (
              optional num (codes "createdAt") s.created_at (
                field (codes "expiresAt") (num s.expires_at) (
                  optional num (codes "revokedAt") s.revoked_at (
                    field (codes "repositoryAuthorization")
                      (authorization_json s.repository_authorization)
                      (optional text (codes "encryptedUserAccessToken")
                        s.encrypted_user_access_token
                        (optional num (codes "userAccessTokenExpiresAt")
                          s.user_access_token_expires_at
                          (optional text (codes "tokenIv") s.token_iv end))))))))))))

-- `parsed.key` throws where `parsed` is null, and the caller's `catch` makes that undefined too.
abbrev pub get : String → Json → Option Json
get key value = property (codes key) value

infixl 5 ◌>>=◌
abbrev ◌>>=◌ : {A B : Type 0} → Option A → (A → Option B) → Option B
none >>= f = none
some a >>= f = f a

abbrev require : {B : Type 0} → Bool → Option B → Option B
require test rest = if test then rest else none

-- `Number.isSafeInteger` of a value that may be no number
abbrev safe_integer : Option Json → Option ℕ
safe_integer value = if is_safe_id (as_num value) then as_num value else none

-- `typeof value === "object"` of a value that is not null
abbrev pub as_object : Option Json → Option Json
as_object none = none
as_object (some (object fields)) = some (object fields)
as_object (some (array items)) = some (array items)
as_object (some other) = none

-- The tests of `parseSession`, in their order, and the record that the cast claims. A field that is
-- not tested is read at its declared type.
unfoldable pub session_of : Json → ℕ → Option SessionRecord
session_of parsed now = do
  id ← as_nonempty (get "id" parsed)
  github_id ← safe_integer (get "githubId" parsed)
  login ← as_nonempty (get "login" parsed)
  expires_at ← as_num (get "expiresAt" parsed)
  require (ltb now expires_at) do
    authorization ← as_object (get "repositoryAuthorization" parsed)
    owner ← as_nonempty (get "owner" authorization)
    repo ← as_nonempty (get "repo" authorization)
    authorized_login ← as_nonempty (get "login" authorization)
    state ← state_of (as_text (get "state" authorization))
    authorized_id ← safe_integer (get "githubId" authorization)
    checked_at ← as_num (get "checkedAt" authorization)
    some (record {
      id = id;
      github_id = github_id;
      login = login;
      name = as_text (get "name" parsed);
      avatar_url = as_text (get "avatarUrl" parsed);
      expires_at = expires_at;
      created_at = as_num (get "createdAt" parsed);
      revoked_at = as_num (get "revokedAt" parsed);
      repository_authorization = record {
        state = state;
        denial_reason = reason_of (as_text (get "denialReason" authorization));
        owner = owner;
        repo = repo;
        repository_id = as_num (get "repositoryId" authorization);
        installation_id = as_num (get "installationId" authorization);
        login = authorized_login;
        github_id = authorized_id;
        checked_at = checked_at;
      };
      encrypted_user_access_token = as_text (get "encryptedUserAccessToken" parsed);
      user_access_token_expires_at = as_num (get "userAccessTokenExpiresAt" parsed);
      token_iv = as_text (get "tokenIv" parsed);
    })

-- The platform's JSON text.
pub record JsonText : Type 0 where
  pub stringify : Json → Text
  pub parse : Text → Option Json

module _ (json : JsonText) where
  unfoldable pub serialize_session : SessionRecord → Text
  serialize_session session = json.stringify (session_json session)

  unfoldable pub parse_session : Option Text → ℕ → Option SessionRecord
  parse_session none now = none
  parse_session (some value) now =
      if not (is_truthy value)
      then none
      else elim (json.parse value) [ none ↦ none | some parsed ↦ session_of parsed now ]
