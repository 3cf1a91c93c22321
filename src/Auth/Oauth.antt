-- ===== src/Auth/Oauth.antt =====
-- The OAuth sign-in of lib/auth.ts: the cookies of a request, the start of a sign-in, the one use of
-- its state, the exchange of the code, and the session that comes of it.
pub mod State
pub mod SignedIn
use Prim.Native.Nat.{min, max}
use artifact_dev_toolkit.Common.{
  ℕ, ◌+◌, ◌-◌, ◌*◌, ◌/◌, Bool, true, false, not, ◌&&◌, Option, none, some, List, [], ◌∷◌, filter,
  find, leb, ◌==◌, if◌then◌else◌, is_some, Result, ok, err, ◌>>=◌,
}
use artifact_dev_toolkit.Common.Text.{Text, codes, text_eq, is_truthy}
use artifact_dev_toolkit.Common.Json.{Json}
use artifact_dev_toolkit.Auth.Types.{
  AuthCookie, CookieNames, GitHubUser, SessionRecord, RepositoryAuthorization, session_ttl_seconds,
  oauth_state_ttl_seconds,
}
use artifact_dev_toolkit.Auth.Core.{
  cookie_names, cookie_options, random_token, constant_time_equal, validate_github_user,
}
use artifact_dev_toolkit.Auth.Configuration.{
  Environment, AuthenticationConfigurationError, Configured, OauthStartConfig, OauthExchangeConfig,
  validate_production_auth_readiness, validate_token_encryption_key, get_oauth_exchange_config,
}
use artifact_dev_toolkit.Auth.Sessions.Store.{Database, insert_session}
use artifact_dev_toolkit.Auth.Repository.{
  Access, Refusal, Status, granted, refused, GitHubAppConfig, Reply, rejected, answered,
  is_ok_status, get_repository_authorization_config, should_retain_user_token,
  verify_repository_authorization, create_repository_authorization_record,
  create_denied_authorization_record,
}
use artifact_dev_toolkit.Auth.Access.{
  Deployment, Uncaught, bad_configuration, with_secret, get_auth_config, revoke_session,
  load_session,
}
use artifact_dev_toolkit.Auth.ReturnTo.{Web, safe_return_to}

pub record Cookie : Type 0 where
  pub name : Text
  pub value : Text
  pub options : Option AuthCookie

-- The cookies as the handler sees them, its own changes included.
abbrev pub Jar : Type 0
Jar = List Cookie

abbrev pub named : Text → Cookie → Bool
named name cookie = text_eq cookie.name name

-- `cookieStore.get(name)?.value`
unfoldable pub get_cookie : Text → Jar → Option Text
get_cookie name jar = elim (find (named name) jar) [ none ↦ none | some cookie ↦ some cookie.value ]

unfoldable pub delete_cookie : Text → Jar → Jar
delete_cookie name jar = filter (λ cookie. not (named name cookie)) jar

unfoldable pub set_cookie : Text → Text → AuthCookie → Jar → Jar
set_cookie name value options jar =
    record { name = name; value = value; options = some options } ∷ delete_cookie name jar

pub record OauthState : Type 0 where
  pub valid : Bool
  pub return_to : Text
  pub pkce_verifier : Option Text

-- The parameters of the address to which the browser is sent.
pub record AuthorizeUrl : Type 0 where
  pub client_id : Text
  pub state : Text
  pub code_challenge : Text
  pub code_challenge_method : Text

abbrev pub is_given : Option Text → Bool
is_given none = false
is_given (some value) = is_truthy value

module _ (web : Web) (node_env : Text) where
  -- The random bytes of the state and of the verifier, and the hash of a verifier, are given.
  unfoldable pub create_oauth_start :
      Environment
      → (Text → Configured (Unit {0}))
      → (Text → Text)
      → List ℕ
      → List ℕ
      → Option Text
      → Jar
      → Configured AuthorizeUrl × Jar
  create_oauth_start env validate_key create_pkce_challenge state_bytes verifier_bytes return_to
        jar =
      elim (validate_production_auth_readiness env validate_key) [
        | err e ↦ (err e, jar)
        | ok config ↦
            let state = random_token state_bytes in
            let verifier = random_token verifier_bytes in
            let names = cookie_names node_env in
            let options = cookie_options oauth_state_ttl_seconds node_env in
            let jar₁ = set_cookie names.state state options jar in
            let jar₂ = set_cookie names.return_to (safe_return_to web return_to) options jar₁ in
            let jar₃ = set_cookie names.pkce verifier options jar₂ in
            (
              ok (record {
                client_id = config.client_id;
                state = state;
                code_challenge = create_pkce_challenge verifier;
                code_challenge_method = codes "S256";
              }),
              jar₃,
            )
      ]

  unfoldable pub consume_oauth_state : Option Text → Jar → OauthState × Jar
  consume_oauth_state state jar =
      let names = cookie_names node_env in
      let expected = get_cookie names.state jar in
      let return_to = safe_return_to web (get_cookie names.return_to jar) in
      let jar₁ = delete_cookie names.state jar in
      let pkce_verifier = get_cookie names.pkce jar₁ in
      let jar₂ = delete_cookie names.pkce (delete_cookie names.return_to jar₁) in
      (
        record {
          valid = constant_time_equal state expected && is_given pkce_verifier;
          return_to = return_to;
          pkce_verifier = pkce_verifier;
        },
        jar₂,
      )

-- What an exchange or a session throws, by the category that the callback reads.
pub data FlowError : Type 0 where
  flow_configuration : AuthenticationConfigurationError → FlowError
  token_exchange identity_lookup unexpected : FlowError

pub record TokenPayload : Type 0 where
  pub access_token : Option Text
  pub expires_in : Option ℕ

pub record ExchangeResult : Type 0 where
  pub user : GitHubUser
  pub repository_authorization : Status
  pub user_access_token : Text
  pub user_token_expires_at : ℕ

abbrev pub Flow : Type 0 → Type 0
Flow A = Result FlowError A

abbrev pub configured : {A : Type 0} → Configured A → Flow A
configured (ok a) = ok a
configured (err e) = err (flow_configuration e)

-- The answer to the code: an error status or a missing token is of the exchange, a request that is
-- rejected or a body that is no JSON has no category.
unfoldable pub read_token : Reply TokenPayload → Flow (Text × Option ℕ)
read_token rejected = err unexpected
read_token (answered status body) =
    if not (is_ok_status status) then err token_exchange else elim body [
      | none ↦ err unexpected
      | some payload ↦ elim payload.access_token [
        | none ↦ err token_exchange
        | some token ↦
            if is_truthy token then ok (token, payload.expires_in) else err token_exchange
      ]
    ]

unfoldable pub read_user : Reply Json → Flow GitHubUser
read_user rejected = err unexpected
read_user (answered status body) =
    if not (is_ok_status status) then err identity_lookup else elim body [
      | none ↦ err identity_lookup
      | some value ↦ elim (validate_github_user value) [
        | none ↦ err identity_lookup
        | some user ↦ ok user
      ]
    ]

abbrev pub seconds_or : Option ℕ → ℕ → ℕ
seconds_or none fallback = fallback
seconds_or (some seconds) fallback = seconds

-- GitHub's answers to the code and to the question who the user is.
pub record OauthEndpoints : Type 0 where
  pub access_token : OauthExchangeConfig → Text → Text → Reply TokenPayload
  pub user : Text → Reply Json

module _ (d : Deployment) (node_env : Text) where
  -- `received` is the time of the token's answer, `now` that of the check of the repository.
  unfoldable pub exchange_github_code : OauthEndpoints → ℕ → ℕ → Text → Text → Flow ExchangeResult
  exchange_github_code github received now code pkce_verifier = do
    exchange ← configured (get_oauth_exchange_config d.env)
    security ← configured (get_auth_config d.env)
    config ← configured (get_repository_authorization_config d.env)
    token ← read_token (github.access_token exchange code pkce_verifier)
    user ← read_user (github.user token.0)
    status ←
        configured (verify_repository_authorization d.github config user.id user.login token.0 now)
    ok (record {
      user = user;
      repository_authorization = status;
      user_access_token = token.0;
      user_token_expires_at = received + max 1 (seconds_or token.1 28800) * 1000;
    })

  -- The sealed text and its vector, under the bytes of the key.
  unfoldable pub encrypt_user_access_token :
      (List ℕ → Text → Text × Text) → Text → Configured (Text × Text)
  encrypt_user_access_token encrypt token = do
    config ← get_auth_config d.env
    key ← validate_token_encryption_key config.token_encryption_key
    ok (encrypt key token)

  -- `retainUserToken && userAccessToken ? … : {}`
  unfoldable pub token_fields :
      (List ℕ → Text → Text × Text) → Status → Option Text → Configured (Option (Text × Text))
  token_fields encrypt status none = ok none
  token_fields encrypt status (some token) =
      if should_retain_user_token status && is_truthy token
      then (do sealed ← encrypt_user_access_token encrypt token; ok (some sealed))
      else ok none

  unfoldable pub initial_authorization :
      GitHubAppConfig → GitHubUser → Status → ℕ → RepositoryAuthorization
  initial_authorization config user (granted access) now =
      create_repository_authorization_record access access.checked_at
  initial_authorization config user (refused refusal) now =
      create_denied_authorization_record user.id user.login refusal.reason config now

  unfoldable pub new_session :
      GitHubAppConfig → GitHubUser → Status → Option (Text × Text) → ℕ → List ℕ → ℕ → SessionRecord
  new_session config user status sealed user_token_expires_at id_bytes now = record {
    id = random_token id_bytes;
    github_id = user.id;
    login = user.login;
    name = user.name;
    avatar_url = user.avatar_url;
    expires_at = min (now + session_ttl_seconds * 1000) user_token_expires_at;
    created_at = some now;
    revoked_at = none;
    repository_authorization = initial_authorization config user status now;
    encrypted_user_access_token = elim sealed [ none ↦ none | some pair ↦ some pair.0 ];
    user_access_token_expires_at =
        if should_retain_user_token status then some user_token_expires_at else none;
    token_iv = elim sealed [ none ↦ none | some pair ↦ some pair.1 ];
  }

  abbrev pub Signed : Type 0 → Type 0
  Signed A = Database × Jar → Result Uncaught A × Database × Jar

  -- `storeSession`, and the cookie of the session.
  unfoldable pub store_new_session : ℕ → SessionRecord → Signed SessionRecord
  store_new_session now session (db, jar) =
      let (stored, db') =
        with_secret d (λ secret. insert_session d.platform secret session now) db in
      elim stored [
        | err e ↦ (err e, db', jar)
        | ok id ↦ (
          ok session,
          db',
          set_cookie (cookie_names node_env).session session.id
              (cookie_options ((session.expires_at - now) / 1000) node_env) jar,
        )
      ]

  -- One reading of the clock stands for those that `createSession` makes.
  unfoldable pub create_session :
      (List ℕ → Text → Text × Text)
      → List ℕ
      → ℕ
      → GitHubUser
      → Status
      → Option Text
      → ℕ
      → Signed SessionRecord
  create_session encrypt id_bytes now user status token user_token_expires_at (db, jar) =
      elim (get_repository_authorization_config d.env) [
        | err e ↦ (err (bad_configuration e), db, jar)
        | ok config ↦ elim (token_fields encrypt status token) [
          | err e ↦ (err (bad_configuration e), db, jar)
          | ok sealed ↦
              store_new_session now
                (new_session config user status sealed user_token_expires_at id_bytes now) (db, jar)
        ]
      ]

  unfoldable pub get_session :
      ℕ → Database × Jar → Result Uncaught (Option SessionRecord) × Database
  get_session now (db, jar) = elim (get_cookie (cookie_names node_env).session jar) [
    | none ↦ (ok none, db)
    | some id ↦ if is_truthy id then load_session d id now db else (ok none, db)
  ]

  -- The cookie goes only if the session could be revoked.
  unfoldable pub destroy_session : ℕ → Signed (Unit {0})
  destroy_session now (db, jar) =
      let name = (cookie_names node_env).session in
      elim (get_cookie name jar) [
        | none ↦ (ok tt, db, delete_cookie name jar)
        | some id ↦
            if is_truthy id
            then (let (revoked, db') = revoke_session d id now db in
                elim revoked [
                  | err e ↦ (err e, db', jar)
                  | ok stored ↦ (ok tt, db', delete_cookie name jar)
                ])
            else (ok tt, db, delete_cookie name jar)
      ]
