-- ===== src/Auth/Configuration.antt =====
-- lib/auth-configuration.ts: the settings that sign-in needs, read from the environment.
pub mod Base64
pub mod Settings
use Prim.Native.String.{String}
use artifact_dev_toolkit.Common.{
  ℕ, Bool, true, false, not, ◌||◌, ◌&&◌, Option, none, some, List, [], ◌∷◌, map, filter, length,
  ltb, leb, ◌==◌, if◌then◌else◌, is_some, Result, ok, err, ◌>>=◌, ◌>>◌, throw_if,
}
use artifact_dev_toolkit.Common.Text.{Text, codes, text_eq, is_truthy, starts_with, ends_with, trim}
use artifact_dev_toolkit.Auth.Configuration.Base64.{is_base64, decode_base64}

pub data ConfigurationErrorCode : Type 0 where
  missing_configuration invalid_session_secret : ConfigurationErrorCode
  invalid_encryption_key_format invalid_encryption_key_length : ConfigurationErrorCode
  invalid_repository_backend invalid_private_key : ConfigurationErrorCode

pub record AuthenticationConfigurationError : Type 0 where
  pub code : ConfigurationErrorCode
  pub missing_names : Option (List Text)

-- The order of `Array.prototype.sort` on texts, by code units.
unfoldable pub text_le : Text → Text → Bool
text_le [] t = true
text_le (a ∷ s) [] = false
text_le (a ∷ s) (b ∷ t) = if a == b then text_le s t else leb a b

unfoldable pub insert_name : Text → List Text → List Text
insert_name name [] = name ∷ []
insert_name name (other ∷ names) =
    if text_le name other then name ∷ other ∷ names else other ∷ insert_name name names

unfoldable pub sort_names : List Text → List Text
sort_names [] = []
sort_names (name ∷ names) = insert_name name (sort_names names)

abbrev pub code_error : ConfigurationErrorCode → AuthenticationConfigurationError
code_error code = record { code = code; missing_names = none }

unfoldable pub missing_error : List Text → AuthenticationConfigurationError
missing_error names = record {
  code = missing_configuration;
  missing_names = some (sort_names names);
}

-- `process.env`
abbrev pub Environment : Type 0
Environment = Text → Option Text

-- `process.env[name]?.trim()`, empty where the name is not set
unfoldable pub setting : Environment → Text → Text
setting env name = elim (env name) [ none ↦ [] | some value ↦ trim value ]

-- The values come in the order of the names, each with its name.
unfoldable pub require_authentication_values :
    Environment → List Text → Result AuthenticationConfigurationError (List (Text × Text))
require_authentication_values env names =
    let missing_names = filter (λ name. not (is_truthy (setting env name))) names in
    if ltb 0 (length missing_names)
    then err (missing_error missing_names)
    else ok (map (λ name. (name, setting env name)) names)

-- `values.NAME`
unfoldable pub value_of : String → List (Text × Text) → Text
value_of name [] = []
value_of name ((key, value) ∷ values) =
    if text_eq key (codes name) then value else value_of name values

abbrev pub Configured : Type 0 → Type 0
Configured A = Result AuthenticationConfigurationError A

abbrev pub is_quoted : ℕ → Text → Bool
is_quoted quote value = starts_with value (quote ∷ []) || ends_with value (quote ∷ [])

-- The quotes are `"` and `'`.
unfoldable pub validate_token_encryption_key : Text → Configured (List ℕ)
validate_token_encryption_key value = do
  let normalized = trim value
  throw_if (not (is_truthy normalized) || is_quoted 34 normalized || is_quoted 39 normalized)
      (code_error invalid_encryption_key_format)
  throw_if (not (is_base64 normalized)) (code_error invalid_encryption_key_format)
  let bytes = decode_base64 normalized
  throw_if (not (length bytes == 32)) (code_error invalid_encryption_key_length)
  ok bytes

pub record OauthStartConfig : Type 0 where
  pub client_id : Text

pub record OauthExchangeConfig : Type 0 where
  pub client_id : Text
  pub client_secret : Text

pub record SessionSecurityConfig : Type 0 where
  pub session_secret : Text
  pub token_encryption_key : Text

module _ (env : Environment) where
  unfoldable pub get_oauth_start_config : Configured OauthStartConfig
  get_oauth_start_config = do
    values ← require_authentication_values env (codes "GITHUB_APP_CLIENT_ID" ∷ [])
    ok (record { client_id = value_of "GITHUB_APP_CLIENT_ID" values })

  unfoldable pub get_oauth_exchange_config : Configured OauthExchangeConfig
  get_oauth_exchange_config = do
    values ←
        require_authentication_values env
          (codes "GITHUB_APP_CLIENT_ID" ∷ codes "GITHUB_APP_CLIENT_SECRET" ∷ [])
    ok (record {
      client_id = value_of "GITHUB_APP_CLIENT_ID" values;
      client_secret = value_of "GITHUB_APP_CLIENT_SECRET" values;
    })

  unfoldable pub get_session_security_config : Configured SessionSecurityConfig
  get_session_security_config = do
    values ←
        require_authentication_values env
          (codes "SESSION_SECRET" ∷ codes "GITHUB_TOKEN_ENCRYPTION_KEY" ∷ [])
    throw_if (ltb (length (value_of "SESSION_SECRET" values)) 32)
        (code_error invalid_session_secret)
    validate_token_encryption_key (value_of "GITHUB_TOKEN_ENCRYPTION_KEY" values) >>= λ bytes.
        ok (record {
          session_secret = value_of "SESSION_SECRET" values;
          token_encryption_key = value_of "GITHUB_TOKEN_ENCRYPTION_KEY" values;
        })

  -- The check of the private key, of lib/github-app.ts over the platform's cryptography, is a
  -- parameter.
  unfoldable pub validate_production_auth_readiness :
      (Text → Configured (Unit {0})) → Configured OauthStartConfig
  validate_production_auth_readiness validate_github_app_private_key = do
    values ← require_authentication_values env (
        codes "ARTIFACT_REPOSITORY"
        ∷ codes "GITHUB_APP_ID"
        ∷ codes "GITHUB_APP_CLIENT_ID"
        ∷ codes "GITHUB_APP_CLIENT_SECRET"
        ∷ codes "GITHUB_APP_PRIVATE_KEY"
        ∷ codes "GITHUB_TOKEN_ENCRYPTION_KEY"
        ∷ codes "GITHUB_ARTIFACT_REPOSITORY_OWNER"
        ∷ codes "GITHUB_ARTIFACT_REPOSITORY_NAME"
        ∷ codes "SESSION_SECRET"
        ∷ [])
    throw_if (not (text_eq (value_of "ARTIFACT_REPOSITORY" values) (codes "github")))
        (code_error invalid_repository_backend)
    exchange ← get_oauth_exchange_config
    security ← get_session_security_config
    validate_github_app_private_key (value_of "GITHUB_APP_PRIVATE_KEY" values)
    get_oauth_start_config
