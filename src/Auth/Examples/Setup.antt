-- ===== src/Auth/Examples/Setup.antt =====
-- A deployment: its settings, its table, its GitHub, and a signed-in user.
use artifact_dev_toolkit.Common.{Option, none, some, List, [], ◌∷◌, ok, if◌then◌else◌, ◌==◌, ◌&&◌}
use artifact_dev_toolkit.Common.Text.{Text, codes, text_eq}
use artifact_dev_toolkit.Common.Json.{num, text, object, end, field}
use artifact_dev_toolkit.Auth.Types.{SessionRecord, authorized}
use artifact_dev_toolkit.Auth.Configuration.{Environment}
use artifact_dev_toolkit.Auth.Sessions.Store.{Database, Row, Platform, session_row}
use artifact_dev_toolkit.Auth.Repository.{GitHub, GitHubAppConfig, answered}
use artifact_dev_toolkit.Auth.Access.{Deployment}
use artifact_dev_toolkit.Auth.ReturnTo.{Web, Url, local_origin}
use artifact_dev_toolkit.Auth.Oauth.{OauthEndpoints}
use artifact_dev_toolkit.Auth.Examples.Encoding.{stack_json}

abbrev pub settings : List (Text × Text)
settings =
    (codes "GITHUB_APP_ID", codes "1")
    ∷ (codes "GITHUB_APP_CLIENT_ID", codes "client")
    ∷ (codes "GITHUB_APP_CLIENT_SECRET", codes "secret")
    ∷ (codes "GITHUB_APP_PRIVATE_KEY", codes "key")
    ∷ (codes "GITHUB_TOKEN_ENCRYPTION_KEY", codes "AAAAAAAAAAAAAAAAAAAAAAAAAAAAAAAAAAAAAAAAAAA=")
    ∷ (codes "GITHUB_ARTIFACT_REPOSITORY_OWNER", codes "acme")
    ∷ (codes "GITHUB_ARTIFACT_REPOSITORY_NAME", codes "library")
    ∷ (codes "SESSION_SECRET", codes "0123456789abcdef0123456789abcdef")
    ∷ (codes "ARTIFACT_REPOSITORY", codes "github")
    ∷ []

abbrev find_setting : List (Text × Text) → Environment
find_setting [] name = none
find_setting ((key, value) ∷ rest) name =
    let next = find_setting rest name in if text_eq key name then some value else next

abbrev pub production : Environment
production = find_setting settings

abbrev pub platform : Platform
platform = record { json = stack_json; hash = λ id secret. id }

abbrev pub github : GitHub
github = record {
  repository = λ owner repo token.
      answered 200 (some (record { id = 7; name = codes "Library"; owner_login = codes "acme" }));
  installation = λ owner repo jwt. answered 200 (some (record { id = 9 }));
  app_jwt = λ app_id key. ok (codes "jwt");
}

abbrev pub deployment : Deployment
deployment = record {
  env = production;
  platform = platform;
  github = github;
  decrypt = λ key encrypted iv. some encrypted;
}

abbrev pub config : GitHubAppConfig
config = record {
  app_id = codes "1";
  client_id = codes "client";
  client_secret = codes "secret";
  private_key = codes "key";
  owner = codes "acme";
  repo = codes "library";
  branch = codes "main";
  root_path = codes "canonical-root-v1";
  allowed_logins = [];
}

abbrev pub secret : Text
secret = codes "0123456789abcdef0123456789abcdef"

abbrev pub session : SessionRecord
session = record {
  id = codes "ab";
  github_id = 5;
  login = codes "ada";
  name = none;
  avatar_url = none;
  expires_at = 9000000;
  created_at = some 1000;
  revoked_at = none;
  repository_authorization = record {
    state = authorized;
    denial_reason = none;
    owner = codes "acme";
    repo = codes "library";
    repository_id = some 7;
    installation_id = some 9;
    login = codes "ada";
    github_id = 5;
    checked_at = 1000;
  };
  encrypted_user_access_token = some (codes "token");
  user_access_token_expires_at = some 9000000;
  token_iv = some (codes "iv");
}

abbrev pub empty_table : Database
empty_table = record { sessions = []; outages = [] }

abbrev pub stored_row : Row
stored_row = session_row (codes "ab") session 1000

abbrev pub table : Database
table = record { sessions = stored_row ∷ []; outages = [] }

-- The parser knows plain paths, and a segment `.` at their front.
abbrev pub local_url : Text → Url
local_url path = record { origin = local_origin; pathname = path; search = []; hash = [] }

unfoldable pub parse_path : Text → Option Url
parse_path (a ∷ b ∷ path) = some (local_url (if a == b'/' && b == b'.' then path else a ∷ b ∷ path))
parse_path path = some (local_url path)

abbrev pub web : Web
web = record { decode_uri_component = λ value. some value; parse_url = parse_path }

abbrev pub endpoints : OauthEndpoints
endpoints = record {
  access_token = λ exchange code verifier.
      answered 200 (some (record { access_token = some (codes "token"); expires_in = none }));
  user = λ token.
      answered 200 (
        some
          (object (field (codes "id") (num 5) (field (codes "login") (text (codes "ada")) end))));
}
