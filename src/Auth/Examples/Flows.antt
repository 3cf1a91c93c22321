-- ===== src/Auth/Examples/Flows.antt =====
-- The theorems of the sign-in and of the gates at the concrete deployment.
use artifact_dev_toolkit.Common.{ℕ, ◌≡◌, refl, ◌↔◌, true, false, none, some, List, [], ◌∷◌, ok, ◌⊎◌}
use artifact_dev_toolkit.Common.Text.{
  Text, codes, text_eq, trim, drop_while, is_space, to_lower_case, split, split_from, starts_with,
  ends_with, includes,
}
use artifact_dev_toolkit.Common.Json.{property, lookup_field, as_num, as_nonempty}
use artifact_dev_toolkit.Auth.Core.{
  cookie_names, cookie_options, random_token, hex_digit, differences, constant_time_equal,
  validate_github_user,
}
use artifact_dev_toolkit.Auth.Configuration.{
  Configured, setting, require_authentication_values, validate_token_encryption_key, value_of,
  get_oauth_start_config, get_oauth_exchange_config, get_session_security_config,
  validate_production_auth_readiness,
}
use artifact_dev_toolkit.Auth.Configuration.Base64.{is_sextet, is_base64, sextet, decode_base64}
use artifact_dev_toolkit.Auth.Sessions.Store.{insert_session, hash_session_id, session_row}
use artifact_dev_toolkit.Auth.Repository.{
  get_repository_authorization_config, verify_repository_authorization, parse_allowed_github_logins,
  github_json, settle, is_configured_repository, find_installation, check_repository, is_allowed,
  should_retain_user_token, create_repository_authorization_record,
}
use artifact_dev_toolkit.Auth.Access.{get_auth_config, with_secret}
use artifact_dev_toolkit.Auth.ReturnTo.{
  home, IsAccepted, safe_return_to, is_local_path, location_of, safe_return_to-IsAccepted,
}
use artifact_dev_toolkit.Auth.Oauth.{
  Jar, get_cookie, delete_cookie, set_cookie, AuthorizeUrl, create_oauth_start, consume_oauth_state,
  read_token, read_user, exchange_github_code, encrypt_user_access_token, token_fields,
  initial_authorization, new_session, store_new_session, create_session,
}
use artifact_dev_toolkit.Auth.Oauth.State.{
  create_oauth_start-consume_oauth_state, consume_oauth_state-once,
}
use artifact_dev_toolkit.Auth.Callback.{
  Query, inside, oauth_callback, exchange_code, finish_sign_in, auth_dependencies,
}
use artifact_dev_toolkit.Auth.Callback.SignIn.{IsSignedIn, oauth_callback-IsSignedIn}
use artifact_dev_toolkit.Auth.Examples.Setup.{
  production, deployment, empty_table, web, parse_path, endpoints,
}

settings_steps : Unit {0}
unfolding get_auth_config get_repository_authorization_config require_authentication_values setting
    value_of trim drop_while is_space text_eq to_lower_case parse_allowed_github_logins split
    split_from get_oauth_exchange_config get_oauth_start_config get_session_security_config
    validate_token_encryption_key is_base64 is_sextet sextet decode_base64 starts_with ends_with
    validate_production_auth_readiness
settings_steps = tt

sign_in_steps : Unit {0}
unfolding create_oauth_start consume_oauth_state get_cookie delete_cookie set_cookie cookie_names
    cookie_options random_token hex_digit constant_time_equal differences safe_return_to
    is_local_path location_of includes parse_path exchange_github_code read_token read_user
    validate_github_user property lookup_field as_num as_nonempty verify_repository_authorization
    is_allowed check_repository find_installation is_configured_repository github_json settle
    encrypt_user_access_token token_fields should_retain_user_token initial_authorization
    new_session create_repository_authorization_record store_new_session create_session with_secret
    insert_session hash_session_id session_row
sign_in_steps = tt

-- Any private key is a key, and nothing is hashed or encrypted.
abbrev accept_key : Text → Configured (Unit {0})
accept_key key = ok tt

abbrev plain : Text → Text
plain text = text

abbrev seal : List ℕ → Text → Text × Text
seal key token = (token, codes "iv")

abbrev started : AuthorizeUrl
started = record {
  client_id = codes "client";
  state = codes "0a";
  code_challenge = codes "ff";
  code_challenge_method = codes "S256";
}

abbrev jar : Jar
jar =
    (create_oauth_start web (codes "production") production accept_key plain (10 ∷ []) (255 ∷ [])
      (some (codes "/artifacts")) []).1

starts :
    (create_oauth_start web
      (codes "production")
      production
      accept_key
      plain
      (10 ∷ [])
      (255 ∷ [])
      (some (codes "/artifacts"))
      []).0
    ≡ ok started
unfolding settings_steps sign_in_steps
starts = refl

create_oauth_start-consume_oauth_state_example :
    (((consume_oauth_state web (codes "production") (some (codes "0a")) jar).0.valid ≡ true)
      ↔ (some (codes "0a") ≡ some (codes "0a")))
    × ((consume_oauth_state web (codes "production") (some (codes "0a")) jar).0.pkce_verifier
        ≡ some (random_token (255 ∷ [])))
    × ((consume_oauth_state web (codes "production") (some (codes "0a")) jar).0.return_to
        ≡ safe_return_to web (some (safe_return_to web (some (codes "/artifacts")))))
create_oauth_start-consume_oauth_state_example =
    create_oauth_start-consume_oauth_state web (codes "production") production accept_key plain 10
      255 [] [] (some (codes "/artifacts")) (some (codes "0a")) [] started starts

consume_oauth_state-once_example :
    (consume_oauth_state web
      (codes "production")
      (some (codes "0a"))
      (consume_oauth_state web (codes "production") (some (codes "0a")) jar).1).0.valid
    ≡ false
consume_oauth_state-once_example =
    consume_oauth_state-once web (codes "production") (some (codes "0a")) (some (codes "0a")) jar

safe_return_to-IsAccepted_example :
    (safe_return_to web (some (codes "/a")) ≡ home)
    ⊎ IsAccepted web (codes "/a") (safe_return_to web (some (codes "/a")))
safe_return_to-IsAccepted_example = safe_return_to-IsAccepted web (codes "/a")

-- The address `/.//host` passes every test, and comes back as another host's.
escapes : safe_return_to web (some (codes "/.//evil.example")) ≡ codes "//evil.example"
unfolding sign_in_steps starts_with text_eq
escapes = refl

abbrev query : Query
query = record { state = some (codes "0a"); error = none; code = some (codes "c") }

signs_in :
    (oauth_callback
      (auth_dependencies deployment (codes "production") web endpoints seal (1 ∷ []) 1000 2000)
      query
      (empty_table, jar)).0.location
    ≡ inside (codes "/artifacts")
unfolding settings_steps sign_in_steps oauth_callback exchange_code finish_sign_in auth_dependencies
signs_in = refl

oauth_callback-IsSignedIn_example :
    IsSignedIn deployment
      (codes "production")
      web
      endpoints
      seal
      (1 ∷ [])
      1000
      2000
      query
      empty_table
      jar
      (codes "/artifacts")
oauth_callback-IsSignedIn_example =
    oauth_callback-IsSignedIn deployment (codes "production") web endpoints seal (1 ∷ []) 1000 2000
      query empty_table jar (codes "/artifacts") signs_in
