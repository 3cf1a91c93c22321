-- ===== src/Auth/Examples/Visits.antt =====
-- The theorems of created sessions and of the gates at the concrete deployment.
use artifact_dev_toolkit.Common.{
  ℕ, ◌≡◌, ◌≤◌, ◌+◌, refl, true, false, none, some, List, [], ◌∷◌, ok, find, if◌then◌else◌,
}
use artifact_dev_toolkit.Common.Text.{
  Text, codes, text_eq, is_truthy, trim, drop_while, is_space, to_lower_case, split, split_from,
  starts_with, ends_with,
}
use artifact_dev_toolkit.Common.Json.{property, lookup_field, as_num, as_nonempty, as_text}
use artifact_dev_toolkit.Auth.Types.{SessionRecord, GitHubUser}
use artifact_dev_toolkit.Auth.Core.{cookie_names, cookie_options, random_token, hex_digit}
use artifact_dev_toolkit.Auth.Configuration.{
  setting, require_authentication_values, validate_token_encryption_key, value_of,
  get_oauth_exchange_config, get_session_security_config, SessionSecurityConfig,
}
use artifact_dev_toolkit.Auth.Configuration.Base64.{is_sextet, is_base64, sextet, decode_base64}
use artifact_dev_toolkit.Auth.Sessions.Codec.{
  parse_session, serialize_session, session_of, session_json, authorization_json, optional,
  state_of, reason_of,
}
use artifact_dev_toolkit.Auth.Sessions.RoundTrip.{is_readable}
use artifact_dev_toolkit.Auth.Sessions.Store.{
  is_down, insert_session, revoke_session_id, update_session_authorization, update_where,
  set_authorization, set_revoked, hash_session_id, session_row, has_id, find_session, live_session,
  row_to_session, row_record,
}
use artifact_dev_toolkit.Auth.Sessions.Lifecycle.{update, run, run_all}
use artifact_dev_toolkit.Auth.Sessions.Persistence.{as_stored}
use artifact_dev_toolkit.Auth.Repository.{
  Access, granted, get_repository_authorization_config, parse_allowed_github_logins,
  should_retain_user_token, create_repository_authorization_record,
  authorization_requires_revalidation, stored_authorization_matches_config,
}
use artifact_dev_toolkit.Auth.Access.{
  get_auth_config, with_secret, revoke_session, load_session, use_stored, stored_access,
  resolve_repository_access,
}
use artifact_dev_toolkit.Auth.Access.Grants.{IsGranted}
use artifact_dev_toolkit.Auth.Oauth.{
  Jar, get_cookie, delete_cookie, set_cookie, destroy_session, encrypt_user_access_token,
  token_fields, initial_authorization, new_session, store_new_session, create_session, get_session,
}
use artifact_dev_toolkit.Auth.Oauth.SignedIn.{create_session-get_session, create_session-bounded}
use artifact_dev_toolkit.Auth.Gates.{
  proceed, unauthenticated, enter, require_auth, require_repository_access,
  require_api_repository_access,
}
use artifact_dev_toolkit.Auth.Gates.Entry.{
  IsLive, require_api_repository_access-proceed, require_repository_access-enter,
  destroy_session-require_api_repository_access,
}
use artifact_dev_toolkit.Auth.Examples.Encoding.{stack_json-IsCodec, write_json, read_json}
use artifact_dev_toolkit.Auth.Examples.Setup.{
  production, platform, deployment, config, secret, session, empty_table, stored_row, table,
}

settings_steps : Unit {0}
unfolding get_auth_config get_repository_authorization_config require_authentication_values setting
    value_of trim drop_while is_space text_eq to_lower_case parse_allowed_github_logins split
    split_from get_oauth_exchange_config get_session_security_config validate_token_encryption_key
    is_base64 is_sextet sextet decode_base64 starts_with ends_with
settings_steps = tt

session_steps : Unit {0}
unfolding create_session encrypt_user_access_token token_fields should_retain_user_token
    initial_authorization new_session create_repository_authorization_record store_new_session
    with_secret insert_session hash_session_id session_row random_token hex_digit set_cookie
    delete_cookie get_cookie cookie_names cookie_options
session_steps = tt

gate_steps : Unit {0}
unfolding require_api_repository_access require_repository_access require_auth get_session
    get_cookie delete_cookie cookie_names load_session with_secret find_session live_session
    row_to_session row_record hash_session_id session_row parse_session serialize_session session_of
    session_json authorization_json optional state_of reason_of property lookup_field as_num
    as_nonempty as_text write_json read_json resolve_repository_access use_stored stored_access
    authorization_requires_revalidation stored_authorization_matches_config destroy_session
    revoke_session revoke_session_id update_session_authorization update_where set_authorization
    set_revoked run run_all
gate_steps = tt

abbrev ada : GitHubUser
ada = record { id = 5; login = codes "ada"; name = none; avatar_url = none }

abbrev access : Access
access = record {
  owner = codes "acme";
  repo = codes "library";
  login = codes "ada";
  github_id = 5;
  repository_id = 7;
  installation_id = 9;
  checked_at = 1000;
}

abbrev seal : List ℕ → Text → Text × Text
seal key token = (token, codes "iv")

abbrev node_env : Text
node_env = codes "production"

abbrev created : SessionRecord
created =
    new_session deployment node_env config ada (granted access) (some (codes "token", codes "iv"))
      9000000 (10 ∷ []) 1000

creates :
    (create_session deployment node_env seal
      (10 ∷ [])
      1000
      ada
      (granted access)
      (some (codes "token"))
      9000000
      (empty_table, [])).0
    ≡ ok created
unfolding settings_steps session_steps
creates = refl

created_id : is_truthy created.id ≡ true
unfolding session_steps
created_id = refl

create_session-get_session_example :
    (get_session deployment node_env 2000 (
      (create_session deployment node_env seal
          (10 ∷ [])
          1000
          ada
          (granted access)
          (some (codes "token"))
          9000000
          (empty_table, [])).1,
      (create_session deployment node_env seal
          (10 ∷ [])
          1000
          ada
          (granted access)
          (some (codes "token"))
          9000000
          (empty_table, [])).2,
    )).0
    ≡ ok (if is_readable (as_stored created 1000) 2000 then some (as_stored created 1000) else none)
create_session-get_session_example =
    create_session-get_session deployment node_env 1000 seal (10 ∷ []) ada (granted access)
      (some (codes "token")) 9000000 empty_table [] created 2000 stack_json-IsCodec creates
      created_id refl

create_session-bounded_example :
    (created.expires_at ≤ 1000 + 28800000)
    × (created.expires_at ≤ 9000000)
    × (created.revoked_at ≡ none)
    × (should_retain_user_token (granted access) ≡ false
        → (created.encrypted_user_access_token ≡ none)
          × (created.user_access_token_expires_at ≡ none))
create_session-bounded_example =
    create_session-bounded deployment node_env 1000 seal (10 ∷ []) ada (granted access)
      (some (codes "token")) 9000000 empty_table [] created creates

abbrev jar : Jar
jar = record { name = codes "__Host-adt_session"; value = codes "ab"; options = none } ∷ []

api_goes_on :
    (require_api_repository_access deployment node_env (codes "/api") 2000 2000 2001 (table, jar)).0
    ≡ ok (proceed (access, session))
unfolding settings_steps gate_steps
api_goes_on = refl

require_api_repository_access-proceed_example :
    (s : SessionRecord) × IsLive deployment node_env 2000 table jar s
    × IsGranted deployment s 2000 access session
require_api_repository_access-proceed_example =
    require_api_repository_access-proceed deployment node_env (codes "/api") 2000 2000 2001 table
      jar access session api_goes_on

page_entered :
    (require_repository_access deployment node_env (codes "/") 2000 2000 2001 (table, jar)).0
    ≡ ok (enter (session, access))
unfolding settings_steps gate_steps
page_entered = refl

require_repository_access-enter_example :
    (s : SessionRecord) × IsLive deployment node_env 2000 table jar s
    × IsGranted deployment s 2000 access session
require_repository_access-enter_example =
    require_repository_access-enter deployment node_env (codes "/") 2000 2000 2001 table jar access
      session page_entered

abbrev security : SessionSecurityConfig
security = record {
  session_secret = secret;
  token_encryption_key = codes "AAAAAAAAAAAAAAAAAAAAAAAAAAAAAAAAAAAAAAAAAAA=";
}

has_security : get_auth_config production ≡ ok security
unfolding settings_steps
has_security = refl

has_cookie : get_cookie (cookie_names node_env).session jar ≡ some (codes "ab")
unfolding get_cookie cookie_names text_eq
has_cookie = refl

has_row :
    find (has_id (hash_session_id platform secret (codes "ab"))) table.sessions ≡ some stored_row
unfolding hash_session_id session_row text_eq
has_row = refl

signed_out : (destroy_session deployment node_env 3000 (table, jar)).0 ≡ ok tt
unfolding settings_steps gate_steps
signed_out = refl

still_up :
    is_down
      (run_all platform secret
        (update session ∷ [])
        (destroy_session deployment node_env 3000 (table, jar)).1).outages
    ≡ false
unfolding settings_steps gate_steps
still_up = refl

destroy_session-require_api_repository_access_example :
    (require_api_repository_access deployment node_env (codes "/api") 4000 4000 4001 (
      run_all platform secret
          (update session ∷ [])
          (destroy_session deployment node_env 3000 (table, jar)).1,
      jar,
    )).0
    ≡ ok (unauthenticated (codes "/api"))
destroy_session-require_api_repository_access_example =
    destroy_session-require_api_repository_access deployment node_env (codes "/api") (codes "ab")
      security 3000 4000 4000 4001 table jar stored_row (update session ∷ []) has_security
      has_cookie refl has_row signed_out still_up
