-- ===== src/Auth/Examples/Runs.antt =====
-- The theorems of sessions, settings and repository access at the concrete deployment.
use artifact_dev_toolkit.Common.{
  ℕ, ◌<◌, if◌then◌else◌, ◌≡◌, ◌⊎◌, is_some, refl, ◌↔◌, true, false, none, some, List, [], ◌∷◌, ok,
  err, find, any, length, All,
}
use artifact_dev_toolkit.Common.Text.{
  Text, codes, text_eq, is_truthy, trim, drop_while, is_space, to_lower_case, split, split_from,
  starts_with, ends_with,
}
use artifact_dev_toolkit.Auth.Types.{SessionRecord}
use artifact_dev_toolkit.Auth.Core.{constant_time_equal}
use artifact_dev_toolkit.Auth.Core.Comparison.{constant_time_equal_iff}
use artifact_dev_toolkit.Auth.Configuration.{
  setting, require_authentication_values, validate_token_encryption_key, value_of,
  get_oauth_exchange_config, get_session_security_config,
}
use artifact_dev_toolkit.Auth.Configuration.Base64.{is_sextet, is_base64, sextet, decode_base64}
use artifact_dev_toolkit.Auth.Configuration.Settings.{validate_token_encryption_key-ok}
use artifact_dev_toolkit.Auth.Sessions.Codec.{parse_session, serialize_session}
use artifact_dev_toolkit.Auth.Sessions.RoundTrip.{is_readable, parse_session-serialize_session}
use artifact_dev_toolkit.Auth.Sessions.Store.{
  is_down, active_session_update_failed, insert_session, find_session, update_session_authorization,
  revoke_session_id, update_where, set_authorization, set_revoked, hash_session_id, session_row,
  has_id,
}
use artifact_dev_toolkit.Auth.Sessions.Lifecycle.{
  Op, insert, update, revoke, lookup, run, run_all, revoke-find,
}
use artifact_dev_toolkit.Auth.Sessions.Persistence.{
  as_stored, insert_session-find_session, update_session_authorization-error_unchanged,
}
use artifact_dev_toolkit.Auth.Repository.{
  Access, granted, get_repository_authorization_config, verify_repository_authorization,
  parse_allowed_github_logins, github_json, settle, is_configured_repository, find_installation,
  check_repository, is_allowed, authorization_requires_revalidation,
  stored_authorization_matches_config,
}
use artifact_dev_toolkit.Auth.Repository.Verification.{
  IsVerified, verify_repository_authorization-IsVerified,
}
use artifact_dev_toolkit.Auth.Access.{
  give_access, sign_in_again, get_auth_config, stored_access, usable_token, with_secret,
  revoke_session, revoke_and_sign_in, renew, use_stored, resolve_repository_access,
}
use artifact_dev_toolkit.Auth.Access.Grants.{IsGranted, resolve_repository_access-IsGranted}
use artifact_dev_toolkit.Auth.Access.Outcomes.{resolve_repository_access-revoked}
use artifact_dev_toolkit.Auth.Examples.Encoding.{stack_json, stack_json-IsCodec}
use artifact_dev_toolkit.Auth.Examples.Setup.{
  production, platform, github, deployment, config, secret, session, empty_table, stored_row, table,
}

access_steps : Unit {0}
unfolding resolve_repository_access use_stored renew revoke_and_sign_in revoke_session with_secret
    usable_token stored_access get_auth_config authorization_requires_revalidation
    stored_authorization_matches_config get_repository_authorization_config
    require_authentication_values setting value_of trim drop_while is_space text_eq to_lower_case
    parse_allowed_github_logins split split_from get_oauth_exchange_config
    get_session_security_config validate_token_encryption_key is_base64 is_sextet sextet
    decode_base64 starts_with ends_with
access_steps = tt

table_steps : Unit {0}
unfolding run run_all insert_session find_session update_session_authorization revoke_session_id
    update_where set_authorization set_revoked hash_session_id session_row text_eq
table_steps = tt

abbrev granted_now : Access
granted_now = record {
  owner = codes "acme";
  repo = codes "library";
  login = codes "ada";
  github_id = 5;
  repository_id = 7;
  installation_id = 9;
  checked_at = 1000;
}

is_fresh :
    (resolve_repository_access deployment session 2000 2001 table).0
    ≡ ok (give_access session granted_now false)
unfolding access_steps
is_fresh = refl

resolve_repository_access-IsGranted_example : IsGranted deployment session 2000 granted_now session
resolve_repository_access-IsGranted_example =
    resolve_repository_access-IsGranted deployment session 2000 2001 table
      (give_access session granted_now false) granted_now is_fresh refl

-- The token has gone when the authorisation has grown old.
abbrev without_token : SessionRecord
without_token = record session { encrypted_user_access_token = none }

has_secret :
    get_auth_config production
    ≡ ok (record {
      session_secret = secret;
      token_encryption_key = codes "AAAAAAAAAAAAAAAAAAAAAAAAAAAAAAAAAAAAAAAAAAA=";
    })
unfolding access_steps
has_secret = refl

is_old :
    (resolve_repository_access deployment without_token 2000000 2000001 table).0
    ≡ ok (sign_in_again without_token)
unfolding access_steps table_steps
is_old = refl

row_found :
    find (has_id (hash_session_id platform secret (codes "ab"))) table.sessions ≡ some stored_row
unfolding table_steps
row_found = refl

up_after_sign_in :
    is_down
      (run_all platform secret
        (lookup (codes "ab") 2000002 ∷ [])
        (resolve_repository_access deployment without_token 2000000 2000001 table).1).outages
    ≡ false
unfolding access_steps table_steps
up_after_sign_in = refl

resolve_repository_access-revoked_example :
    (find_session platform secret (codes "ab") 2000003 (
      run_all platform secret
        (lookup (codes "ab") 2000002 ∷ [])
        (resolve_repository_access deployment without_token 2000000 2000001 table).1)).0
    ≡ ok none
resolve_repository_access-revoked_example =
    resolve_repository_access-revoked deployment without_token 2000000 2000001 2000003 table
      (lookup (codes "ab") 2000002 ∷ []) (sign_in_again without_token) stored_row
      (record {
        session_secret = secret;
        token_encryption_key = codes "AAAAAAAAAAAAAAAAAAAAAAAAAAAAAAAAAAAAAAAAAAA=";
      })
      has_secret is_old refl row_found up_after_sign_in

abbrev history : List Op
history = insert session 2000 ∷ update session ∷ []

up_after :
    is_down
      (run_all platform secret history
        (run platform secret (revoke (codes "ab") 1500) table)).outages
    ≡ false
unfolding table_steps
up_after = refl

revoke-find_example :
    (find_session platform secret
      (codes "ab")
      3000
      (run_all platform secret history (run platform secret (revoke (codes "ab") 1500) table))).0
    ≡ ok none
revoke-find_example =
    revoke-find platform secret (codes "ab") 1500 3000 history table stored_row refl row_found
      up_after

new_id : any (has_id (hash_session_id platform secret (codes "ab"))) empty_table.sessions ≡ false
new_id = refl

insert_session-find_session_example :
    (find_session platform secret
      (codes "ab")
      2000
      (insert_session platform secret session 1000 empty_table).1).0
    ≡ ok (if is_readable (as_stored session 1000) 2000 then some (as_stored session 1000) else none)
insert_session-find_session_example =
    insert_session-find_session platform stack_json-IsCodec secret session 1000 2000 empty_table
      refl new_id refl

not_updated :
    (update_session_authorization platform secret session empty_table).0
    ≡ err active_session_update_failed
unfolding table_steps
not_updated = refl

update_session_authorization-error_unchanged_example :
    ((update_session_authorization platform secret session empty_table).1.sessions ≡ [])
    × ((is_down empty_table.outages ≡ true)
        ⊎ (All
            (λ row.
              (has_id (hash_session_id platform secret session.id) row ≡ false)
              ⊎ (is_some row.revoked_at ≡ true))
            empty_table.sessions))
update_session_authorization-error_unchanged_example =
    update_session_authorization-error_unchanged platform secret session empty_table
      active_session_update_failed tt not_updated

parse_session-serialize_session_example :
    parse_session stack_json (some (serialize_session stack_json session)) 2000
    ≡ (if is_readable session 2000 then some session else none)
parse_session-serialize_session_example =
    parse_session-serialize_session stack_json stack_json-IsCodec session 2000

verification_steps : Unit {0}
unfolding verify_repository_authorization is_allowed check_repository find_installation
    is_configured_repository github_json settle text_eq to_lower_case
verification_steps = tt

abbrev verified_now : Access
verified_now = record granted_now { login = codes "Ada"; checked_at = 3000 }

is_verified :
    verify_repository_authorization github config 5 (codes "Ada") (codes "token") 3000
    ≡ ok (granted verified_now)
unfolding verification_steps
is_verified = refl

verify_repository_authorization-IsVerified_example :
    IsVerified github config 5 (codes "Ada") (codes "token") 3000 verified_now
verify_repository_authorization-IsVerified_example =
    verify_repository_authorization-IsVerified github config 5 (codes "Ada") (codes "token") 3000
      verified_now is_verified

constant_time_equal_iff_example :
    (constant_time_equal (some (codes "abc")) (some (codes "abd")) ≡ true) ↔ (
      (s : Text) × (some (codes "abc") ≡ some s)
      × (some (codes "abd") ≡ some s)
      × (is_truthy s ≡ true))
constant_time_equal_iff_example = constant_time_equal_iff (some (codes "abc")) (some (codes "abd"))

abbrev key_text : Text
key_text = codes " AAAAAAAAAAAAAAAAAAAAAAAAAAAAAAAAAAAAAAAAAAA= "

abbrev zero_key : List ℕ
zero_key =
    0 ∷ 0 ∷ 0 ∷ 0 ∷ 0 ∷ 0 ∷ 0 ∷ 0 ∷ 0 ∷ 0 ∷ 0 ∷ 0 ∷ 0 ∷ 0 ∷ 0 ∷ 0 ∷ 0 ∷ 0 ∷ 0 ∷ 0 ∷ 0 ∷ 0 ∷ 0 ∷ 0
    ∷ 0 ∷ 0 ∷ 0 ∷ 0 ∷ 0 ∷ 0 ∷ 0 ∷ 0 ∷ []

key_accepted : validate_token_encryption_key key_text ≡ ok zero_key
unfolding access_steps
key_accepted = refl

-- A second key with the same bytes: the pattern lets the unused bits of the last digit be set.
abbrev other_key_text : Text
other_key_text = codes "AAAAAAAAAAAAAAAAAAAAAAAAAAAAAAAAAAAAAAAAAAB="

two_keys : validate_token_encryption_key other_key_text ≡ ok zero_key
unfolding access_steps
two_keys = refl

validate_token_encryption_key-ok_example :
    (length zero_key ≡ 32)
    × (length (trim key_text) ≡ 44)
    × (is_base64 (trim key_text) ≡ true)
    × (zero_key ≡ decode_base64 (trim key_text))
    × All (λ byte. byte < 256) zero_key
validate_token_encryption_key-ok_example =
    validate_token_encryption_key-ok key_text zero_key key_accepted

abbrev required : List Text
required = codes "GITHUB_APP_ID" ∷ codes "SESSION_SECRET" ∷ []
