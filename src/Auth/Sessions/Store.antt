-- ===== src/Auth/Sessions/Store.antt =====
-- lib/auth-session-store.ts over the table `auth_sessions`. A statement of D1 can fail as a whole;
-- `outages` says of each coming statement whether it does. A column that may be null is an option.
use artifact_dev_toolkit.Common.{
  ℕ, Bool, false, not, ◌&&◌, Option, none, some, List, [], ◌∷◌, any, find, map, filter, length, leb,
  ◌==◌, if◌then◌else◌, is_some, Result, ok, err,
}
use artifact_dev_toolkit.Common.Text.{Text, text_eq}
use artifact_dev_toolkit.Auth.Types.{AuthorizationState, FailureReason, SessionRecord}
use artifact_dev_toolkit.Auth.Sessions.Codec.{JsonText, serialize_session, parse_session}

-- A row of migrations/0002_rebuild_auth_sessions.sql.
pub record Row : Type 0 where
  pub id : Text
  pub github_id : ℕ
  pub login : Text
  pub name : Option Text
  pub avatar_url : Option Text
  pub expires_at : ℕ
  pub created_at : ℕ
  pub revoked_at : Option ℕ
  pub authorization_state : AuthorizationState
  pub denial_reason : Option FailureReason
  pub repository_owner : Text
  pub repository_name : Text
  pub repository_id : Option ℕ
  pub installation_id : Option ℕ
  pub authorization_checked_at : ℕ
  pub encrypted_user_access_token : Option Text
  pub user_access_token_expires_at : Option ℕ
  pub token_iv : Option Text

pub record Database : Type 0 where
  pub sessions : List Row
  pub outages : List Bool

pub data StoreError : Type 0 where
  database_unavailable unique_constraint active_session_update_failed : StoreError

abbrev pub is_down : List Bool → Bool
is_down [] = false
is_down (down ∷ rest) = down

abbrev pub later : List Bool → List Bool
later [] = []
later (down ∷ rest) = rest

-- Runs a statement on the rows, or fails and leaves them.
abbrev pub statement :
    {A : Type 0}
    → (List Row → Result StoreError A × List Row)
    → Database
    → Result StoreError A × Database
statement run db =
    let result = run db.sessions in
    let next = later db.outages in
    if is_down db.outages
    then (err database_unavailable, record db { outages = next })
    else (result.0, record { sessions = result.1; outages = next })

abbrev pub value_or : Option ℕ → ℕ → ℕ
value_or none fallback = fallback
value_or (some value) fallback = value

unfoldable pub session_row : Text → SessionRecord → ℕ → Row
session_row stored_id s now = record {
  id = stored_id;
  github_id = s.github_id;
  login = s.login;
  name = s.name;
  avatar_url = s.avatar_url;
  expires_at = s.expires_at;
  created_at = value_or s.created_at now;
  revoked_at = none;
  authorization_state = s.repository_authorization.state;
  denial_reason = s.repository_authorization.denial_reason;
  repository_owner = s.repository_authorization.owner;
  repository_name = s.repository_authorization.repo;
  repository_id = s.repository_authorization.repository_id;
  installation_id = s.repository_authorization.installation_id;
  authorization_checked_at = s.repository_authorization.checked_at;
  encrypted_user_access_token = s.encrypted_user_access_token;
  user_access_token_expires_at = s.user_access_token_expires_at;
  token_iv = s.token_iv;
}

-- The record that `rowToSession` serializes.
unfoldable pub row_record : Text → Row → SessionRecord
row_record id r = record {
  id = id;
  github_id = r.github_id;
  login = r.login;
  name = r.name;
  avatar_url = r.avatar_url;
  expires_at = r.expires_at;
  created_at = some r.created_at;
  revoked_at = r.revoked_at;
  repository_authorization = record {
    state = r.authorization_state;
    denial_reason = r.denial_reason;
    owner = r.repository_owner;
    repo = r.repository_name;
    repository_id = r.repository_id;
    installation_id = r.installation_id;
    login = r.login;
    github_id = r.github_id;
    checked_at = r.authorization_checked_at;
  };
  encrypted_user_access_token = r.encrypted_user_access_token;
  user_access_token_expires_at = r.user_access_token_expires_at;
  token_iv = r.token_iv;
}

-- `WHERE id = ?`
abbrev pub has_id : Text → Row → Bool
has_id stored_id row = text_eq row.id stored_id

-- `WHERE id = ? AND revoked_at IS NULL`
abbrev pub is_active : Text → Row → Bool
is_active stored_id row = has_id stored_id row && not (is_some row.revoked_at)

-- `UPDATE ... SET ... WHERE ...`
unfoldable pub update_where : (Row → Bool) → (Row → Row) → List Row → List Row
update_where test change rows = map (λ row. if test row then change row else row) rows

unfoldable pub set_authorization : SessionRecord → Row → Row
set_authorization s row = record row {
  authorization_state = s.repository_authorization.state;
  denial_reason = s.repository_authorization.denial_reason;
  repository_owner = s.repository_authorization.owner;
  repository_name = s.repository_authorization.repo;
  repository_id = s.repository_authorization.repository_id;
  installation_id = s.repository_authorization.installation_id;
  authorization_checked_at = s.repository_authorization.checked_at;
  encrypted_user_access_token = s.encrypted_user_access_token;
  user_access_token_expires_at = s.user_access_token_expires_at;
  token_iv = s.token_iv;
}

unfoldable pub set_revoked : ℕ → Row → Row
set_revoked now row = record row { revoked_at = some now }

-- The platform: JSON text, and the keyed hash `hashSessionId` of an id under a secret.
pub record Platform : Type 0 where
  pub json : JsonText
  pub hash : Text → Text → Text

module _ (platform : Platform) (session_secret : Text) where
  unfoldable pub hash_session_id : Text → Text
  hash_session_id id = platform.hash id session_secret

  unfoldable pub insert_session : SessionRecord → ℕ → Database → Result StoreError Text × Database
  insert_session session now = statement λ rows.
      let stored_id = hash_session_id session.id in
      if any (has_id stored_id) rows
      then (err unique_constraint, rows)
      else (ok stored_id, session_row stored_id session now ∷ rows)

  unfoldable pub update_session_authorization :
      SessionRecord → Database → Result StoreError (Unit {0}) × Database
  update_session_authorization session = statement λ rows.
      let stored_id = hash_session_id session.id in
      let changes = length (filter (is_active stored_id) rows) in
      let after = update_where (is_active stored_id) (set_authorization session) rows in
      (if changes == 1 then ok tt else err active_session_update_failed, after)

  unfoldable pub revoke_session_id : Text → ℕ → Database → Result StoreError Text × Database
  revoke_session_id id now = statement λ rows.
      let stored_id = hash_session_id id in
      (ok stored_id, update_where (is_active stored_id) (set_revoked now) rows)

  unfoldable pub row_to_session : Text → Row → ℕ → Option SessionRecord
  row_to_session id row now =
      parse_session platform.json (some (serialize_session platform.json (row_record id row))) now

  unfoldable pub live_session : Text → ℕ → Option Row → Option SessionRecord
  live_session id now none = none
  live_session id now (some row) =
      if is_some row.revoked_at
      then none
      else if leb row.expires_at now
      then none
      else row_to_session id row now

  unfoldable pub find_session :
      Text → ℕ → Database → Result StoreError (Option SessionRecord) × Database
  find_session id now =
      statement λ rows. (ok (live_session id now (find (has_id (hash_session_id id)) rows)), rows)
