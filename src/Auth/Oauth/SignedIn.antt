-- ===== src/Auth/Oauth/SignedIn.antt =====
-- Sessions created by a sign-in of lib/auth.ts.
use artifact_dev_toolkit.Common.{
  ℕ, ◌+◌, ◌-◌, ◌/◌, ◌≤◌, ◌≡◌, true, false, Option, none, some, List, arith, any, if◌then◌else◌, inl,
  inr, ok, Result-cases,
}
use artifact_dev_toolkit.Common.Text.{Text, is_truthy, text_eq_refl}
use artifact_dev_toolkit.Auth.Types.{SessionRecord, GitHubUser}
use artifact_dev_toolkit.Auth.Core.{cookie_names, cookie_options}
use artifact_dev_toolkit.Auth.Sessions.RoundTrip.{IsCodec, is_readable}
use artifact_dev_toolkit.Auth.Sessions.Store.{
  Database, is_down, later, has_id, hash_session_id, insert_session,
}
use artifact_dev_toolkit.Auth.Sessions.Persistence.{as_stored, insert_session-find_session}
use artifact_dev_toolkit.Auth.Configuration.{SessionSecurityConfig}
use artifact_dev_toolkit.Auth.Repository.{
  Status, get_repository_authorization_config, should_retain_user_token,
}
use artifact_dev_toolkit.Auth.Access.{Deployment, with_secret, get_auth_config, load_session}
use artifact_dev_toolkit.Auth.Oauth.{
  Jar, get_cookie, token_fields, new_session, store_new_session, create_session, get_session,
}
use artifact_dev_toolkit.Auth.Oauth.State.{get_cookie-set_cookie}

-- How a session came into the table and the cookies.
record IsStored (d : Deployment) (node_env : Text) (now : ℕ) (s : SessionRecord) (db db' : Database)
    (jar' : Jar) : Type 0 where
  secret : SessionSecurityConfig
  configured : get_auth_config d.env ≡ ok secret
  up : is_down db.outages ≡ false
  new : any (has_id (hash_session_id d.platform secret.session_secret s.id)) db.sessions ≡ false
  table : db' ≡ (insert_session d.platform secret.session_secret s now db).1
  cookie : get_cookie (cookie_names node_env).session jar' ≡ some s.id

module _ (d : Deployment) (node_env : Text) (now : ℕ) where
  store_new_session-IsStored :
      (session s : SessionRecord) (db : Database) (jar : Jar)
      → (store_new_session d node_env now session (db, jar)).0 ≡ ok s
      → (session ≡ s)
        × IsStored d node_env now session db
            (store_new_session d node_env now session (db, jar)).1
            (store_new_session d node_env now session (db, jar)).2
  unfolding store_new_session with_secret insert_session
  store_new_session-IsStored session s db jar h = elim (Result-cases (get_auth_config d.env)) [
    | inl (e, failed) ↦ absurd (ground arith)
    | inr (secret, configured) ↦ (
      ground arith,
      record {
        secret = secret;
        configured = configured;
        up = ground arith;
        new = ground arith;
        table = ground arith;
        cookie = ground (
          arith,
          get_cookie-set_cookie (cookie_names node_env).session (cookie_names node_env).session
              session.id (cookie_options ((session.expires_at - now) / 1000) node_env) jar,
          text_eq_refl (cookie_names node_env).session,
        );
      },
    )
  ]

  get_session-IsStored :
      (s : SessionRecord) (db db' : Database) (jar' : Jar) (later_now : ℕ)
      → IsCodec d.platform.json
      → IsStored d node_env now s db db' jar'
      → is_truthy s.id ≡ true
      → is_down (later db.outages) ≡ false
      → (get_session d node_env later_now (db', jar')).0
        ≡ ok (if is_readable (as_stored s now) later_now then some (as_stored s now) else none)
  unfolding get_session load_session with_secret
  get_session-IsStored s db db' jar' later_now codec stored given up =
      let found =
        insert_session-find_session d.platform codec stored.secret.session_secret s now later_now db
          stored.up stored.new up in
      ground (arith, stored.cookie, stored.configured, stored.table, found)

  -- A session that was created, with an id that is not empty, is what the next request finds if the
  -- table is up: its cookie leads to its row, and the row to the session as it was stored, as long as
  -- that is readable and has not expired.
  pub create_session-get_session :
      (encrypt : List ℕ → Text → Text × Text) (id_bytes : List ℕ) (user : GitHubUser)
      (status : Status) (token : Option Text) (token_expires_at : ℕ) (db : Database) (jar : Jar)
      (s : SessionRecord) (later_now : ℕ)
      → IsCodec d.platform.json
      → (create_session d node_env encrypt id_bytes now user status token token_expires_at
          (db, jar)).0
        ≡ ok s
      → is_truthy s.id ≡ true
      → is_down (later db.outages) ≡ false
      → (get_session d node_env later_now (
        (create_session d node_env encrypt id_bytes now user status token token_expires_at
            (db, jar)).1,
        (create_session d node_env encrypt id_bytes now user status token token_expires_at
            (db, jar)).2,
      )).0
        ≡ ok (if is_readable (as_stored s now) later_now then some (as_stored s now) else none)
  unfolding create_session
  create_session-get_session encrypt id_bytes user status token token_expires_at db jar s later_now
        codec h given up =
      elim (Result-cases (get_repository_authorization_config d.env)) [
        | inl (e, failed) ↦ absurd (ground arith)
        | inr (config, configured) ↦
            elim (Result-cases (token_fields d node_env encrypt status token)) [
              | inl (e, failed) ↦ absurd (ground arith)
              | inr (sealed, kept) ↦
                  let new =
                    new_session d node_env config user status sealed token_expires_at id_bytes
                      now in
                  let (same, stored) = store_new_session-IsStored new s db jar (ground arith) in
                  let created : create_session d node_env encrypt id_bytes now user status token
                        token_expires_at (db, jar)
                      ≡ store_new_session d node_env now new (db, jar) =
                    ground (arith, configured, kept) in
                  rw created
                    (get_session-IsStored s db _ _ later_now codec (rw (← same) stored) given up)
            ]
      ]

  -- A session ends at the latest eight hours after it was created, and not after its GitHub token; it
  -- keeps the token only if the sign-in was granted access, or refused for a temporary reason.
  pub create_session-bounded :
      (encrypt : List ℕ → Text → Text × Text) (id_bytes : List ℕ) (user : GitHubUser)
      (status : Status) (token : Option Text) (token_expires_at : ℕ) (db : Database) (jar : Jar)
      (s : SessionRecord)
      → (create_session d node_env encrypt id_bytes now user status token token_expires_at
          (db, jar)).0
        ≡ ok s
      → (s.expires_at ≤ now + 28800000)
        × (s.expires_at ≤ token_expires_at)
        × (s.revoked_at ≡ none)
        × (should_retain_user_token status ≡ false
            → (s.encrypted_user_access_token ≡ none) × (s.user_access_token_expires_at ≡ none))
  unfolding create_session token_fields new_session
  create_session-bounded encrypt id_bytes user status token token_expires_at db jar s h =
      elim (Result-cases (get_repository_authorization_config d.env)) [
        | inl (e, failed) ↦ absurd (ground arith)
        | inr (config, configured) ↦
            elim (Result-cases (token_fields d node_env encrypt status token)) [
              | inl (e, failed) ↦ absurd (ground arith)
              | inr (sealed, kept) ↦
                  let new =
                    new_session d node_env config user status sealed token_expires_at id_bytes
                      now in
                  let (same, stored) = store_new_session-IsStored new s db jar (ground arith) in
                  ground (arith, same)
            ]
      ]
