-- ===== src/Auth/Gates/Entry.antt =====
-- The ways through the gates of lib/auth.ts.
use artifact_dev_toolkit.Common.{
  ℕ, ◌≡◌, true, false, none, some, List, arith, find, Option-cases, inl, inr, Result, ok, err,
  Result-cases,
}
use artifact_dev_toolkit.Common.Text.{Text, is_truthy}
use artifact_dev_toolkit.Auth.Types.{SessionRecord}
use artifact_dev_toolkit.Auth.Core.{cookie_names}
use artifact_dev_toolkit.Auth.Configuration.{SessionSecurityConfig}
use artifact_dev_toolkit.Auth.Sessions.Store.{
  Database, Row, is_down, has_id, hash_session_id, find_session, revoke_session_id,
}
use artifact_dev_toolkit.Auth.Sessions.Lifecycle.{Op, run, run_all, revoke, revoke-find}
use artifact_dev_toolkit.Auth.Repository.{Access}
use artifact_dev_toolkit.Auth.Access.{
  Deployment, Resolution, Uncaught, get_auth_config, with_secret, load_session, revoke_session,
  resolve_repository_access,
}
use artifact_dev_toolkit.Auth.Access.Grants.{IsGranted, resolve_repository_access-IsGranted}
use artifact_dev_toolkit.Auth.Oauth.{Jar, get_cookie, get_session, destroy_session}
use artifact_dev_toolkit.Auth.Gates.{
  Api, proceed, unauthenticated, Page, enter, api_of, page_of, require_auth,
  require_repository_access, require_api_repository_access,
}

module _ (d : Deployment) (node_env : Text) where
  -- The session that the cookie and the table name.
  pub record IsLive (now : ℕ) (db : Database) (jar : Jar) (session : SessionRecord) : Type 0 where
    pub id : Text
    pub cookie : get_cookie (cookie_names node_env).session jar ≡ some id
    pub secret : SessionSecurityConfig
    pub configured : get_auth_config d.env ≡ ok secret
    pub found : (find_session d.platform secret.session_secret id now db).0 ≡ ok (some session)

  get_session-IsLive :
      (now : ℕ) (db : Database) (jar : Jar) (session : SessionRecord)
      → (get_session d node_env now (db, jar)).0 ≡ ok (some session)
      → IsLive now db jar session
  unfolding get_session load_session with_secret
  get_session-IsLive now db jar session h =
      elim (Option-cases (get_cookie (cookie_names node_env).session jar)) [
        | inl none_ ↦ absurd (ground arith)
        | inr (id, cookie) ↦ elim (Result-cases (get_auth_config d.env)) [
          | inl (e, failed) ↦ absurd (ground arith)
          | inr (secret, configured) ↦ record {
            id = id;
            cookie = cookie;
            secret = secret;
            configured = configured;
            found = ground arith;
          }
        ]
      ]

  resolved_proceed :
      (request_path : Text) (session : SessionRecord) (checked revoked_at : ℕ) (db : Database)
      (a : Access) (after : SessionRecord)
      → (elim (resolve_repository_access d session checked revoked_at db).0
          as (λ _. Result Uncaught (Api (Access × SessionRecord))) [
            | err e ↦ err e
            | ok resolution ↦ ok (api_of d node_env request_path resolution)
          ])
        ≡ ok (proceed (a, after))
      → (r : Resolution) × ((resolve_repository_access d session checked revoked_at db).0 ≡ ok r)
        × ((r.access ≡ some a) × (after ≡ r.session))
  resolved_proceed request_path session checked revoked_at db a after h =
      elim (Result-cases (resolve_repository_access d session checked revoked_at db).0) [
        | inl (e, failed) ↦ absurd (ground arith)
        | inr (r, resolved) ↦ elim (Option-cases r.access) [
          | inl none_ ↦ absurd (ground arith)
          | inr (b, access) ↦ (r, resolved, (ground arith, ground arith))
        ]
      ]

  resolved_enter :
      (return_to : Text) (session : SessionRecord) (checked revoked_at : ℕ) (db : Database)
      (a : Access) (after : SessionRecord)
      → (elim (resolve_repository_access d session checked revoked_at db).0
          as (λ _. Result Uncaught (Page (SessionRecord × Access))) [
            | err e ↦ err e
            | ok resolution ↦ ok (page_of d node_env return_to resolution)
          ])
        ≡ ok (enter (after, a))
      → (r : Resolution) × ((resolve_repository_access d session checked revoked_at db).0 ≡ ok r)
        × ((r.access ≡ some a) × (after ≡ r.session))
  resolved_enter return_to session checked revoked_at db a after h =
      elim (Result-cases (resolve_repository_access d session checked revoked_at db).0) [
        | inl (e, failed) ↦ absurd (ground arith)
        | inr (r, resolved) ↦ elim (Option-cases r.access) [
          | inl none_ ↦ absurd (ground arith)
          | inr (b, access) ↦ (r, resolved, (ground arith, ground arith))
        ]
      ]

  destroy_session-runs :
      (id : Text) (secret : SessionSecurityConfig) (now : ℕ) (db : Database) (jar : Jar)
      → get_auth_config d.env ≡ ok secret
      → get_cookie (cookie_names node_env).session jar ≡ some id
      → is_truthy id ≡ true
      → (destroy_session d node_env now (db, jar)).0 ≡ ok tt
      → ((destroy_session d node_env now (db, jar)).1
          ≡ run d.platform secret.session_secret (revoke id now) db)
        × (is_down db.outages ≡ false)
  unfolding destroy_session revoke_session with_secret run revoke_session_id
  destroy_session-runs id secret now db jar configured cookie given h = (ground arith, ground arith)

  -- An API route goes on only for a session that the cookie names and the table holds alive, and
  -- with an access that the authorisation of that session gives.
  pub require_api_repository_access-proceed :
      (request_path : Text) (now checked revoked_at : ℕ) (db : Database) (jar : Jar) (a : Access)
      (after : SessionRecord)
      → (require_api_repository_access d node_env request_path now checked revoked_at (db, jar)).0
        ≡ ok (proceed (a, after))
      → (session : SessionRecord) × IsLive now db jar session × IsGranted d session checked a after
  unfolding require_api_repository_access
  require_api_repository_access-proceed request_path now checked revoked_at db jar a after h =
      elim (Result-cases (get_session d node_env now (db, jar)).0) [
        | inl (e, failed) ↦ absurd (ground arith)
        | inr (none, missing) ↦ absurd (ground arith)
        | inr (some session, found) ↦
            let db' = (get_session d node_env now (db, jar)).1 in
            let (r, resolved, access) =
              resolved_proceed request_path session checked revoked_at db' a after (ground arith) in
            (
              session,
              get_session-IsLive now db jar session found,
              rw access.1 (
                  resolve_repository_access-IsGranted d session checked revoked_at db' r a resolved
                    access.0),
            )
      ]

  -- A page is entered under the same conditions.
  pub require_repository_access-enter :
      (return_to : Text) (now checked revoked_at : ℕ) (db : Database) (jar : Jar) (a : Access)
      (after : SessionRecord)
      → (require_repository_access d node_env return_to now checked revoked_at (db, jar)).0
        ≡ ok (enter (after, a))
      → (session : SessionRecord) × IsLive now db jar session × IsGranted d session checked a after
  unfolding require_repository_access require_auth
  require_repository_access-enter return_to now checked revoked_at db jar a after h =
      elim (Result-cases (get_session d node_env now (db, jar)).0) [
        | inl (e, failed) ↦ absurd (ground arith)
        | inr (none, missing) ↦ absurd (ground arith)
        | inr (some session, found) ↦
            let db' = (get_session d node_env now (db, jar)).1 in
            let (r, resolved, access) =
              resolved_enter return_to session checked revoked_at db' a after (ground arith) in
            (
              session,
              get_session-IsLive now db jar session found,
              rw access.1 (
                  resolve_repository_access-IsGranted d session checked revoked_at db' r a resolved
                    access.0),
            )
      ]

  -- After a sign-out that succeeded, under valid settings and for a session in the table, its cookie
  -- opens no API route any more if the browser sends it again: whatever statements run in between, if
  -- the table is up the answer is that of no session.
  pub destroy_session-require_api_repository_access :
      (request_path id : Text) (secret : SessionSecurityConfig)
      (signed_out now checked revoked_at : ℕ) (db : Database) (jar : Jar) (r : Row) (ops : List Op)
      → get_auth_config d.env ≡ ok secret
      → get_cookie (cookie_names node_env).session jar ≡ some id
      → is_truthy id ≡ true
      → find (has_id (hash_session_id d.platform secret.session_secret id)) db.sessions ≡ some r
      → (destroy_session d node_env signed_out (db, jar)).0 ≡ ok tt
      → is_down
          (run_all d.platform secret.session_secret ops
            (destroy_session d node_env signed_out (db, jar)).1).outages
        ≡ false
      → (require_api_repository_access d node_env request_path now checked revoked_at (
        run_all d.platform secret.session_secret ops
            (destroy_session d node_env signed_out (db, jar)).1,
        jar,
      )).0
        ≡ ok (unauthenticated request_path)
  unfolding require_api_repository_access get_session load_session with_secret
  destroy_session-require_api_repository_access request_path id secret signed_out now checked
        revoked_at db jar r ops configured cookie given row done up =
      let (ran, was_up) =
        destroy_session-runs id secret signed_out db jar configured cookie given done in
      let gone =
        revoke-find d.platform secret.session_secret id signed_out now ops db r was_up row
          (rw ran at up) in
      rw ran (ground (arith, configured, cookie, given, gone))
