-- ===== src/Auth/Access/Outcomes.antt =====
-- New sign-ins asked for by `resolveRepositoryAccess` of lib/auth.ts.
use artifact_dev_toolkit.Common.{
  ℕ, ◌≡◌, ap, sym, ◌∙◌, subst, true, false, none, some, List, arith, find, Bool-cases, Option-cases,
  ◌⊎◌, inl, inr, ok, Result-cases,
}
use artifact_dev_toolkit.Auth.Types.{SessionRecord}
use artifact_dev_toolkit.Auth.Sessions.Store.{
  Database, Row, is_down, has_id, hash_session_id, revoke_session_id, find_session,
}
use artifact_dev_toolkit.Auth.Sessions.Lifecycle.{
  Op, run, run_all, revoke, IsRevoked, revoke-IsRevoked, run_all-IsRevoked, find-IsRevoked,
}
use artifact_dev_toolkit.Auth.Configuration.{SessionSecurityConfig}
use artifact_dev_toolkit.Auth.Repository.{
  Status, granted, refused, GitHubAppConfig, get_repository_authorization_config,
  authorization_requires_revalidation, stored_authorization_matches_config,
  verify_repository_authorization,
}
use artifact_dev_toolkit.Auth.Access.{
  Deployment, Resolution, usable_token, get_auth_config, with_secret, deny_mismatch, revoke_session,
  revoke_and_sign_in, save_renewed, renew, use_stored, resolve_repository_access,
  decrypt_user_access_token,
}

module _ (d : Deployment) (session : SessionRecord) (now : ℕ) where
  use_stored-stays : (use_stored d session).reauthenticate ≡ false
  unfolding use_stored
  use_stored-stays = ground arith

  save_renewed-stays :
      (config : GitHubAppConfig) (status : Status) (db : Database) (r : Resolution)
      → (save_renewed d config session now status db).0 ≡ ok r
      → r.reauthenticate ≡ false
  unfolding save_renewed
  save_renewed-stays config (granted access) db r e = ground arith
  save_renewed-stays config (refused refusal) db r e = ground arith

  deny_mismatch-stays :
      (config : GitHubAppConfig) (db : Database) (r : Resolution)
      → (deny_mismatch d config session now db).0 ≡ ok r
      → r.reauthenticate ≡ false
  unfolding deny_mismatch
  deny_mismatch-stays config db r e = ground arith

  renew_cases :
      (config : GitHubAppConfig) (revoked_at : ℕ) (db : Database) (r : Resolution)
      → (renew d config session now revoked_at db).0 ≡ ok r
      → (r.reauthenticate ≡ false)
        ⊎ (renew d config session now revoked_at db ≡ revoke_and_sign_in d session revoked_at db)
  unfolding renew
  renew_cases config revoked_at db r e = elim (Option-cases (usable_token session now)) [
    | inl missing ↦ inr (ground arith)
    | inr ((encrypted, iv), kept) ↦ elim (Option-cases (decrypt_user_access_token d encrypted iv)) [
      | inl broken ↦ inr (ground arith)
      | inr (token, decrypted) ↦
          elim (Result-cases (
            verify_repository_authorization d.github config session.github_id session.login token
              now)) [
                | inl (e', failed) ↦ absurd (ground arith)
                | inr (status, answered) ↦
                    inl (save_renewed-stays config status db r (ground arith))
              ]
    ]
  ]

  -- How a result comes about: with no new sign-in asked for, or by the revocation of the session.
  resolve_cases :
      (revoked_at : ℕ) (db : Database) (r : Resolution)
      → (resolve_repository_access d session now revoked_at db).0 ≡ ok r
      → (r.reauthenticate ≡ false)
        ⊎ (resolve_repository_access d session now revoked_at db
            ≡ revoke_and_sign_in d session revoked_at db)
  unfolding resolve_repository_access
  resolve_cases revoked_at db r e =
      elim (Result-cases (get_repository_authorization_config d.env)) [
        | inl (e', failed) ↦ absurd (ground arith)
        | inr (config, configured) ↦
            elim (Bool-cases (stored_authorization_matches_config session config)) [
              | inr other ↦ inl (deny_mismatch-stays config db r (ground arith))
              | inl same ↦
                  elim (Bool-cases
                    (authorization_requires_revalidation session.repository_authorization now)) [
                      | inl old ↦
                          let kind = renew_cases config revoked_at db r (ground arith) in
                          ground arith
                      | inr fresh ↦
                          let same : use_stored d session ≡ r = ground arith in
                          inl (subst (λ x. x.reauthenticate ≡ false) same use_stored-stays)
                    ]
            ]
      ]

  revoke_and_sign_in-run :
      (revoked_at : ℕ) (db : Database) (r : Resolution) (config : SessionSecurityConfig)
      → get_auth_config d.env ≡ ok config
      → (revoke_and_sign_in d session revoked_at db).0 ≡ ok r
      → (is_down db.outages ≡ false)
        × ((revoke_and_sign_in d session revoked_at db).1
            ≡ run d.platform config.session_secret (revoke session.id revoked_at) db)
  unfolding revoke_and_sign_in revoke_session with_secret run revoke_session_id
  revoke_and_sign_in-run revoked_at db r config configured e = (ground arith, ground arith)

  -- A user is asked to sign in again only after the session was revoked: where the settings are valid
  -- and the session's row was in the table, no later lookup that runs finds that session, whatever
  -- statements run in between.
  pub resolve_repository_access-revoked :
      (revoked_at later_now : ℕ) (db : Database) (ops : List Op) (r : Resolution) (row : Row)
      (config : SessionSecurityConfig)
      → get_auth_config d.env ≡ ok config
      → (resolve_repository_access d session now revoked_at db).0 ≡ ok r
      → r.reauthenticate ≡ true
      → find (has_id (hash_session_id d.platform config.session_secret session.id)) db.sessions
        ≡ some row
      → is_down
          (run_all d.platform config.session_secret ops
            (resolve_repository_access d session now revoked_at db).1).outages
        ≡ false
      → (find_session d.platform config.session_secret session.id later_now (
          run_all d.platform config.session_secret ops
            (resolve_repository_access d session now revoked_at db).1)).0
        ≡ ok none
  resolve_repository_access-revoked revoked_at later_now db ops r row config configured e again
        found up =
      elim (resolve_cases revoked_at db r e) [
        | inl stays ↦ absurd (cc)
        | inr same ↦
            let (was_up, ran) =
              revoke_and_sign_in-run revoked_at db r config configured
                (ap (λ x. x.0) (sym same) ∙ e) in
            let after : (resolve_repository_access d session now revoked_at db).1
                ≡ run d.platform config.session_secret (revoke session.id revoked_at) db =
              ap (λ x. x.1) same ∙ ran in
            let revoked =
              revoke-IsRevoked d.platform config.session_secret session.id revoked_at db row was_up
                found in
            find-IsRevoked d.platform config.session_secret session.id later_now _
              (run_all-IsRevoked d.platform config.session_secret _ ops _ (
                subst
                  (λ db'.
                    IsRevoked d.platform config.session_secret
                      (hash_session_id d.platform config.session_secret session.id) db'.sessions)
                  (sym after) revoked))
              up
      ]
