-- ===== src/Auth/Access/Grants.antt =====
-- Access given by `resolveRepositoryAccess` of lib/auth.ts.
use artifact_dev_toolkit.Common.{
  ℕ, ◌≡◌, ◌≢◌, ap, ◌∙◌, true, false, some, arith, Bool-cases, Option-cases, ◌⊎◌, inl, inr, ok,
  Result-cases,
}
use artifact_dev_toolkit.Common.Text.{Text}
use artifact_dev_toolkit.Auth.Types.{SessionRecord, authorized}
use artifact_dev_toolkit.Auth.Sessions.Store.{Database}
use artifact_dev_toolkit.Auth.Repository.{
  Access, Status, granted, refused, GitHubAppConfig, get_repository_authorization_config,
  authorization_requires_revalidation, stored_authorization_matches_config,
  create_repository_authorization_record, verify_repository_authorization,
}
use artifact_dev_toolkit.Auth.Access.{
  Deployment, Resolution, stored_access, usable_token, authorize, deny_mismatch, revoke_and_sign_in,
  renewed, save_renewed, renew, use_stored, resolve_repository_access, decrypt_user_access_token,
}

module _ (d : Deployment) (session : SessionRecord) (now : ℕ) where
  -- The stored authorisation was fresh, and names the repository and the installation.
  pub record IsFresh (a : Access) : Type 0 where
    pub valid : authorization_requires_revalidation session.repository_authorization now ≡ false
    pub state : session.repository_authorization.state ≡ authorized
    pub repository_id : session.repository_authorization.repository_id ≡ some a.repository_id
    pub installation_id : session.repository_authorization.installation_id ≡ some a.installation_id

  -- GitHub granted the access anew, for the session's user, with the token that the session kept;
  -- the session holds the new authorisation.
  pub record IsRenewed (config : GitHubAppConfig) (a : Access) (after : SessionRecord)
      : Type 0 where
    pub encrypted : Text
    pub iv : Text
    pub kept : usable_token session now ≡ some (encrypted, iv)
    pub token : Text
    pub decrypted : decrypt_user_access_token d encrypted iv ≡ some token
    pub granted_anew :
        verify_repository_authorization d.github config session.github_id session.login token now
        ≡ ok (granted a)
    pub recorded : after.repository_authorization ≡ create_repository_authorization_record a now

  pub record IsGranted (a : Access) (after : SessionRecord) : Type 0 where
    pub config : GitHubAppConfig
    pub configured : get_repository_authorization_config d.env ≡ ok config
    pub matches : stored_authorization_matches_config session config ≡ true
    pub reason : IsFresh a ⊎ IsRenewed config a after

  use_stored-IsFresh :
      (a : Access)
      → authorization_requires_revalidation session.repository_authorization now ≡ false
      → (use_stored d session).access ≡ some a
      → IsFresh a
  unfolding use_stored stored_access
  use_stored-IsFresh a fresh h = ground arith

  save_renewed-granted :
      (config : GitHubAppConfig) (status : Status) (db : Database) (r : Resolution) (a : Access)
      → (save_renewed d config session now status db).0 ≡ ok r
      → r.access ≡ some a
      → (status ≡ granted a)
        × (r.session.repository_authorization ≡ create_repository_authorization_record a now)
  unfolding save_renewed renewed authorize
  save_renewed-granted config (granted access) db r a e h = ground arith
  save_renewed-granted config (refused refusal) db r a e h = absurd (ground arith)

  -- Nothing is granted on the way to a new sign-in.
  revoke_and_sign_in-no_access :
      (revoked_at : ℕ) (db : Database) (r : Resolution) (a : Access)
      → (revoke_and_sign_in d session revoked_at db).0 ≡ ok r
      → r.access ≢ some a
  unfolding revoke_and_sign_in
  revoke_and_sign_in-no_access revoked_at db r a e h = ground arith

  deny_mismatch-no_access :
      (config : GitHubAppConfig) (db : Database) (r : Resolution) (a : Access)
      → (deny_mismatch d config session now db).0 ≡ ok r
      → r.access ≢ some a
  unfolding deny_mismatch
  deny_mismatch-no_access config db r a e h = ground arith

  renew-IsRenewed :
      (config : GitHubAppConfig) (revoked_at : ℕ) (db : Database) (r : Resolution) (a : Access)
      → (renew d config session now revoked_at db).0 ≡ ok r
      → r.access ≡ some a
      → IsRenewed config a r.session
  unfolding renew
  renew-IsRenewed config revoked_at db r a e h = elim (Option-cases (usable_token session now)) [
    | inl missing ↦
        absurd (revoke_and_sign_in-no_access revoked_at db r a (rw (missing, renew) at e) h)
    | inr ((encrypted, iv), kept) ↦ elim (Option-cases (decrypt_user_access_token d encrypted iv)) [
      | inl broken ↦ absurd (revoke_and_sign_in-no_access revoked_at db r a (ground arith) h)
      | inr (token, decrypted) ↦
          elim (Result-cases (
            verify_repository_authorization d.github config session.github_id session.login token
              now)) [
                | inl (e', failed) ↦ absurd (ground arith)
                | inr (status, answered) ↦
                    let (same, recorded) =
                      save_renewed-granted config status db r a (ground arith) h in
                    record {
                      encrypted = encrypted;
                      iv = iv;
                      kept = kept;
                      token = token;
                      decrypted = decrypted;
                      granted_anew = answered ∙ ap ok same;
                      recorded = recorded;
                    }
              ]
    ]
  ]

  -- Access is given only where the stored authorisation matches the configuration, and is either
  -- fresh, authorised and complete, or granted anew by GitHub to the session's user under the token
  -- that the session kept; then the session carries the new authorisation.
  pub resolve_repository_access-IsGranted :
      (revoked_at : ℕ) (db : Database) (r : Resolution) (a : Access)
      → (resolve_repository_access d session now revoked_at db).0 ≡ ok r
      → r.access ≡ some a
      → IsGranted a r.session
  unfolding resolve_repository_access
  resolve_repository_access-IsGranted revoked_at db r a e h =
      elim (Result-cases (get_repository_authorization_config d.env)) [
        | inl (e', failed) ↦ absurd (ground arith)
        | inr (config, configured) ↦
            elim (Bool-cases (stored_authorization_matches_config session config)) [
              | inr other ↦ absurd (deny_mismatch-no_access config db r a (ground arith) h)
              | inl same ↦
                  elim (Bool-cases
                    (authorization_requires_revalidation session.repository_authorization now)) [
                      | inl old ↦ record {
                        config = config;
                        configured = configured;
                        matches = same;
                        reason = inr (renew-IsRenewed config revoked_at db r a (ground arith) h);
                      }
                      | inr fresh ↦ record {
                        config = config;
                        configured = configured;
                        matches = same;
                        reason = inl (use_stored-IsFresh a fresh (ground arith));
                      }
                    ]
            ]
      ]
