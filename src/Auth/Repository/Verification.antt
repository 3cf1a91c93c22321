-- ===== src/Auth/Repository/Verification.antt =====
-- Granted statuses of lib/repository-authorization.ts.
use artifact_dev_toolkit.Common.{
  ℕ, ◌≤◌, ◌≡◌, refl, ap, true, none, some, List, [], ◌∷◌, Memᴰ, any, arith, Bool-cases, ◌⊎◌, inl,
  inr, Result, ok, err, >>=-eq-ok, &&-true,
}
use artifact_dev_toolkit.Common.Text.{Text, text_eq, text_eq_iff, to_lower_case}
use artifact_dev_toolkit.Auth.Repository.{
  Access, Status, granted, GitHubAppConfig, GitHub, GitHubRepository, GitHubInstallation, Reply,
  rejected, answered, Thrown, configuration_error, http_error, other_error, github_json, settle,
  is_configured_repository, find_installation, check_repository, is_allowed,
  verify_repository_authorization,
}

Memᴰ_of_any : (s : Text) (xs : List Text) → any (text_eq s) xs ≡ true → Memᴰ s xs
Memᴰ_of_any s [] h = absurd (cc)
Memᴰ_of_any s (x ∷ xs) h = elim (Bool-cases (text_eq s x)) [
  | inl e ↦ Memᴰ.head ((text_eq_iff s x).0 e)
  | inr e ↦ Memᴰ.tail (Memᴰ_of_any s xs (ground arith))
]

github_json-ok :
    {A : Type 0} (reply : Reply A) (body : A)
    → github_json reply ≡ ok body
    → (status : ℕ) × (reply ≡ answered status (some body)) × (200 ≤ status) × (status ≤ 299)
unfolding github_json
github_json-ok rejected body h = absurd (cc)
github_json-ok (answered status none) body h = absurd (ground arith)
github_json-ok (answered status (some b)) body h =
    (status, ground arith, ground arith, ground arith)

settle-granted :
    (r : Result Thrown Status) (a : Access) → settle r ≡ ok (granted a) → r ≡ ok (granted a)
unfolding settle
settle-granted (ok status) a h = cc
settle-granted (err (configuration_error e)) a h = cc
settle-granted (err (http_error s)) a h = cc
settle-granted (err other_error) a h = cc

module _ (github : GitHub) (config : GitHubAppConfig) where
  -- What GitHub answered and what the access says, for a user who was let in.
  pub record IsVerified (github_id : ℕ) (login token : Text) (now : ℕ) (a : Access) : Type 0 where
    pub listed : (config.allowed_logins ≡ []) ⊎ Memᴰ (to_lower_case login) config.allowed_logins
    pub repository : GitHubRepository
    pub repository_status : ℕ
    pub repository_answer :
        github.repository config.owner config.repo token
        ≡ answered repository_status (some repository)
    pub succeeded : (200 ≤ repository_status) × (repository_status ≤ 299)
    pub same_repository : to_lower_case repository.name ≡ to_lower_case config.repo
    pub same_owner : to_lower_case repository.owner_login ≡ to_lower_case config.owner
    pub repository_id : a.repository_id ≡ repository.id
    pub jwt : Text
    pub signed : github.app_jwt config.app_id config.private_key ≡ ok jwt
    pub installation : GitHubInstallation
    pub installation_status : ℕ
    pub installation_answer :
        github.installation config.owner config.repo jwt
        ≡ answered installation_status (some installation)
    pub installation_id : a.installation_id ≡ installation.id
    pub user : (a.github_id ≡ github_id) × (a.login ≡ login)
    pub scope : (a.owner ≡ config.owner) × (a.repo ≡ config.repo)
    pub time : a.checked_at ≡ now

  allowed_of :
      (login : Text)
      → is_allowed github config login ≡ true
      → (config.allowed_logins ≡ []) ⊎ Memᴰ (to_lower_case login) config.allowed_logins
  unfolding is_allowed
  allowed_of login h =
      elim (Bool-cases (any (text_eq (to_lower_case login)) config.allowed_logins)) [
        | inl e ↦ inr (Memᴰ_of_any _ config.allowed_logins e)
        | inr e ↦ inl (ground arith)
      ]

  check_repository-granted :
      (github_id : ℕ) (login : Text) (now : ℕ) (r : Result Thrown GitHubRepository) (a : Access)
      → check_repository github config login github_id now r ≡ ok (granted a)
      → (repo : GitHubRepository) × (r ≡ ok repo)
        × (is_configured_repository github config repo ≡ true)
        × (find_installation github config login github_id now repo ≡ ok (granted a))
  unfolding check_repository
  check_repository-granted github_id login now (err thrown) a h = absurd (ground arith)
  check_repository-granted github_id login now (ok repo) a h =
      (repo, refl, ground arith, ground arith)

  find_installation-granted :
      (github_id : ℕ) (login : Text) (now : ℕ) (repo : GitHubRepository) (a : Access)
      → find_installation github config login github_id now repo ≡ ok (granted a)
      → (jwt : Text) × (installation : GitHubInstallation) × (github.app_jwt config.app_id
            config.private_key
          ≡ ok jwt)
        × (github_json (github.installation config.owner config.repo jwt) ≡ ok installation)
        × (a ≡ record {
          owner = config.owner;
          repo = config.repo;
          login = login;
          github_id = github_id;
          repository_id = repo.id;
          installation_id = installation.id;
          checked_at = now;
        })
  unfolding find_installation
  find_installation-granted github_id login now repo a h =
      let (jwt, e, h') = >>=-eq-ok _ _ h in
      let (installation, e', h'') = >>=-eq-ok _ _ h' in (jwt, installation, e, e', ground arith)

  -- A user is let in only if the allowlist is empty or names the login, GitHub shows the user the
  -- configured repository, and the app is installed on it; the access names that repository, that
  -- installation, that user and the time of the check.
  pub verify_repository_authorization-IsVerified :
      (github_id : ℕ) (login token : Text) (now : ℕ) (a : Access)
      → verify_repository_authorization github config github_id login token now ≡ ok (granted a)
      → IsVerified github_id login token now a
  unfolding verify_repository_authorization is_configured_repository
  verify_repository_authorization-IsVerified github_id login token now a h =
      let allowed : is_allowed github config login ≡ true = ground arith in
      let settled = settle-granted _ a (rw allowed at h) in
      let (repo, e, same, h') = check_repository-granted github_id login now _ a settled in
      let (jwt, installation, signed, e', fields) =
        find_installation-granted github_id login now repo a h' in
      let (status, answer, low, high) = github_json-ok _ repo e in
      let (status', answer', low', high') = github_json-ok _ installation e' in
      let (name, owner) = &&-true _ _ same in
      record {
        listed = allowed_of login allowed;
        repository = repo;
        repository_status = status;
        repository_answer = answer;
        succeeded = (low, high);
        same_repository = (text_eq_iff _ _).0 name;
        same_owner = (text_eq_iff _ _).0 owner;
        repository_id = ap (λ (x : Access). x.repository_id) fields;
        jwt = jwt;
        signed = signed;
        installation = installation;
        installation_status = status';
        installation_answer = answer';
        installation_id = ap (λ (x : Access). x.installation_id) fields;
        user = (ap (λ (x : Access). x.github_id) fields, ap (λ (x : Access). x.login) fields);
        scope = (ap (λ (x : Access). x.owner) fields, ap (λ (x : Access). x.repo) fields);
        time = ap (λ (x : Access). x.checked_at) fields;
      }
