-- ===== src/Auth/Callback/SignIn.antt =====
-- The callback route of lib/oauth-route-handlers.ts where it lets a user in.
use artifact_dev_toolkit.Common.{
  ℕ, ◌≡◌, ◌≢◌, refl, sym, ap, ◌∙◌, true, false, Option, none, some, List, arith, Option-cases, inl,
  inr, ok, Result-cases, &&-true,
}
use artifact_dev_toolkit.Common.Text.{Text, is_truthy, text_eq}
use artifact_dev_toolkit.Auth.Types.{SessionRecord, GitHubUser}
use artifact_dev_toolkit.Auth.Core.{cookie_names}
use artifact_dev_toolkit.Auth.Core.Comparison.{constant_time_equal_iff}
use artifact_dev_toolkit.Auth.Sessions.Store.{Database}
use artifact_dev_toolkit.Auth.Repository.{Access, Status, granted, refused}
use artifact_dev_toolkit.Auth.Access.{Deployment}
use artifact_dev_toolkit.Auth.ReturnTo.{Web, safe_return_to}
use artifact_dev_toolkit.Auth.Oauth.{
  Jar, get_cookie, is_given, consume_oauth_state, ExchangeResult, OauthEndpoints, OauthState,
  exchange_github_code, create_session, Flow, delete_cookie, FlowError, flow_configuration,
  token_exchange, identity_lookup, unexpected,
}
use artifact_dev_toolkit.Auth.Oauth.State.{get_cookie-delete_cookie, names_differ}
use artifact_dev_toolkit.Auth.Callback.{
  Query, Dependencies, inside, oauth_callback, exchange_code, finish_sign_in, auth_dependencies,
  consume_failed, create_failed, exchange_failed, destination,
}

destination-inside :
    (status : Status) (return_to target : Text)
    → destination status return_to ≡ inside target
    → (a : Access) × (status ≡ granted a) × (target ≡ return_to)
destination-inside (granted a) return_to target h = (a, refl, ground arith)
destination-inside (refused refusal) return_to target h = absurd (cc)

consume_failed-location :
    (e : FlowError) (target : Text) → (consume_failed e).location ≢ inside target
unfolding consume_failed
consume_failed-location (flow_configuration e) target h = cc
consume_failed-location token_exchange target h = cc
consume_failed-location identity_lookup target h = cc
consume_failed-location unexpected target h = cc

create_failed-location :
    (e : FlowError) (target : Text) → (create_failed e).location ≢ inside target
unfolding create_failed
create_failed-location (flow_configuration e) target h = cc
create_failed-location token_exchange target h = cc
create_failed-location identity_lookup target h = cc
create_failed-location unexpected target h = cc

exchange_failed-location :
    (e : FlowError) (target : Text) → (exchange_failed e).location ≢ inside target
unfolding exchange_failed
exchange_failed-location (flow_configuration e) target h = cc
exchange_failed-location token_exchange target h = cc
exchange_failed-location identity_lookup target h = cc
exchange_failed-location unexpected target h = cc

module _ {S : Type 0} (use_ : Dependencies S) where
  finish_sign_in-inside :
      (state : OauthState) (result : ExchangeResult) (s : S) (target : Text)
      → (finish_sign_in use_ state result s).0.location ≡ inside target
      → (a : Access) × (session : SessionRecord) × (result.repository_authorization ≡ granted a)
        × ((use_.create result.user result.repository_authorization result.user_access_token
              result.user_token_expires_at s).0
            ≡ ok session)
        × (target ≡ state.return_to)
  unfolding finish_sign_in create_failed
  finish_sign_in-inside state result s target h =
      let outcome =
        use_.create result.user result.repository_authorization result.user_access_token
          result.user_token_expires_at s in
      elim (Result-cases outcome.0) [
        | inl (e, failed) ↦ absurd (ground (arith, create_failed-location e target))
        | inr (session, created) ↦
            let (a, allowed, same) =
              destination-inside result.repository_authorization state.return_to target
                (ground arith) in
            (a, session, allowed, created, same)
      ]

  exchange_code-inside :
      (state : OauthState) (code : Text) (s : S) (target : Text)
      → (exchange_code use_ state code s).0.location ≡ inside target
      → (result : ExchangeResult) × ((use_.exchange code state.pkce_verifier s).0 ≡ ok result)
        × ((finish_sign_in use_ state result
              (use_.exchange code state.pkce_verifier s).1).0.location
            ≡ inside target)
  unfolding exchange_code
  exchange_code-inside state code s target h =
      elim (Result-cases (use_.exchange code state.pkce_verifier s).0) [
        | inl (e, failed) ↦ absurd (ground (arith, exchange_failed-location e target))
        | inr (result, exchanged) ↦ (result, exchanged, ground arith)
      ]

  oauth_callback-inside :
      (query : Query) (s : S) (target : Text)
      → (oauth_callback use_ query s).0.location ≡ inside target
      → (state : OauthState) × (code : Text) × ((use_.consume query.state s).0 ≡ ok state)
        × (state.valid ≡ true)
        × (query.error ≡ none)
        × (query.code ≡ some code)
        × (is_truthy code ≡ true)
        × ((exchange_code use_ state code (use_.consume query.state s).1).0.location
            ≡ inside target)
  unfolding oauth_callback
  oauth_callback-inside query s target h = elim (Result-cases (use_.consume query.state s).0) [
    | inl (e, failed) ↦ absurd (ground (arith, consume_failed-location e target))
    | inr (state, consumed) ↦ elim (Option-cases query.code) [
      | inl missing ↦ absurd (ground arith)
      | inr (code, given) ↦
          (state, code, consumed, ground arith, ground arith, given, ground arith, ground arith)
    ]
  ]

consumed_state : {a b : OauthState} → ◌≡◌ {A = Flow OauthState} (ok a) (ok b) → a ≡ b
consumed_state h = cc

given_some : (o : Option Text) → is_given o ≡ true → (t : Text) × (o ≡ some t)
given_some none h = absurd (cc)
given_some (some t) h = (t, refl)

kept_before :
    (name key value : Text) (jar : Jar)
    → text_eq name key ≡ false
    → get_cookie key (delete_cookie name jar) ≡ some value
    → get_cookie key jar ≡ some value
kept_before name key value jar other h = ground (arith, get_cookie-delete_cookie name key jar)

module _ (d : Deployment) (node_env : Text) (web : Web) (endpoints : OauthEndpoints) where
  -- What stands behind a browser that is sent into the application.
  pub record IsSignedIn (encrypt : List ℕ → Text → Text × Text) (id_bytes : List ℕ)
      (received now : ℕ) (query : Query) (db : Database) (jar : Jar) (target : Text) : Type 0 where
    pub state : Text
    pub state_given : query.state ≡ some state
    pub state_kept : get_cookie (cookie_names node_env).state jar ≡ some state
    pub no_error : query.error ≡ none
    pub code : Text
    pub code_given : query.code ≡ some code
    pub verifier : Text
    pub verifier_kept : get_cookie (cookie_names node_env).pkce jar ≡ some verifier
    pub result : ExchangeResult
    pub exchanged : exchange_github_code d node_env endpoints received now code verifier ≡ ok result
    pub access : Access
    pub allowed : result.repository_authorization ≡ granted access
    pub session : SessionRecord
    pub created :
        (create_session d node_env encrypt id_bytes now result.user
          (granted access)
          (some result.user_access_token)
          result.user_token_expires_at
          (db, (consume_oauth_state web node_env query.state jar).1)).0
        ≡ ok session
    pub return_to : target ≡ safe_return_to web (get_cookie (cookie_names node_env).return_to jar)

  create_of :
      (encrypt : List ℕ → Text → Text × Text) (id_bytes : List ℕ) (received now : ℕ)
      (user : GitHubUser) (status : Status) (token : Text) (expires_at : ℕ) (s : Database × Jar)
      (session : SessionRecord)
      → ((auth_dependencies d node_env web endpoints encrypt id_bytes received now).create user
          status token expires_at s).0
        ≡ ok session
      → (create_session d node_env encrypt id_bytes now user status (some token) expires_at s).0
        ≡ ok session
  unfolding auth_dependencies
  create_of encrypt id_bytes received now user status token expires_at s session h = ground arith

  -- The callback sends the browser into the application only if the state of the address is that of
  -- the cookie, GitHub reported no error and gave a code, the exchange of that code named a user to
  -- whom access to the repository was granted, and a session was created for that user; the address
  -- is the one that the cookie kept, made safe.
  pub oauth_callback-IsSignedIn :
      (encrypt : List ℕ → Text → Text × Text) (id_bytes : List ℕ) (received now : ℕ) (query : Query)
      (db : Database) (jar : Jar) (target : Text)
      → (oauth_callback
          (auth_dependencies d node_env web endpoints encrypt id_bytes received now)
          query
          (db, jar)).0.location
        ≡ inside target
      → IsSignedIn encrypt id_bytes received now query db jar target
  unfolding auth_dependencies consume_oauth_state
  oauth_callback-IsSignedIn encrypt id_bytes received now query db jar target h =
      let dependencies = auth_dependencies d node_env web endpoints encrypt id_bytes received now in
      let (state, code, consumed, valid, no_error, given, _, h') =
        oauth_callback-inside dependencies query (db, jar) target h in
      let (result, exchanged, h'') = exchange_code-inside dependencies state code _ target h' in
      let (access, session, allowed, created, same) =
        finish_sign_in-inside dependencies state result _ target h'' in
      let (matched, verified) =
        &&-true _ _ (ap (λ (x : OauthState). x.valid) (consumed_state consumed) ∙ valid) in
      let (s, state_given, state_kept, _) = (constant_time_equal_iff _ _).0 matched in
      let (verifier, kept) = given_some _ verified in
      let (_, _, other, _) = names_differ node_env in
      let verifier_same : state.pkce_verifier ≡ some verifier =
        sym (ap (λ (x : OauthState). x.pkce_verifier) (consumed_state consumed)) ∙ kept in
      record {
        state = s;
        state_given = state_given;
        state_kept = state_kept;
        no_error = no_error;
        code = code;
        code_given = given;
        verifier = verifier;
        verifier_kept =
            kept_before (cookie_names node_env).state (cookie_names node_env).pkce verifier jar
              other kept;
        result = result;
        exchanged = rw verifier_same at exchanged;
        access = access;
        allowed = allowed;
        session = session;
        created = rw allowed at (create_of encrypt id_bytes received now _ _ _ _ _ session created);
        return_to = same ∙ sym (ap (λ (x : OauthState). x.return_to) (consumed_state consumed));
      }
