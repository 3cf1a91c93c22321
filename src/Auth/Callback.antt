-- ===== src/Auth/Callback.antt =====
-- lib/oauth-route-handlers.ts: the answers of the two sign-in routes. A redirect is given by its path
-- and parameters; that the address of a request and a path make an address is taken for granted.
pub mod SignIn
use artifact_dev_toolkit.Common.{
  Bool, true, false, not, ℕ, Option, none, some, List, if◌then◌else◌, Result, ok, err, is_some,
}
use artifact_dev_toolkit.Common.Text.{Text, codes, is_truthy, text_eq}
use artifact_dev_toolkit.Auth.Types.{
  GitHubUser, SessionRecord, OauthErrorCode, denied, invalid_state, missing_code, configuration,
  github_exchange_failed, github_identity_failed, session_creation_failed, oauth_start_failed,
}
use artifact_dev_toolkit.Auth.Configuration.{AuthenticationConfigurationError, Configured}
use artifact_dev_toolkit.Auth.Sessions.Store.{Database}
use artifact_dev_toolkit.Auth.Repository.{Status, granted, refused}
use artifact_dev_toolkit.Auth.Access.{Deployment, Uncaught, bad_configuration, store_failed}
use artifact_dev_toolkit.Auth.ReturnTo.{Web, safe_return_to}
use artifact_dev_toolkit.Auth.Oauth.{
  Jar, OauthState, Flow, FlowError, flow_configuration, token_exchange, identity_lookup, unexpected,
  ExchangeResult, OauthEndpoints, AuthorizeUrl, create_oauth_start, consume_oauth_state,
  exchange_github_code, create_session,
}

-- Where the browser goes.
pub data Location : Type 0 where
  github : AuthorizeUrl → Location
  sign_in : OauthErrorCode → Option Text → Location
  inside : Text → Location
  access_denied : Location

-- The category of a logged failure.
pub data Category : Type 0 where
  configuration_failure unexpected_failure state_failure authorization_denied : Category
  code_failure session_configuration session_persistence : Category
  repository_configuration identity_failure exchange_failure : Category

pub record LogEntry : Type 0 where
  pub category : Category
  pub error : Option AuthenticationConfigurationError

pub record Answer : Type 0 where
  pub location : Location
  pub logged : Option LogEntry

abbrev pub answer_error : OauthErrorCode → Category → Answer
answer_error code category = record {
  location = sign_in code none;
  logged = some (record { category = category; error = none });
}

abbrev pub answer_configuration : Category → AuthenticationConfigurationError → Answer
answer_configuration category e = record {
  location = sign_in configuration none;
  logged = some (record { category = category; error = some e });
}

-- The parameters of the callback's address.
pub record Query : Type 0 where
  pub state : Option Text
  pub error : Option Text
  pub code : Option Text

-- What the handler is given, over the state `S` that its functions share.
pub record Dependencies (S : Type 0) : Type 0 where
  pub consume : Option Text → S → Flow OauthState × S
  pub exchange : Text → Option Text → S → Flow ExchangeResult × S
  pub create : GitHubUser → Status → Text → ℕ → S → Flow SessionRecord × S

-- The return address is not repeated where it is the home page.
unfoldable pub start_answer : Text → Result FlowError AuthorizeUrl → Answer
start_answer return_to (ok url) = record { location = github url; logged = none }
start_answer return_to (err e) =
    let again = if text_eq return_to (codes "/") then none else some return_to in
    elim e [
      | flow_configuration e' ↦ record {
        location = sign_in configuration again;
        logged = some (record { category = configuration_failure; error = some e' });
      }
      | _ ↦ record {
        location = sign_in oauth_start_failed again;
        logged = some (record { category = unexpected_failure; error = none });
      }
    ]

unfoldable pub consume_failed : FlowError → Answer
consume_failed (flow_configuration e) = answer_configuration configuration_failure e
consume_failed _ = answer_error github_exchange_failed unexpected_failure

unfoldable pub create_failed : FlowError → Answer
create_failed (flow_configuration e) = answer_configuration session_configuration e
create_failed _ = answer_error session_creation_failed session_persistence

unfoldable pub exchange_failed : FlowError → Answer
exchange_failed (flow_configuration e) = answer_configuration repository_configuration e
exchange_failed identity_lookup = answer_error github_identity_failed identity_failure
exchange_failed token_exchange = answer_error github_exchange_failed exchange_failure
exchange_failed unexpected = answer_error github_exchange_failed unexpected_failure

abbrev pub destination : Status → Text → Location
destination (granted access) return_to = inside return_to
destination (refused refusal) return_to = access_denied

module _ {S : Type 0} (use_ : Dependencies S) where
  unfoldable pub finish_sign_in : OauthState → ExchangeResult → S → Answer × S
  finish_sign_in state result s =
      let (created, s') =
        use_.create result.user result.repository_authorization result.user_access_token
          result.user_token_expires_at s in
      elim created [
        | err e ↦ (create_failed e, s')
        | ok session ↦ (
          record {
            location = destination result.repository_authorization state.return_to;
            logged = none;
          },
          s',
        )
      ]

  unfoldable pub exchange_code : OauthState → Text → S → Answer × S
  exchange_code state code s =
      let (exchanged, s') = use_.exchange code state.pkce_verifier s in
      elim exchanged [
        | err e ↦ (exchange_failed e, s')
        | ok result ↦ finish_sign_in state result s'
      ]

  unfoldable pub oauth_callback : Query → S → Answer × S
  oauth_callback query s =
      let (consumed, s') = use_.consume query.state s in
      elim consumed [
        | err e ↦ (consume_failed e, s')
        | ok state ↦
            if not state.valid
            then (answer_error invalid_state state_failure, s')
            else if is_some query.error
            then (answer_error denied authorization_denied, s')
            else elim query.code [
              | none ↦ (answer_error missing_code code_failure, s')
              | some code ↦
                  if is_truthy code
                  then exchange_code state code s'
                  else (answer_error missing_code code_failure, s')
            ]
      ]

abbrev pub flow_error : Uncaught → FlowError
flow_error (bad_configuration e) = flow_configuration e
flow_error (store_failed e) = unexpected

-- A missing verifier is sent as none at all; the handler gives one where the state is valid.
abbrev pub verifier_or_empty : Option Text → Text
verifier_or_empty none = List.[]
verifier_or_empty (some verifier) = verifier

-- The functions of lib/auth.ts that the callback route passes, over the table and the cookies.
-- `received` and `now` are the times of the token's answer and of what follows.
module _ (d : Deployment) (node_env : Text) (web : Web) where
  unfoldable pub auth_dependencies :
      OauthEndpoints
      → (List ℕ → Text → Text × Text)
      → List ℕ
      → ℕ
      → ℕ
      → Dependencies (Database × Jar)
  auth_dependencies endpoints encrypt id_bytes received now = record {
    consume = λ state (db, jar).
        let (consumed, jar') = consume_oauth_state web node_env state jar in
        (ok consumed, (db, jar'));
    exchange = λ code verifier s. (
      exchange_github_code d node_env endpoints received now code (verifier_or_empty verifier),
      s,
    );
    create = λ user status token expires_at s.
        let (created, db', jar') =
          create_session d node_env encrypt id_bytes now user status (some token) expires_at s in
        (elim created [ err e ↦ err (flow_error e) | ok session ↦ ok session ], (db', jar'));
  }

  unfoldable pub oauth_start :
      (Text → Configured (Unit {0}))
      → (Text → Text)
      → List ℕ
      → List ℕ
      → Option Text
      → Jar
      → Answer × Jar
  oauth_start validate_key challenge state_bytes verifier_bytes given jar =
      let return_to = safe_return_to web given in
      let (started, jar') =
        create_oauth_start web node_env d.env validate_key challenge state_bytes verifier_bytes
          (some return_to) jar in
      (
        start_answer return_to
            (elim started [ err e ↦ err (flow_configuration e) | ok url ↦ ok url ]),
        jar',
      )
