-- ===== src/Auth/Oauth/State.antt =====
-- The state of a sign-in of lib/auth.ts, from its start to its use.
use artifact_dev_toolkit.Common.{
  ℕ, ◌≡◌, ◌↔◌, refl, sym, ◌∙◌, true, false, ◌&&◌, Option, none, some, List, [], ◌∷◌, arith,
  if◌then◌else◌, Bool-cases, inl, inr, ok,
}
use artifact_dev_toolkit.Common.Text.{Text, text_eq, text_eq_iff, text_eq_refl}
use artifact_dev_toolkit.Auth.Types.{AuthCookie, oauth_state_ttl_seconds}
use artifact_dev_toolkit.Auth.Core.{
  is_production, cookie_names, cookie_options, random_token, constant_time_equal,
}
use artifact_dev_toolkit.Auth.Core.Comparison.{constant_time_equal_iff}
use artifact_dev_toolkit.Auth.Configuration.{Environment, Configured}
use artifact_dev_toolkit.Auth.ReturnTo.{Web, safe_return_to}
use artifact_dev_toolkit.Auth.Oauth.{
  Jar, get_cookie, delete_cookie, set_cookie, AuthorizeUrl, create_oauth_start, consume_oauth_state,
}

pub get_cookie-delete_cookie :
    (name key : Text) (jar : Jar)
    → get_cookie key (delete_cookie name jar)
      ≡ (if text_eq name key then none else get_cookie key jar)
unfolding get_cookie delete_cookie
get_cookie-delete_cookie name key [] = ground arith
get_cookie-delete_cookie name key (c ∷ jar) = ground (
  arith,
  text_eq_iff name key,
  text_eq_iff c.name key,
  text_eq_iff c.name name,
  get_cookie-delete_cookie name key jar,
)

pub get_cookie-set_cookie :
    (name key value : Text) (options : AuthCookie) (jar : Jar)
    → get_cookie key (set_cookie name value options jar)
      ≡ (if text_eq name key then some value else get_cookie key jar)
unfolding set_cookie get_cookie
get_cookie-set_cookie name key value options jar =
    ground (arith, get_cookie-delete_cookie name key jar)

pub ruleset jar_laws = (get_cookie-delete_cookie, get_cookie-set_cookie)

-- The cookies of a sign-in have different names.
pub names_differ :
    (node_env : Text)
    → (text_eq (cookie_names node_env).return_to (cookie_names node_env).state ≡ false)
      × (text_eq (cookie_names node_env).pkce (cookie_names node_env).state ≡ false)
      × (text_eq (cookie_names node_env).state (cookie_names node_env).pkce ≡ false)
      × (text_eq (cookie_names node_env).pkce (cookie_names node_env).return_to ≡ false)
unfolding cookie_names text_eq
names_differ node_env = elim (Bool-cases (is_production node_env)) [
  | inl e ↦ rw e (refl, refl, refl, refl)
  | inr e ↦ rw e (refl, refl, refl, refl)
]

constant_time_equal-none : (s : Option Text) → constant_time_equal s none ≡ false
unfolding constant_time_equal
constant_time_equal-none none = refl
constant_time_equal-none (some s) = refl

accepts_state :
    (given : Option Text) (c : ℕ) (s : Text)
    → ((constant_time_equal given (some (c ∷ s)) && true) ≡ true) ↔ (given ≡ some (c ∷ s))
accepts_state given c s =
    let same = constant_time_equal_iff given (some (c ∷ s)) in
    (
      λ h. let (t, p, q, _) = same.0 (ground arith) in p ∙ sym q,
      λ e. rw (same.1 (c ∷ s, e, refl, refl)),
    )

module _ (web : Web) (node_env : Text) where
  -- However the first use of the state went, a second one is not valid.
  pub consume_oauth_state-once :
      (first second : Option Text) (jar : Jar)
      → (consume_oauth_state web node_env second
          (consume_oauth_state web node_env first jar).1).0.valid
        ≡ false
  unfolding consume_oauth_state
  consume_oauth_state-once first second jar =
      let names = cookie_names node_env in
      let (d1, d2, d3, d4) = names_differ node_env in
      simp (jar_laws, d1, d2, d3, text_eq_refl, constant_time_equal-none)

  -- The cookies that a start leaves, read one by one.
  start_cookies :
      (env : Environment) (validate_key : Text → Configured (Unit {0})) (challenge : Text → Text)
      (state_bytes verifier_bytes : List ℕ) (return_to : Option Text) (jar : Jar)
      (url : AuthorizeUrl)
      → (create_oauth_start web node_env env validate_key challenge state_bytes verifier_bytes
          return_to jar).0
        ≡ ok url
      → (url.state ≡ random_token state_bytes)
        × ((create_oauth_start web node_env env validate_key challenge state_bytes verifier_bytes
              return_to jar).1
            ≡ set_cookie
                (cookie_names node_env).pkce
                (random_token verifier_bytes)
                (cookie_options oauth_state_ttl_seconds node_env)
                (set_cookie
                  (cookie_names node_env).return_to
                  (safe_return_to web return_to)
                  (cookie_options oauth_state_ttl_seconds node_env)
                  (set_cookie
                    (cookie_names node_env).state
                    (random_token state_bytes)
                    (cookie_options oauth_state_ttl_seconds node_env)
                    jar)))
  unfolding create_oauth_start
  start_cookies env validate_key challenge state_bytes verifier_bytes return_to jar url e =
      (ground arith, ground arith)

  -- After a start that succeeded, with random bytes that are not none, the callback accepts the state
  -- of that start and no other, and it has the verifier and the return address of that start, the
  -- address made safe once more.
  pub create_oauth_start-consume_oauth_state :
      (env : Environment) (validate_key : Text → Configured (Unit {0})) (challenge : Text → Text)
      (b b' : ℕ) (bytes bytes' : List ℕ) (return_to given : Option Text) (jar : Jar)
      (url : AuthorizeUrl)
      → (create_oauth_start web node_env env validate_key challenge
          (b ∷ bytes)
          (b' ∷ bytes')
          return_to
          jar).0
        ≡ ok url
      → (((consume_oauth_state web node_env given
              (create_oauth_start web node_env env validate_key challenge
                (b ∷ bytes)
                (b' ∷ bytes')
                return_to
                jar).1).0.valid
            ≡ true)
          ↔ (given ≡ some url.state))
        × ((consume_oauth_state web node_env given
              (create_oauth_start web node_env env validate_key challenge
                (b ∷ bytes)
                (b' ∷ bytes')
                return_to
                jar).1).0.pkce_verifier
            ≡ some (random_token (b' ∷ bytes')))
        × ((consume_oauth_state web node_env given
              (create_oauth_start web node_env env validate_key challenge
                (b ∷ bytes)
                (b' ∷ bytes')
                return_to
                jar).1).0.return_to
            ≡ safe_return_to web (some (safe_return_to web return_to)))
  unfolding consume_oauth_state random_token
  create_oauth_start-consume_oauth_state env validate_key challenge b b' bytes bytes' return_to
        given jar url e =
      let (d1, d2, d3, d4) = names_differ node_env in
      let (same, cookies) =
        start_cookies env validate_key challenge (b ∷ bytes) (b' ∷ bytes') return_to jar url e in
      rw (cookies, same)
        (simp (jar_laws, d1, d2, d3, d4, text_eq_refl) (accepts_state given _ _, refl, refl))
