-- ===== src/Auth/Core.antt =====
-- lib/auth-core.ts: cookies, the comparison of secrets, and the user that GitHub names.
pub mod Comparison
use Prim.Native.Nat.{bit_or, bit_xor}
use artifact_dev_toolkit.Common.{
  ℕ, ◌+◌, ◌-◌, ◌/◌, ◌%◌, Bool, true, false, not, ◌&&◌, Option, none, some, List, [], ◌∷◌, ◌++◌,
  length, ltb, ◌==◌, if◌then◌else◌,
}
use artifact_dev_toolkit.Common.Text.{Text, codes, text_eq, is_truthy}
use artifact_dev_toolkit.Common.Json.{
  Json, null, object, array, property, as_text, as_num, as_nonempty, is_safe_integer,
}
use artifact_dev_toolkit.Auth.Types.{AuthCookie, CookieNames, GitHubUser}

abbrev pub is_production : Text → Bool
is_production node_env = text_eq node_env (codes "production")

unfoldable pub cookie_names : Text → CookieNames
cookie_names node_env =
    if is_production node_env
    then record {
      session = codes "__Host-adt_session";
      state = codes "__Host-adt_oauth_state";
      return_to = codes "__Host-adt_oauth_return";
      pkce = codes "__Host-adt_pkce_verifier";
    }
    else record {
      session = codes "adt_session";
      state = codes "adt_oauth_state";
      return_to = codes "adt_oauth_return";
      pkce = codes "adt_pkce_verifier";
    }

unfoldable pub cookie_options : ℕ → Text → AuthCookie
cookie_options max_age node_env = record {
  http_only = true;
  secure = is_production node_env;
  same_site = codes "lax";
  path = codes "/";
  max_age = max_age;
}

unfoldable pub hex_digit : ℕ → ℕ
hex_digit n = if ltb n 10 then b'0' + n else b'a' + (n - 10)

-- The random bytes in, two hexadecimal digits for each out.
unfoldable pub random_token : List ℕ → Text
random_token [] = []
random_token (byte ∷ bytes) = hex_digit (byte / 16) ∷ hex_digit (byte % 16) ∷ random_token bytes

-- The loop: every pair of code units is read, whatever the earlier ones gave.
unfoldable pub differences : ℕ → Text → Text → ℕ
differences result (a ∷ left) (b ∷ right) = differences (bit_or result (bit_xor a b)) left right
differences result _ _ = result

unfoldable pub constant_time_equal : Option Text → Option Text → Bool
constant_time_equal (some left) (some right) =
    if not (is_truthy left)
    then false
    else if not (is_truthy right)
    then false
    else if not (length left == length right)
    then false
    else differences 0 left right == 0
constant_time_equal _ _ = false

-- `none` is the error github_identity_failed. Every property of a value that is not an object is
-- undefined, and an array has none of these.
unfoldable pub validate_github_user : Json → Option GitHubUser
validate_github_user value = elim (as_num (property (codes "id") value)) [
  | none ↦ none
  | some github_id ↦ elim (as_nonempty (property (codes "login") value)) [
    | none ↦ none
    | some login ↦
        if is_safe_integer github_id
        then some (record {
          id = github_id;
          login = login;
          name = as_nonempty (property (codes "name") value);
          avatar_url = as_nonempty (property (codes "avatar_url") value);
        })
        else none
  ]
]
