-- ===== src/Auth/ReturnTo.antt =====
-- `safeReturnTo` of lib/auth-core.ts: the address inside the application to which a sign-in returns.
-- Percent-decoding and the URL parser are the platform's, and parameters.
use artifact_dev_toolkit.Common.{
  ◌≡◌, Bool, true, false, not, ◌||◌, Option, none, some, [], ◌∷◌, ◌++◌, refl, All, arith,
  if◌then◌else◌, ◌⊎◌, inl, inr, Bool-cases, Option-cases,
}
use artifact_dev_toolkit.Common.Text.{
  Text, codes, text_eq, text_eq_iff, is_truthy, starts_with, includes,
}
use artifact_dev_toolkit.Common.Text.Laws.{starts_with-append}

pub record Url : Type 0 where
  pub origin : Text
  pub pathname : Text
  pub search : Text
  pub hash : Text

-- `decodeURIComponent`, and `new URL(decoded, "https://artifact-dev-toolkit.local")`; both throw on
-- what they cannot read.
pub record Web : Type 0 where
  pub decode_uri_component : Text → Option Text
  pub parse_url : Text → Option Url

abbrev pub local_origin : Text
local_origin = codes "https://artifact-dev-toolkit.local"

abbrev pub home : Text
home = codes "/"

-- The tests on the decoded text, before it is parsed.
unfoldable pub is_local_path : Text → Bool
is_local_path decoded =
    if not (starts_with decoded (codes "/")) || starts_with decoded (codes "//")
    then false
    else if includes decoded 92 || includes decoded 0
    then false
    else not (starts_with decoded (codes "/auth/") || starts_with decoded (codes "/sign-in"))

unfoldable pub location_of : Option Url → Text
location_of none = home
location_of (some url) =
    if text_eq url.origin local_origin then url.pathname ++ url.search ++ url.hash else home

-- The tests in words: one slash and no second one at the start, no backslash and no NUL anywhere, and
-- none of the addresses of the sign-in.
pub record IsLocal (decoded : Text) : Type 0 where
  pub rooted : (rest : Text) × (decoded ≡ codes "/" ++ rest)
  pub one_slash : (rest : Text) → ¬ (decoded ≡ codes "//" ++ rest)
  pub plain : All (λ c. (¬ (c ≡ 92)) × (¬ (c ≡ 0))) decoded
  pub no_auth : (rest : Text) → ¬ (decoded ≡ codes "/auth/" ++ rest)
  pub no_sign_in : (rest : Text) → ¬ (decoded ≡ codes "/sign-in" ++ rest)

starts_with-rest : (s p : Text) → starts_with s p ≡ true → (rest : Text) × (s ≡ p ++ rest)
unfolding starts_with
starts_with-rest s [] h = (s, refl)
starts_with-rest [] (d ∷ p) h = absurd (cc)
starts_with-rest (c ∷ s) (d ∷ p) h =
    let (rest, e) = starts_with-rest s p (ground arith) in (rest, ground arith)

starts_with-not : (s p rest : Text) → starts_with s p ≡ false → ¬ (s ≡ p ++ rest)
starts_with-not s p rest h e = absurd (ground (arith, e, starts_with-append p rest))

includes-not :
    (s : Text)
    → includes s 92 ≡ false
    → includes s 0 ≡ false
    → All (λ c. (¬ (c ≡ 92)) × (¬ (c ≡ 0))) s
unfolding includes
includes-not [] h k = tt
includes-not (c ∷ s) h k =
    let rest = includes-not s (ground arith) (ground arith) in
    (((λ e. ground arith), (λ e. ground arith)), rest)

is_local_path-IsLocal : (decoded : Text) → is_local_path decoded ≡ true → IsLocal decoded
unfolding is_local_path
is_local_path-IsLocal decoded h = record {
  rooted = starts_with-rest decoded (codes "/") (ground arith);
  one_slash = λ rest. starts_with-not decoded (codes "//") rest (ground arith);
  plain = includes-not decoded (ground arith) (ground arith);
  no_auth = λ rest. starts_with-not decoded (codes "/auth/") rest (ground arith);
  no_sign_in = λ rest. starts_with-not decoded (codes "/sign-in") rest (ground arith);
}

module _ (web : Web) where
  unfoldable pub safe_return_to : Option Text → Text
  safe_return_to none = home
  safe_return_to (some value) =
      if not (is_truthy value) then home else elim (web.decode_uri_component value) [
        | none ↦ home
        | some decoded ↦ if is_local_path decoded then location_of (web.parse_url decoded) else home
      ]

  -- Where the result comes from, if it is not the home page.
  pub record IsAccepted (value result : Text) : Type 0 where
    pub decoded : Text
    pub decodes : web.decode_uri_component value ≡ some decoded
    pub local_path : IsLocal decoded
    pub url : Url
    pub parses : web.parse_url decoded ≡ some url
    pub same_origin : url.origin ≡ local_origin
    pub composed : result ≡ url.pathname ++ url.search ++ url.hash

  -- A result is the home page, or the path, query and fragment of an address of the application's own
  -- origin, parsed from a decoded text that begins with one slash and no second one, has no backslash
  -- and no NUL, and begins neither with `/auth/` nor with `/sign-in`.
  pub safe_return_to-IsAccepted :
      (value : Text)
      → (safe_return_to (some value) ≡ home) ⊎ IsAccepted value (safe_return_to (some value))
  unfolding safe_return_to location_of
  safe_return_to-IsAccepted value = elim (Bool-cases (is_truthy value)) [
    | inr empty ↦ inl (rw empty)
    | inl given ↦ elim (Option-cases (web.decode_uri_component value)) [
      | inl broken ↦ inl (ground arith)
      | inr (decoded, decodes) ↦ elim (Bool-cases (is_local_path decoded)) [
        | inr foreign ↦ inl (ground arith)
        | inl local_path ↦ elim (Option-cases (web.parse_url decoded)) [
          | inl broken ↦ inl (ground arith)
          | inr (url, parses) ↦ elim (Bool-cases (text_eq url.origin local_origin)) [
            | inr other ↦ inl (ground arith)
            | inl same ↦ inr (record {
              decoded = decoded;
              decodes = decodes;
              local_path = is_local_path-IsLocal decoded local_path;
              url = url;
              parses = parses;
              same_origin = (text_eq_iff _ _).0 same;
              composed = ground arith;
            })
          ]
        ]
      ]
    ]
  ]
