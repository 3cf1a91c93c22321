-- ===== src/Auth/Configuration/Settings.antt =====
-- Accepted settings of lib/auth-configuration.ts.
use artifact_dev_toolkit.Common.{
  ℕ, ◌+◌, ◌*◌, ◌%◌, ◌≤◌, ◌<◌, ◌≡◌, refl, ap, ◌∙◌, ◌↔◌, Bool, true, false, not, ◌&&◌, ◌||◌, List, [],
  ◌∷◌, length, map, filter, All, arith, ltb, ◌==◌, Bool-cases, inl, inr, ok, err,
}
use artifact_dev_toolkit.Common.Text.{Text, is_truthy, trim}
use artifact_dev_toolkit.Auth.Configuration.{
  Environment, setting, require_authentication_values, validate_token_encryption_key, missing_error,
}
use artifact_dev_toolkit.Auth.Configuration.Base64.{is_sextet, is_base64, sextet, decode_base64}

sextet_not_pad : (c : ℕ) → is_sextet c ≡ true → (c == b'=') ≡ false
unfolding is_sextet
sextet_not_pad c h = ground arith

full_bits :
    (p q x u t : Bool)
    → (p && q && (x && u && t || false)) ≡ true
    → (x ≡ true) × (u ≡ true) × (t ≡ true)
full_bits p q x u t h = ground arith

-- A group with another behind it is a full one.
full_group :
    (a b c d e : ℕ) (rest : Text)
    → is_base64 (a ∷ b ∷ c ∷ d ∷ e ∷ rest) ≡ true
    → ((c == b'=') ≡ false) × ((d == b'=') ≡ false) × (is_base64 (e ∷ rest) ≡ true)
unfolding is_base64
full_group a b c d e rest h =
    let (x, u, t) =
      full_bits (is_sextet a) (is_sextet b) (is_sextet c) (is_sextet d) (is_base64 (e ∷ rest)) h in
    (sextet_not_pad c x, sextet_not_pad d u, t)

length-full_group :
    (a b c d e : ℕ) (rest : Text)
    → is_base64 (a ∷ b ∷ c ∷ d ∷ e ∷ rest) ≡ true
    → length (decode_base64 (a ∷ b ∷ c ∷ d ∷ e ∷ rest)) ≡ 3 + length (decode_base64 (e ∷ rest))
unfolding decode_base64
length-full_group a b c d e rest h =
    let (p, q, r) = full_group a b c d e rest h in rw (p, q) (omega arith)

decode_base64-length :
    (s : Text)
    → is_base64 s ≡ true
    → (4 * length (decode_base64 s) ≤ 3 * length s)
      × (3 * length s ≤ 4 * length (decode_base64 s) + 8)
      × (length s % 4 ≡ 0)
unfolding is_base64 decode_base64
decode_base64-length [] h = omega arith
decode_base64-length (a ∷ []) h = cc
decode_base64-length (a ∷ b ∷ []) h = cc
decode_base64-length (a ∷ b ∷ c ∷ []) h = cc
decode_base64-length (a ∷ b ∷ c ∷ d ∷ []) h = ground (arith, sextet_not_pad c, sextet_not_pad d)
decode_base64-length (a ∷ b ∷ c ∷ d ∷ e ∷ rest) h =
    let (p, q, r) = full_group a b c d e rest h in
    omega (arith, length-full_group a b c d e rest h, decode_base64-length (e ∷ rest) r)

sextet-lt : (c : ℕ) → sextet c < 64
unfolding sextet
sextet-lt c = ground arith

decode_base64-bytes : (s : Text) → All (λ byte. byte < 256) (decode_base64 s)
unfolding decode_base64
decode_base64-bytes [] = tt
decode_base64-bytes (a ∷ []) = tt
decode_base64-bytes (a ∷ b ∷ []) = tt
decode_base64-bytes (a ∷ b ∷ c ∷ []) = tt
decode_base64-bytes (a ∷ b ∷ c ∷ d ∷ rest) =
    ground (arith, sextet-lt a, sextet-lt b, sextet-lt c, sextet-lt d, decode_base64-bytes rest)

-- A key that is accepted matches the pattern without the white space around it, has 44 digits, padding
-- included, and decodes to the result, which is exactly 32 numbers below 256.
pub validate_token_encryption_key-ok :
    (value : Text) (bytes : List ℕ)
    → validate_token_encryption_key value ≡ ok bytes
    → (length bytes ≡ 32)
      × (length (trim value) ≡ 44)
      × (is_base64 (trim value) ≡ true)
      × (bytes ≡ decode_base64 (trim value))
      × All (λ byte. byte < 256) bytes
unfolding validate_token_encryption_key
validate_token_encryption_key-ok value bytes h =
    let same : bytes ≡ decode_base64 (trim value) = ground arith in
    let matches : is_base64 (trim value) ≡ true = ground arith in
    let full : length (decode_base64 (trim value)) ≡ 32 = ground arith in
    (
      ap length same ∙ full,
      omega (arith, decode_base64-length (trim value) matches),
      matches,
      same,
      rw same (decode_base64-bytes (trim value)),
    )

missing-none :
    (env : Environment) (names : List Text)
    → (length (filter (λ name. not (is_truthy (setting env name))) names) ≡ 0)
      ↔ All (λ name. is_truthy (setting env name) ≡ true) names
missing-none env [] = (λ h. tt, λ h. refl)
missing-none env (name ∷ names) = ground (arith, missing-none env names)

-- Where every required setting is set to more than white space, each is given with its trimmed value;
-- otherwise the error names those that are missing.
pub require_authentication_values_iff :
    (env : Environment) (names : List Text)
    → (All (λ name. is_truthy (setting env name) ≡ true) names
        → require_authentication_values env names
          ≡ ok (map (λ name. (name, setting env name)) names))
      × (¬ All (λ name. is_truthy (setting env name) ≡ true) names
          → require_authentication_values env names
            ≡ err (missing_error (filter (λ name. not (is_truthy (setting env name))) names)))
unfolding require_authentication_values
require_authentication_values_iff env names = (
  λ h. ground (arith, (missing-none env names).1 h),
  λ h.
      elim (Bool-cases
        (ltb 0 (length (filter (λ name. not (is_truthy (setting env name))) names)))) [
          | inl e ↦ rw e
          | inr e ↦ absurd (h ((missing-none env names).0 (ground arith)))
        ],
)
