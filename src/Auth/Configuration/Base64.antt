-- ===== src/Auth/Configuration/Base64.antt =====
-- The pattern of `validateTokenEncryptionKey` in lib/auth-configuration.ts, and `atob` on what it
-- matches. The bits of the last digit that no byte needs may be anything.
use artifact_dev_toolkit.Common.{
  ℕ, ◌+◌, ◌-◌, ◌*◌, ◌/◌, ◌%◌, Bool, true, false, ◌&&◌, ◌||◌, List, [], ◌∷◌, leb, ◌==◌,
  if◌then◌else◌,
}
use artifact_dev_toolkit.Common.Text.{Text}

unfoldable pub is_sextet : ℕ → Bool
is_sextet c =
    leb b'A' c && leb c b'Z'
    || leb b'a' c && leb c b'z'
    || leb b'0' c && leb c b'9'
    || c == b'+'
    || c == b'/'

abbrev is_end : Text → Bool
is_end [] = true
is_end (c ∷ s) = false

-- `/^(?:[A-Za-z0-9+/]{4})*(?:[A-Za-z0-9+/]{2}==|[A-Za-z0-9+/]{3}=)?$/`
unfoldable pub is_base64 : Text → Bool
is_base64 [] = true
is_base64 (a ∷ b ∷ c ∷ d ∷ rest) =
    is_sextet a
    && is_sextet b
    && (is_sextet c && is_sextet d && is_base64 rest
        || is_end rest && (is_sextet c || c == b'=') && d == b'=')
is_base64 _ = false

unfoldable pub sextet : ℕ → ℕ
sextet c =
    if leb b'A' c && leb c b'Z'
    then c - b'A'
    else if leb b'a' c && leb c b'z'
    then c - b'a' + 26
    else if leb b'0' c && leb c b'9'
    then c - b'0' + 52
    else if c == b'+'
    then 62
    else 63

-- Four digits make three bytes, fewer where the last ones are padding.
unfoldable pub decode_base64 : Text → List ℕ
decode_base64 (a ∷ b ∷ c ∷ d ∷ rest) =
    let first = sextet a * 4 + sextet b / 16 in
    let second = sextet b % 16 * 16 + sextet c / 4 in
    let third = sextet c % 4 * 64 + sextet d in
    let more = decode_base64 rest in
    if c == b'='
    then first ∷ []
    else if d == b'='
    then first ∷ second ∷ []
    else first ∷ second ∷ third ∷ more
decode_base64 _ = []
