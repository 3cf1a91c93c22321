-- ===== src/Library/Variation.antt =====
-- Variations of an artifact: `slugify` of lib/artifact-id.ts, and `prepareVariation` and
-- `createVariation` of lib/artifact-repository.ts. The time comes as its ISO text, and the suffix as
-- its four random bytes.
pub mod Ids
use artifact_dev_toolkit.Common.{
  length, all, leb, ◌||◌, ℕ, zero, suc, ◌-◌, Bool, true, false, not, ◌&&◌, Option, none, some, List,
  [], ◌∷◌, ◌++◌, filter, ◌==◌, if◌then◌else◌, Result, ok, err,
}
use artifact_dev_toolkit.Common.Text.{Text, codes, is_truthy, trim, to_lower_case}
use artifact_dev_toolkit.Auth.Core.{random_token}
use artifact_dev_toolkit.Library.Layout.{is_slug_char}
use artifact_dev_toolkit.Library.Contract.{ArtifactMetadata, Artifact, unique}
use artifact_dev_toolkit.Library.Requests.{RepositoryError, write_validation}

-- `s.slice(0, n)`
unfoldable pub slice_to : ℕ → Text → Text
slice_to zero s = []
slice_to (suc n) [] = []
slice_to (suc n) (c ∷ s) = c ∷ slice_to n s

unfoldable pub slice_from : ℕ → Text → Text
slice_from zero s = s
slice_from (suc n) [] = []
slice_from (suc n) (c ∷ s) = slice_from n s

-- Runs of other units become one hyphen, which is left out at both ends: `replace(/[^a-z0-9]+/g, "-")`
-- and `replace(/(^-|-$)+/g, "")`. A hyphen is written when the next word begins.
unfoldable pub words_from : Bool → Bool → Text → Text
words_from started gap [] = []
words_from started gap (c ∷ s) =
    let next = c ∷ words_from true false s in
    let skip = words_from started true s in
    if is_slug_char c then (if started && gap then b'-' ∷ next else next) else skip

unfoldable pub slugify : Text → Text
slugify value = slice_to 80 (words_from false false (to_lower_case value))

abbrev pub text_or : Text → Text → Text
text_or value fallback = if is_truthy value then value else fallback

abbrev pub given_title : Option Text → Text
given_title none = []
given_title (some title) = trim title

unfoldable pub variation_title : Artifact → Option Text → Text
variation_title source title =
    text_or (given_title title) (source.metadata.title ++ codes " Variation")

-- `${idBase}-${date}-${time}-${suffix}`
unfoldable pub variation_id : Text → Text → Text → Text
variation_id base timestamp suffix =
    base
    ++ b'-'
      ∷ (slice_to 10 timestamp
          ++ b'-'
            ∷ (filter (λ c. not (c == b':')) (slice_to 8 (slice_from 11 timestamp))
                ++ b'-' ∷ suffix))

-- `/^[a-f0-9]{8}$/`
abbrev pub is_suffix : Text → Bool
is_suffix suffix =
    length suffix == 8 && all (λ c. leb b'0' c && leb c b'9' || leb b'a' c && leb c b'f') suffix

unfoldable pub prepare_variation :
    Artifact → Option Text → Text → List ℕ → Result RepositoryError ArtifactMetadata
prepare_variation source title timestamp bytes =
    let new_title = variation_title source title in
    let base = text_or (slugify new_title) (slugify (source.metadata.id ++ codes " variation")) in
    let suffix = random_token bytes in
    if not (is_truthy base)
    then err write_validation
    else if not (is_suffix suffix)
    then err write_validation
    else ok (record {
      id = variation_id base timestamp suffix;
      title = new_title;
      description = source.metadata.description;
      type = source.metadata.type;
      tags = unique (source.metadata.tags ++ codes "variation" ∷ []);
      aliases = source.metadata.aliases;
      source_id = some source.metadata.id;
      created_at = some timestamp;
    })
