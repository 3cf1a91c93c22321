-- ===== src/Library/Repository/Refusals.antt =====
-- Variations refused by `createVariation` of lib/artifact-repository.ts for their own id.
use artifact_dev_toolkit.Common.{
  ℕ, ◌≡◌, refl, sym, subst, true, Option, none, List, [], ◌∷◌, ◌++◌, length, arith, all, Bool-cases,
  inl, inr, ok, err, Result-cases,
}
use artifact_dev_toolkit.Common.Text.{Text, is_truthy, trim}
use artifact_dev_toolkit.Auth.Core.{random_token}
use artifact_dev_toolkit.Library.Layout.{is_slug_char, canonical_artifact_write_path}
use artifact_dev_toolkit.Library.Contract.{ArtifactMetadata, Artifact}
use artifact_dev_toolkit.Library.Requests.{RepositoryError, write_validation}
use artifact_dev_toolkit.Library.Branch.{Setup, State}
use artifact_dev_toolkit.Library.Variation.{
  slugify, variation_title, variation_id, is_suffix, prepare_variation,
}
use artifact_dev_toolkit.Library.Variation.Ids.{AllSlugChars, slugify-cut, variation_id-no_path}
use artifact_dev_toolkit.Library.Repository.{PreparedWrite, is_actor, prepare_artifact_write}
use artifact_dev_toolkit.Library.Repository.Variations.{
  VariationInput, checked_target, check_variation, create_variation,
}

prepare_variation-id :
    (source : Artifact) (title : Option Text) (timestamp base : Text) (bytes : List ℕ)
    (metadata : ArtifactMetadata)
    → slugify (variation_title source title) ≡ base
    → is_truthy base ≡ true
    → prepare_variation source title timestamp bytes ≡ ok metadata
    → metadata.id ≡ variation_id base timestamp (random_token bytes)
unfolding prepare_variation
prepare_variation-id source title timestamp base bytes metadata same given h =
    elim (Bool-cases (is_suffix (random_token bytes))) [
      | inr e ↦ absurd (ground arith)
      | inl e ↦ ground (arith, same, given, e)
    ]

cut_title :
    (source : Artifact)
    → length source.metadata.title ≡ 79
    → AllSlugChars source.metadata.title
    → slugify (variation_title source none) ≡ source.metadata.title ++ b'-' ∷ []
unfolding variation_title
cut_title source full plain = slugify-cut source.metadata.title full plain

is_truthy_hyphen : (s : Text) → is_truthy (s ++ b'-' ∷ []) ≡ true
is_truthy_hyphen [] = refl
is_truthy_hyphen (c ∷ s) = refl

all-AllSlugChars : (w : Text) → all is_slug_char w ≡ true → AllSlugChars w
all-AllSlugChars [] h = tt
all-AllSlugChars (c ∷ w) h = (ground arith, all-AllSlugChars w (ground arith))

module _ (setup : Setup) where
  checked_target-refused :
      (metadata : ArtifactMetadata) (prepared : PreparedWrite)
      → canonical_artifact_write_path metadata.type metadata.id ≡ none
      → checked_target setup metadata prepared ≡ err write_validation
  unfolding checked_target
  checked_target-refused metadata prepared no_path = ground (arith, no_path)

  check_variation-refused :
      (input : VariationInput)
      → ((metadata : ArtifactMetadata)
          → prepare_variation input.source input.title input.timestamp input.bytes ≡ ok metadata
          → canonical_artifact_write_path metadata.type metadata.id ≡ none)
      → (e : RepositoryError) × (check_variation setup input ≡ err e)
  unfolding check_variation
  check_variation-refused input no_path = elim (Bool-cases (is_actor input.actor_login)) [
    | inr unknown ↦ (write_validation, ground arith)
    | inl known ↦
        elim (Result-cases
          (prepare_variation input.source input.title input.timestamp input.bytes)) [
            | inl (e, failed) ↦ (e, ground arith)
            | inr (metadata, made) ↦
                elim (Result-cases (prepare_artifact_write setup metadata (trim input.body))) [
                  | inl (e, failed) ↦ (e, ground arith)
                  | inr (prepared, is) ↦ (
                    write_validation,
                    ground
                        (arith, checked_target-refused metadata prepared (no_path metadata made)),
                  )
                ]
          ]
  ]

  -- A variation without a title of its own, of an artifact whose title is 79 lower-case letters and
  -- digits, is always refused, and nothing is read or sent: the title `<title> Variation` is cut behind
  -- its hyphen, so that its id has two hyphens in a row and no path.
  pub create_variation-refused :
      (input : VariationInput) (s : State)
      → input.title ≡ none
      → length input.source.metadata.title ≡ 79
      → all is_slug_char input.source.metadata.title ≡ true
      → (e : RepositoryError) × (create_variation setup input s ≡ (err e, s))
  unfolding create_variation
  create_variation-refused input s untitled full plain =
      let title = input.source.metadata.title in
      let (e, refused) = check_variation-refused input (λ metadata made.
        let cut : slugify (variation_title input.source input.title) ≡ title ++ b'-' ∷ [] =
          subst (λ own. slugify (variation_title input.source own) ≡ title ++ b'-' ∷ [])
            (sym untitled) (cut_title input.source full (all-AllSlugChars title plain)) in
        let id =
          prepare_variation-id input.source input.title input.timestamp (title ++ b'-' ∷ [])
            input.bytes metadata cut (is_truthy_hyphen title) made in
        rw id
          (variation_id-no_path metadata.type title input.timestamp (random_token input.bytes))) in
      (e, ground (arith, refused))
