-- ===== src/Library/Variation/Ids.antt =====
-- Lemmas on the ids of variations: lib/artifact-id.ts and `prepareVariation` of
-- lib/artifact-repository.ts.
use artifact_dev_toolkit.Common.{
  ℕ, zero, suc, ◌≤◌, ◌<◌, ◌≡◌, refl, ap, Bool, true, false, not, none, [], ◌∷◌, ◌++◌, length,
  filter, is_some, arith, ◌==◌, ◌⊎◌, inl, All, subst, ◌∙◌,
}
use artifact_dev_toolkit.Common.Text.{Text, codes, lower, to_lower_case}
use artifact_dev_toolkit.Library.Layout.{
  ArtifactType, canonical_artifact_write_path, is_slug, is_slug_from, is_slug_char,
}
use artifact_dev_toolkit.Library.Variation.{slice_to, slice_from, words_from, slugify, variation_id}

-- What the units of a text with words are, after the first word began or before it.
pub words_from-is_slug :
    (gap : Bool) (s : Text)
    → (is_slug_from false (words_from true gap s) ≡ true)
      × ((words_from false gap s ≡ []) ⊎ (is_slug_from true (words_from false gap s) ≡ true))
unfolding words_from is_slug_from
words_from-is_slug gap [] = (refl, inl refl)
words_from-is_slug gap (c ∷ s) =
    ground (arith, words_from-is_slug false s, words_from-is_slug true s)

slice_to-full : (n : ℕ) (s : Text) → length (slice_to n s) < n → slice_to n s ≡ s
unfolding slice_to
slice_to-full zero s h = absurd (omega arith)
slice_to-full (suc n) [] h = refl
slice_to-full (suc n) (c ∷ s) h = ground (arith, slice_to-full n s)

pub slice_to-le : (n : ℕ) (s : Text) → length (slice_to n s) ≤ n
unfolding slice_to
slice_to-le zero s = omega arith
slice_to-le (suc n) [] = omega arith
slice_to-le (suc n) (c ∷ s) = omega (arith, slice_to-le n s)

-- A result of `slugify` has at most 80 units; one with fewer is empty or a slug, for every text.
pub slugify-is_slug :
    (value : Text)
    → (length (slugify value) ≤ 80)
      × (length (slugify value) < 80 → (slugify value ≡ []) ⊎ (is_slug (slugify value) ≡ true))
unfolding slugify is_slug
slugify-is_slug value =
    let words = words_from false false (to_lower_case value) in
    (
      slice_to-le 80 words,
      λ short.
          let full = slice_to-full 80 words short in
          ground (arith, full, words_from-is_slug false (to_lower_case value)),
    )

double_from : (fresh : Bool) (s rest : Text) → is_slug_from fresh (s ++ b'-' ∷ b'-' ∷ rest) ≡ false
unfolding is_slug_from is_slug_char
double_from fresh [] rest = ground arith
double_from fresh (c ∷ s) rest = ground (arith, double_from true s rest, double_from false s rest)

is_slug-join :
    (fresh : Bool) (a b : Text)
    → is_slug_from fresh a ≡ true
    → is_slug_from true b ≡ true
    → is_slug_from fresh (a ++ b'-' ∷ b) ≡ true
unfolding is_slug_from is_slug_char
is_slug-join fresh [] b h k = ground arith
is_slug-join fresh (c ∷ a) b h k = ground (arith, is_slug-join true a b, is_slug-join false a b)

-- The time of an ISO text without its colons
abbrev pub compact_time : Text → Text
compact_time timestamp = filter (λ c. not (c == b':')) (slice_to 8 (slice_from 11 timestamp))

-- The id of a variation has a path to be written to if its base, the date, the time and the suffix
-- are slugs.
pub variation_id-write_path :
    (type : ArtifactType) (base timestamp suffix : Text)
    → is_slug base ≡ true
    → is_slug (slice_to 10 timestamp) ≡ true
    → is_slug (compact_time timestamp) ≡ true
    → is_slug suffix ≡ true
    → is_some (canonical_artifact_write_path type (variation_id base timestamp suffix)) ≡ true
unfolding canonical_artifact_write_path variation_id is_slug
variation_id-write_path type base timestamp suffix b d t s =
    let tail = is_slug-join true (compact_time timestamp) suffix t s in
    let rest = is_slug-join true (slice_to 10 timestamp) _ d tail in
    rw (is_slug-join true base _ b rest)

append_hyphen : (s rest : Text) → (s ++ b'-' ∷ []) ++ b'-' ∷ rest ≡ s ++ b'-' ∷ b'-' ∷ rest
append_hyphen [] rest = refl
append_hyphen (c ∷ s) rest = ap (λ t. c ∷ t) (append_hyphen s rest)

pub variation_id-no_path :
    (type : ArtifactType) (s timestamp suffix : Text)
    → canonical_artifact_write_path type (variation_id (s ++ b'-' ∷ []) timestamp suffix) ≡ none
unfolding canonical_artifact_write_path variation_id is_slug
variation_id-no_path type s timestamp suffix = rw (append_hyphen s _, double_from true s _)

abbrev pub AllSlugChars : Text → Type 0
AllSlugChars = All (λ c. is_slug_char c ≡ true)

words_from-started :
    (w rest : Text)
    → AllSlugChars w
    → words_from true false (to_lower_case (w ++ rest))
      ≡ w ++ words_from true false (to_lower_case rest)
unfolding words_from is_slug_char to_lower_case lower
words_from-started [] rest h = refl
words_from-started (c ∷ w) rest (first, others) = ground (arith, words_from-started w rest others)

words_from-fresh :
    (c : ℕ) (w rest : Text)
    → AllSlugChars (c ∷ w)
    → words_from false false (to_lower_case (c ∷ (w ++ rest)))
      ≡ c ∷ (w ++ words_from true false (to_lower_case rest))
unfolding words_from is_slug_char to_lower_case lower
words_from-fresh c w rest (first, others) = ground (arith, words_from-started w rest others)

slice_to-append :
    (w : Text) (c : ℕ) (rest : Text) → slice_to (suc (length w)) (w ++ c ∷ rest) ≡ w ++ c ∷ []
unfolding slice_to
slice_to-append [] c rest = refl
slice_to-append (d ∷ w) c rest = ap (λ t. d ∷ t) (slice_to-append w c rest)

-- Of a title of 79 letters and digits and a second word, the cut leaves the hyphen between the two.
pub slugify-cut :
    (w : Text) → length w ≡ 79 → AllSlugChars w → slugify (w ++ codes " Variation") ≡ w ++ b'-' ∷ []
unfolding slugify words_from to_lower_case lower is_slug_char
slugify-cut [] full h = absurd (omega (arith, full))
slugify-cut (c ∷ w) full h =
    let words = words_from-fresh c w (codes " Variation") h in
    let cut : slice_to 80 (c ∷ (w ++ b'-' ∷ codes "variation")) ≡ c ∷ (w ++ b'-' ∷ []) =
      subst (λ n. slice_to (suc n) (c ∷ (w ++ b'-' ∷ codes "variation")) ≡ c ∷ (w ++ b'-' ∷ []))
        full (slice_to-append (c ∷ w) b'-' (codes "variation")) in
    ap (slice_to 80) words ∙ cut
