-- ===== src/Library/Layout/Examples.antt =====
-- Runs of lib/repository-layout.ts, and its theorems at concrete paths.
use artifact_dev_toolkit.Common.{◌≡◌, refl, true, false, none, some, [], ◌∷◌, ◌⊎◌}
use artifact_dev_toolkit.Common.Text.{
  Text, codes, text_eq, starts_with, ends_with, split, replace_all, drop_while,
}
use artifact_dev_toolkit.Library.Layout.{
  prompt, snippet, app_idea, canonical, is_slug, is_slug_char, is_slug_from, is_safe_segment,
  normalize_path, safe_segments, in_library, classify_artifact_path, is_supported_artifact_path,
  is_artifact_markdown_candidate, canonical_artifact_write_path,
}
use artifact_dev_toolkit.Library.Layout.Targets.{canonical_artifact_write_path-supported}
use artifact_dev_toolkit.Library.Layout.Candidates.{is_supported_artifact_path-candidate}

layout : Unit {0}
unfolding is_slug is_slug_char is_slug_from is_safe_segment normalize_path safe_segments in_library
    classify_artifact_path is_supported_artifact_path is_artifact_markdown_candidate
    canonical_artifact_write_path text_eq starts_with ends_with split replace_all drop_while
layout = tt

abbrev review_path : Text
review_path = codes "prompts/code-review.md"

review_target : canonical_artifact_write_path prompt (codes "code-review") ≡ some review_path
unfolding layout
review_target = refl

rejected_ids :
    (canonical_artifact_write_path prompt (codes "Code") ≡ none)
    × (canonical_artifact_write_path snippet (codes "a--b") ≡ none)
    × (canonical_artifact_write_path snippet (codes "a-") ≡ none)
    × (canonical_artifact_write_path app_idea (codes "../x") ≡ none)
unfolding layout
rejected_ids = (refl, refl, refl, refl)

classified :
    (classify_artifact_path (codes "/prompts/a/b.md") ≡ some canonical)
    × (classify_artifact_path (codes "prompts/../b.md") ≡ none)
    × (classify_artifact_path (codes "prompts") ≡ none)
    × (classify_artifact_path (codes "docs/a.md") ≡ none)
    × (is_supported_artifact_path (codes "prompts\\a.md") ≡ true)
    × (is_artifact_markdown_candidate (codes "prompts/../a.md") ≡ true)
unfolding layout
classified = (refl, refl, refl, refl, refl, refl)

canonical_artifact_write_path-supported_example :
    ((is_slug (codes "code-review") ≡ true)
      × ((path : Text) × (canonical_artifact_write_path prompt (codes "code-review") ≡ some path)
          × (safe_segments path ≡ some (codes "prompts" ∷ codes "code-review.md" ∷ []))
          × (is_supported_artifact_path path ≡ true)))
    ⊎ ((is_slug (codes "code-review") ≡ false)
        × (canonical_artifact_write_path prompt (codes "code-review") ≡ none))
canonical_artifact_write_path-supported_example =
    canonical_artifact_write_path-supported prompt (codes "code-review")

review_supported : is_supported_artifact_path review_path ≡ true
unfolding layout
review_supported = refl

is_supported_artifact_path-candidate_example : is_artifact_markdown_candidate review_path ≡ true
is_supported_artifact_path-candidate_example =
    is_supported_artifact_path-candidate review_path review_supported
