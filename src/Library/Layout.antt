-- ===== src/Library/Layout.antt =====
-- lib/repository-layout.ts: the directories of the library, and the paths that name an artifact.
-- The root argument that every function takes and ignores is left out.
pub mod Paths
pub mod Targets
pub mod Candidates
mod Examples
use mathlib.Core.Option
use artifact_dev_toolkit.Common.{
  ℕ, Bool, true, false, not, ◌&&◌, ◌||◌, Option, none, some, List, [], ◌∷◌, ◌++◌, length, all, any,
  ltb, leb, ◌==◌, if◌then◌else◌, is_some,
}
use artifact_dev_toolkit.Common.Text.{
  Text, codes, text_eq, is_truthy, starts_with, ends_with, split, replace_all, drop_while,
}

pub data ArtifactType : Type 0 where
  prompt snippet template app_idea : ArtifactType

abbrev pub artifact_directories : List Text
artifact_directories =
    codes "prompts" ∷ codes "snippets" ∷ codes "templates" ∷ codes "app-ideas" ∷ []

-- `value.replace(/\\/g, "/").replace(/^\/+/, "")`
unfoldable pub normalize_path : Text → Text
normalize_path value = drop_while (λ c. c == b'/') (replace_all 92 b'/' value)

unfoldable pub is_safe_segment : Text → Bool
is_safe_segment segment =
    is_truthy segment && not (text_eq segment (codes ".")) && not (text_eq segment (codes ".."))

unfoldable pub safe_segments : Text → Option (List Text)
safe_segments value =
    let segments = split b'/' (normalize_path value) in
    if ltb 1 (length segments) && all is_safe_segment segments then some segments else none

-- `ARTIFACT_DIRECTORIES.includes(segments[0])`
unfoldable pub in_library : List Text → Bool
in_library [] = false
in_library (top ∷ rest) = any (text_eq top) artifact_directories

pub data Layout : Type 0 where
  canonical : Layout

unfoldable pub classify_artifact_path : Text → Option Layout
classify_artifact_path path = elim (safe_segments path) [
  | none ↦ none
  | some segments ↦ if in_library segments then some canonical else none
]

unfoldable pub is_supported_artifact_path : Text → Bool
is_supported_artifact_path path =
    is_some (classify_artifact_path path) && ends_with (replace_all 92 b'/' path) (codes ".md")

abbrev pub directory_of : ArtifactType → Text
directory_of prompt = codes "prompts"
directory_of snippet = codes "snippets"
directory_of template = codes "templates"
directory_of app_idea = codes "app-ideas"

unfoldable pub is_slug_char : ℕ → Bool
is_slug_char c = leb b'a' c && leb c b'z' || leb b'0' c && leb c b'9'

-- `fresh` at the start of a word, where a letter or a digit must follow
unfoldable pub is_slug_from : Bool → Text → Bool
is_slug_from fresh [] = not fresh
is_slug_from fresh (c ∷ s) =
    (is_slug_char c || c == b'-' && not fresh) && is_slug_from (not (is_slug_char c)) s

-- `/^[a-z0-9]+(?:-[a-z0-9]+)*$/.test(id)`
unfoldable pub is_slug : Text → Bool
is_slug id = is_slug_from true id

unfoldable pub canonical_artifact_write_path : ArtifactType → Text → Option Text
canonical_artifact_write_path type id =
    if is_slug id then some (directory_of type ++ b'/' ∷ (id ++ codes ".md")) else none

unfoldable pub is_supported_artifact_mutation_path : Text → Bool
is_supported_artifact_mutation_path path = is_supported_artifact_path path

unfoldable pub is_artifact_markdown_candidate : Text → Bool
is_artifact_markdown_candidate path =
    let normalized = normalize_path path in
    ends_with normalized (codes ".md")
    && any (λ directory. starts_with normalized (directory ++ b'/' ∷ [])) artifact_directories
