-- ===== src/Library/Search.antt =====
-- lib/search.ts.
use artifact_dev_toolkit.Common.{Bool, ◌||◌, List, [], ◌∷◌, ◌++◌, all, filter, if◌then◌else◌}
use artifact_dev_toolkit.Common.Text.{
  Text, codes, is_truthy, is_space, trim, to_lower_case, starts_with,
}
use artifact_dev_toolkit.Library.Layout.{ArtifactType, prompt, snippet, template, app_idea}
use artifact_dev_toolkit.Library.Contract.{Artifact}

-- `s.includes(part)`
unfoldable pub has_part : Text → Text → Bool
has_part [] part = starts_with [] part
has_part (c ∷ s) part = starts_with (c ∷ s) part || has_part s part

-- The words of a text between white space; `word` is the one that is read, its last unit first.
abbrev pub close_word : Text → List Text → List Text
close_word [] words = words
close_word (c ∷ word) words = (c ∷ word) ∷ words

unfoldable pub words_of : Text → Text → List Text
words_of word [] = close_word word []
words_of word (c ∷ s) =
    let closed = close_word word (words_of [] s) in
    let longer = words_of (word ++ c ∷ []) s in if is_space c then closed else longer

-- `values.join(" ")`
unfoldable pub join_words : List Text → Text
join_words [] = []
join_words (word ∷ []) = word
join_words (word ∷ other ∷ words) = word ++ b' ' ∷ join_words (other ∷ words)

abbrev pub type_text : ArtifactType → Text
type_text prompt = codes "prompt"
type_text snippet = codes "snippet"
type_text template = codes "template"
type_text app_idea = codes "app-idea"

unfoldable pub haystack : Artifact → Text
haystack artifact = to_lower_case (
    join_words (
      artifact.metadata.title
      ∷ artifact.metadata.description
      ∷ type_text artifact.metadata.type
      ∷ join_words artifact.metadata.tags
      ∷ join_words artifact.metadata.aliases
      ∷ artifact.body
      ∷ []))

abbrev pub has_terms : List Text → Artifact → Bool
has_terms terms artifact = all (has_part (haystack artifact)) terms

unfoldable pub search_artifacts : List Artifact → Text → List Artifact
search_artifacts artifacts query =
    let normalized = to_lower_case (trim query) in
    if is_truthy normalized
    then filter (has_terms (words_of [] normalized)) artifacts
    else artifacts
