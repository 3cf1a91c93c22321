-- ===== src/Library/DefinitionId/Examples.antt =====
-- The ids of lib/definition-id.ts at concrete names.
use artifact_dev_toolkit.Common.{◌≤◌, ◌≡◌, refl, true, false, List, [], ◌∷◌, ◌++◌, length, ◌⊎◌}
use artifact_dev_toolkit.Common.Text.{Text, codes, trim, drop_while, is_space, to_lower_case, lower}
use artifact_dev_toolkit.Library.Layout.{is_slug, is_slug_char}
use artifact_dev_toolkit.Library.Variation.{slice_to, words_from}
use artifact_dev_toolkit.Library.DefinitionId.{
  without_last_hyphens, definition_id_from_name, definition_id_max_length, DefinitionIdDraft,
  DefinitionIdDraftAction, set_name, set_id, run_actions, definition_id_from_name-is_slug,
  run_actions-last_id,
}

-- A name of 79 letters and a second word, which the cut leaves with a hyphen at its end.
abbrev long_word : Text
long_word = codes "aaaaaaaaaaaaaaaaaaaaaaaaaaaaaaaaaaaaaaaaaaaaaaaaaaaaaaaaaaaaaaaaaaaaaaaaaaaaaaa"

cut_name : definition_id_from_name (codes " " ++ long_word ++ codes " b") ≡ long_word
unfolding definition_id_from_name without_last_hyphens slice_to words_from is_slug_char
    to_lower_case lower trim drop_while is_space
cut_name = refl

definition_id_from_name-is_slug_example :
    (length (definition_id_from_name long_word) ≤ definition_id_max_length)
    × ((definition_id_from_name long_word ≡ [])
        ⊎ (is_slug (definition_id_from_name long_word) ≡ true))
definition_id_from_name-is_slug_example = definition_id_from_name-is_slug long_word

abbrev empty_draft : DefinitionIdDraft
empty_draft = record { name = []; id = []; id_overridden = false }

abbrev edits : List DefinitionIdDraftAction
edits = set_name (codes "One") ∷ set_id (codes "two") ∷ set_name (codes "Three") ∷ []

run_actions-last_id_example :
    (run_actions empty_draft (set_id (codes "mine") ∷ edits)).id ≡ codes "two"
run_actions-last_id_example = run_actions-last_id empty_draft (codes "mine") edits
