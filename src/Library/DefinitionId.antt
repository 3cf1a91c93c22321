-- ===== src/Library/DefinitionId.antt =====
-- lib/definition-id.ts: the id of a workflow definition, made of its name, and the draft that an editor
-- keeps of both.
mod Examples
use artifact_dev_toolkit.Common.{
  ℕ, zero, suc, ◌≤◌, ◌≡◌, refl, ap, ◌∙◌, not, ◌||◌, Bool-cases, Bool, true, false, List, [], ◌∷◌,
  length, ◌&&◌, ◌==◌, if◌then◌else◌, arith, ◌⊎◌, inl, inr,
}
use artifact_dev_toolkit.Common.Text.{Text, trim, to_lower_case}
use artifact_dev_toolkit.Library.Layout.{is_slug, is_slug_from, is_slug_char}
use artifact_dev_toolkit.Library.Variation.{slice_to, words_from}
use artifact_dev_toolkit.Library.Variation.Ids.{words_from-is_slug, slice_to-le}

abbrev pub definition_id_max_length : ℕ
definition_id_max_length = 80

abbrev is_end : Text → Bool
is_end [] = true
is_end (c ∷ s) = false

-- `s.replace(/-+$/g, "")`
unfoldable pub without_last_hyphens : Text → Text
without_last_hyphens [] = []
without_last_hyphens (c ∷ s) =
    let rest = without_last_hyphens s in if c == b'-' && is_end rest then [] else c ∷ rest

-- Runs of other units become one hyphen, which is left out at both ends, as in `slugify`; then the cut,
-- and the hyphens that it leaves at the end.
unfoldable pub definition_id_from_name : Text → Text
definition_id_from_name name =
    without_last_hyphens
      (slice_to definition_id_max_length (words_from false false (to_lower_case (trim name))))

pub record DefinitionIdDraft : Type 0 where
  pub name : Text
  pub id : Text
  pub id_overridden : Bool

pub data DefinitionIdDraftAction : Type 0 where
  set_name : Text → DefinitionIdDraftAction
  set_id : Text → DefinitionIdDraftAction

unfoldable pub definition_id_draft_reducer :
    DefinitionIdDraft → DefinitionIdDraftAction → DefinitionIdDraft
definition_id_draft_reducer state (set_id value) = record state { id = value; id_overridden = true }
definition_id_draft_reducer state (set_name value) = record state {
  name = value;
  id = if state.id_overridden then state.id else definition_id_from_name value;
}

without_last_hyphens-le : (s : Text) → length (without_last_hyphens s) ≤ length s
unfolding without_last_hyphens
without_last_hyphens-le [] = omega arith
without_last_hyphens-le (c ∷ s) = ground (arith, without_last_hyphens-le s)

cons-is_slug :
    (fresh : Bool) (c : ℕ) (rest : Text)
    → (is_slug_char c || c == b'-' && not fresh) ≡ true
    → (rest ≡ []) ⊎ (is_slug_from (not (is_slug_char c)) rest ≡ true)
    → ((if c == b'-' && is_end rest then [] else c ∷ rest) ≡ [])
      ⊎ (is_slug_from fresh (if c == b'-' && is_end rest then [] else c ∷ rest) ≡ true)
unfolding is_slug_from is_slug_char
cons-is_slug fresh c [] first h = elim (Bool-cases (c == b'-')) [
  | inl e ↦ inl (ground arith)
  | inr e ↦ inr (ground arith)
]
cons-is_slug fresh c (d ∷ rest) first (inl h) = absurd (cc)
cons-is_slug fresh c (d ∷ rest) first (inr h) = inr (ground (arith, h))

-- What a cut of words leaves without its last hyphens.
cut-is_slug :
    (fresh : Bool) (n : ℕ) (s : Text)
    → is_slug_from fresh s ≡ true
    → (without_last_hyphens (slice_to n s) ≡ [])
      ⊎ (is_slug_from fresh (without_last_hyphens (slice_to n s)) ≡ true)
unfolding without_last_hyphens slice_to is_slug_from is_slug_char
cut-is_slug fresh zero s h = inl refl
cut-is_slug fresh (suc n) [] h = inl refl
cut-is_slug fresh (suc n) (c ∷ s) h =
    cons-is_slug fresh c (without_last_hyphens (slice_to n s)) (ground arith)
      (cut-is_slug (not (is_slug_char c)) n s (ground arith))

-- The id made of a name has at most 80 units, and it is empty or a slug.
pub definition_id_from_name-is_slug :
    (name : Text)
    → (length (definition_id_from_name name) ≤ definition_id_max_length)
      × ((definition_id_from_name name ≡ []) ⊎ (is_slug (definition_id_from_name name) ≡ true))
unfolding definition_id_from_name is_slug without_last_hyphens slice_to
definition_id_from_name-is_slug name =
    let words = words_from false false (to_lower_case (trim name)) in
    (
      omega (arith, without_last_hyphens-le (slice_to 80 words), slice_to-le 80 words),
      elim (words_from-is_slug false (to_lower_case (trim name))).1 [
        | inl none_left ↦ inl (ap (λ s. without_last_hyphens (slice_to 80 s)) none_left)
        | inr slug ↦ cut-is_slug true 80 words slug
      ],
    )

-- All the actions, one after another.
abbrev pub run_actions : DefinitionIdDraft → List DefinitionIdDraftAction → DefinitionIdDraft
run_actions state [] = state
run_actions state (action ∷ actions) =
    run_actions (definition_id_draft_reducer state action) actions

abbrev pub last_id : Text → List DefinitionIdDraftAction → Text
last_id id [] = id
last_id id (set_id value ∷ actions) = last_id value actions
last_id id (set_name value ∷ actions) = last_id id actions

run_actions-overridden :
    (actions : List DefinitionIdDraftAction) (state : DefinitionIdDraft)
    → state.id_overridden ≡ true
    → (run_actions state actions).id ≡ last_id state.id actions
unfolding definition_id_draft_reducer
run_actions-overridden [] state h = refl
run_actions-overridden (set_id value ∷ actions) state h = run_actions-overridden actions _ refl
run_actions-overridden (set_name value ∷ actions) state h =
    run_actions-overridden actions _ h ∙ ap (λ id. last_id id actions) (ground arith)

-- From an id that was set, whatever actions follow, the id is the one that was set last: changes of
-- the name leave it.
pub run_actions-last_id :
    (state : DefinitionIdDraft) (id : Text) (actions : List DefinitionIdDraftAction)
    → (run_actions state (set_id id ∷ actions)).id ≡ last_id id actions
unfolding definition_id_draft_reducer
run_actions-last_id state id actions = run_actions-overridden actions _ refl
