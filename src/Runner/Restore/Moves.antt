-- ===== src/Runner/Restore/Moves.antt =====
-- Moves of databases between the home and the safety directory, for `restore` of
-- codex-runner/src/sqlite-storage.ts.
use artifact_dev_toolkit.Common.{
  ◌≡◌, refl, true, none, some, List, [], ◌∷◌, any, arith, Option-cases, ◌⊎◌, inl, inr,
}
use artifact_dev_toolkit.Common.Text.{Text, text_eq, text_eq_iff}
use artifact_dev_toolkit.Runner.Files.{Files, lookup, is_database_file}
use artifact_dev_toolkit.Runner.Files.Laws.{lookup-remove, lookup-put}
use artifact_dev_toolkit.Runner.Storage.{Storage, files_of, move_back, spend}
use artifact_dev_toolkit.Runner.Storage.Triples.{Ensures, Judge-weaken, >>=-chain_with}
use artifact_dev_toolkit.Runner.Storage.Operations.{MovedOut, MovedBack, Unmoved, move_back-Ensures}
use artifact_dev_toolkit.Runner.Restore.{move_all_back}

-- The variables of the operation that the moves leave alone.
abbrev pub Alike : Storage → Storage → Type 0
Alike s t = (t.recovery_required ≡ s.recovery_required) × (t.moved_current ≡ s.moved_current)

Alike-MovedBack : (name : Text) (s t u : Storage) → MovedBack name s tt t → Alike t u → Alike s u
Alike-MovedBack name s t u (content, there, same) alike = ground (arith, same)

pub Alike-MovedOut : (name : Text) (s t u : Storage) → MovedOut name s tt t → Alike t u → Alike s u
Alike-MovedOut name s t u (content, there, same) alike = ground (arith, same)

module _ (original : Files) where
  abbrev pub Place : Text → Storage → Type 0
  Place key s =
      ((lookup key s.home ≡ lookup key original) × (lookup key (files_of s.safety) ≡ none))
      ⊎ ((lookup key s.home ≡ none) × (lookup key (files_of s.safety) ≡ lookup key original))

  -- Each file of the home as it was is at home or in the safety directory.
  abbrev pub Balanced : Storage → Type 0
  Balanced s = (key : Text) → Place key s

  -- The files that moved are among these.
  abbrev pub Among : List Text → Storage → Type 0
  Among moved s =
      (key : Text) (content : Text)
      → lookup key (files_of s.safety) ≡ some content
      → any (text_eq key) moved ≡ true

  -- The files of databases that did not move are among these.
  abbrev pub Waiting : List Text → Storage → Type 0
  Waiting rest s =
      (key : Text) (content : Text)
      → is_database_file key ≡ true
      → lookup key s.home ≡ some content
      → any (text_eq key) rest ≡ true

  module _ (name : Text) (s t : Storage) where
    pub Balanced-MovedOut : Balanced s → MovedOut name s tt t → Balanced t
    Balanced-MovedOut balanced (content, there, same) key = rw same (
        ground (
          arith,
          text_eq_iff name key,
          balanced key,
          lookup-remove name key s.home,
          lookup-put name content key (files_of s.safety),
        ))

    pub Balanced-MovedBack : Balanced s → MovedBack name s tt t → Balanced t
    Balanced-MovedBack balanced (content, there, same) key = rw same (
        ground (
          arith,
          text_eq_iff name key,
          balanced key,
          lookup-remove name key (files_of s.safety),
          lookup-put name content key s.home,
        ))

    pub Among-MovedOut :
        (moved : List Text) → Among moved s → MovedOut name s tt t → Among (name ∷ moved) t
    Among-MovedOut moved among (content, there, same) key found e = ground (
      arith,
      text_eq_iff name key,
      text_eq_iff key name,
      among key found,
      same,
      lookup-put name content key (files_of s.safety),
    )

    pub Among-MovedBack :
        (moved : List Text) → Among (name ∷ moved) s → MovedBack name s tt t → Among moved t
    Among-MovedBack moved among (content, there, same) key found e = ground (
      arith,
      text_eq_iff name key,
      text_eq_iff key name,
      among key found,
      same,
      lookup-remove name key (files_of s.safety),
    )

    pub Waiting-MovedOut :
        (rest : List Text) → Waiting (name ∷ rest) s → MovedOut name s tt t → Waiting rest t
    Waiting-MovedOut rest waiting (content, there, same) key found named e = ground (
      arith,
      text_eq_iff name key,
      text_eq_iff key name,
      waiting key found,
      same,
      lookup-remove name key s.home,
    )

  Balanced-Unmoved : (s t : Storage) → Balanced s → t ≡ spend s → Balanced t × Alike s t
  Balanced-Unmoved s t balanced same = rw same (balanced, (refl, refl))

  -- Where all files come back, the safety directory is empty again.
  pub move_all_back-Ensures :
      (moved : List Text) (s : Storage)
      → Balanced s
      → Among moved s
      → Ensures
          (move_all_back moved)
          s
          (λ done t.
            Balanced t × Alike s t × ((key : Text) → lookup key (files_of t.safety) ≡ none))
          (λ e t. Balanced t × Alike s t)
  unfolding move_all_back
  move_all_back-Ensures [] s balanced among = (
    balanced,
    (refl, refl),
    (λ key. elim (Option-cases (lookup key (files_of s.safety))) [
      | inl e ↦ e
      | inr (content, e) ↦ absurd (ground (arith, among key content e))
    ]),
  )
  move_all_back-Ensures (name ∷ moved) s balanced among =
      >>=-chain_with (move_back name) (λ done. move_all_back moved) s (MovedBack name s)
        (Unmoved name s) _ _ (move_back-Ensures name s)
        (λ e t same. Balanced-Unmoved s t balanced same)
        (λ done t back.
          Judge-weaken (move_all_back moved t) _ _ _ _
            (λ done' u (b, same, empty). (b, Alike-MovedBack name s t u back same, empty))
            (λ e u (b, same). (b, Alike-MovedBack name s t u back same))
            (move_all_back-Ensures moved t (Balanced-MovedBack name s t balanced back)
              (Among-MovedBack name s t moved among back)))
