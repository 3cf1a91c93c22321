-- ===== src/Runner/Restore/SetAside.antt =====
-- Lemmas on the part of `restore` (codex-runner/src/sqlite-storage.ts) that sets the databases aside.
use artifact_dev_toolkit.Common.{
  ◌≡◌, refl, ap, ◌∙◌, true, false, none, some, List, [], ◌∷◌, arith, Bool-cases, Option-cases, ◌⊎◌,
  inl, inr,
}
use artifact_dev_toolkit.Common.Text.{
  Text, codes, text_eq, text_eq_iff, to_lower_case, ends_with, starts_with,
}
use artifact_dev_toolkit.Runner.Files.{
  Files, lookup, is_database_file, is_database_filename, before_ending, is_stem,
}
use artifact_dev_toolkit.Runner.Files.Laws.{lookup-put}
use artifact_dev_toolkit.Runner.Storage.{
  Setup, Storage, restore, files_of, ◌>>=◌, move_out, spend, operate, fails_next, safe,
  restore_failed_rolled_back, throw, remove_safety, try_catch,
}
use artifact_dev_toolkit.Runner.Storage.Triples.{
  Ensures, Judge-weaken, >>=-chain_with, branch-Judge, caught-Judge,
}
use artifact_dev_toolkit.Runner.Storage.Operations.{
  MovedOut, Unmoved, move_out-Ensures, remove_safety-Ensures,
}
use artifact_dev_toolkit.Runner.Restore.{
  write_marker, require_recovery, recovery_marker, put_marker, move_all_back, undo_moves,
  move_failed, move_current, forget_safety,
}
use artifact_dev_toolkit.Runner.Restore.Moves.{
  Alike, Balanced, Among, Waiting, move_all_back-Ensures, Balanced-MovedOut, Among-MovedOut,
  Waiting-MovedOut,
}

is_database_file-marker : is_database_file recovery_marker ≡ false
unfolding is_database_file is_database_filename before_ending is_stem to_lower_case text_eq
    ends_with starts_with
is_database_file-marker = refl

module _ (original : Files) where
  -- These files have every database as it was.
  abbrev pub Holds : Files → Type 0
  Holds files =
      (key : Text) (content : Text)
      → is_database_file key ≡ true
      → lookup key original ≡ some content
      → lookup key files ≡ some content

  abbrev pub KeptIn : Files → Files → Type 0
  KeptIn home safety =
      (key : Text) (content : Text)
      → is_database_file key ≡ true
      → lookup key original ≡ some content
      → (lookup key home ≡ some content) ⊎ (lookup key safety ≡ some content)

  -- Every database as it was is at home or in the safety directory.
  abbrev pub Kept : Storage → Type 0
  Kept s = KeptIn s.home (files_of s.safety)

  abbrev pub Recovering : Storage → Type 0
  Recovering s = (s.recovery_required ≡ true) × (s.operation ≡ restore) × Kept s

  KeptIn-put_marker : (home safety : Files) → KeptIn home safety → KeptIn home (put_marker safety)
  KeptIn-put_marker home safety kept key content named there = ground (
    arith,
    kept key content named there,
    text_eq_iff recovery_marker key,
    is_database_file-marker,
    lookup-put recovery_marker (codes "restore rollback incomplete\n") key safety,
  )

  pub require_recovery-Ensures :
      {A : Type 0} (s : Storage) (Q : A → Storage → Type 0)
      → Kept s
      → Ensures
          (require_recovery {A = A})
          s
          Q
          (λ e t. Recovering t × (t.moved_current ≡ s.moved_current))
  unfolding require_recovery write_marker operate
  require_recovery-Ensures s Q kept = elim (Bool-cases (fails_next s.outages)) [
    | inl e ↦ rw (e, require_recovery) ((refl, refl, kept), refl)
    | inr e ↦
        rw (e, require_recovery)
          ((refl, refl, KeptIn-put_marker s.home (files_of s.safety) kept), refl)
  ]

  -- What an error leaves before the databases are set aside.
  abbrev pub Intact : Storage → Type 0
  Intact s = (s.moved_current ≡ false) × (Holds s.home ⊎ Recovering s)

  Balanced-Kept : (s : Storage) → Balanced original s → Kept s
  Balanced-Kept s balanced key content named there = ground (arith, balanced key)

  Balanced-Holds :
      (s : Storage)
      → Balanced original s
      → ((key : Text) → lookup key (files_of s.safety) ≡ none)
      → Holds s.home
  Balanced-Holds s balanced empty key content named there = ground (arith, balanced key, empty key)

  Holds-Kept : (home safety : Files) → Holds home → KeptIn home safety
  Holds-Kept home safety holds key content named there = inl (holds key content named there)

  module _ (setup : Setup) where
    undo_moves-Ensures :
        (moved : List Text) (s : Storage)
        → Balanced original s
        → Among original moved s
        → Ensures
            (undo_moves setup moved)
            s
            (λ done t. Holds t.home × Alike s t)
            (λ e t. Kept t × Alike s t)
    unfolding undo_moves
    undo_moves-Ensures moved s balanced among =
        >>=-chain_with (move_all_back moved)
          (λ back. remove_safety setup >>= λ removed. forget_safety) s _
          (λ e t. Balanced original t × Alike s t) _ _
          (move_all_back-Ensures original moved s balanced among)
          (λ e t (b, same). (Balanced-Kept t b, same))
          (λ done t (b, same, empty).
            >>=-chain_with (remove_safety setup) (λ removed. forget_safety) t _ _ _ _
              (remove_safety-Ensures setup t)
              (λ e u left. rw left (Holds-Kept t.home _ (Balanced-Holds t b empty), same))
              (λ done' u cleared. rw cleared (Balanced-Holds t b empty, same)))

    move_failed-Ensures :
        {A : Type 0} (moved : List Text) (s : Storage) (Q : A → Storage → Type 0)
        → Balanced original s
        → Among original moved s
        → s.moved_current ≡ false
        → Ensures (move_failed setup {A = A} moved) s Q (λ e t. Intact t)
    unfolding move_failed
    move_failed-Ensures {A} moved s Q balanced among unmoved =
        >>=-chain_with (try_catch (undo_moves setup moved) (λ e. require_recovery))
          (λ undone. throw {A = A} (safe restore_failed_rolled_back 503)) s
          (λ done t. Holds t.home × Alike s t) (λ e t. Intact t) Q (λ e t. Intact t)
          (caught-Judge (undo_moves setup moved s) (λ e. require_recovery) _ _
            (Judge-weaken (undo_moves setup moved s) _ _ _ _ (λ done t held. held)
              (λ e t (kept, same).
                Judge-weaken (require_recovery t) _ _ _ _ (λ done' u held. held)
                  (λ e' u (recovering, alike). (alike ∙ (same.1 ∙ unmoved), inr recovering))
                  (require_recovery-Ensures t _ kept))
              (undo_moves-Ensures moved s balanced among)))
          (λ e t intact. intact) (λ done t (holds, same). (same.1 ∙ unmoved, inl holds))

    -- The safety directory has every database as it was.
    abbrev pub Secured : Storage → Type 0
    Secured s = (safety : Files) × (s.safety ≡ some safety) × Holds safety

    Waiting-none :
        (s : Storage) (safety : Files)
        → s.safety ≡ some safety
        → Balanced original s
        → Waiting original [] s
        → Holds safety
    Waiting-none s safety is balanced waiting key content named there =
        elim (Option-cases (lookup key s.home)) [
          | inl e ↦ ground (arith, balanced key)
          | inr (found, e) ↦ absurd (ground (arith, waiting key found named e))
        ]

    pub move_current-Ensures :
        (moved rest : List Text) (s : Storage) (safety : Files)
        → s.safety ≡ some safety
        → Balanced original s
        → Among original moved s
        → Waiting original rest s
        → s.moved_current ≡ false
        → Ensures (move_current setup moved rest) s (λ done t. Secured t) (λ e t. Intact t)
    unfolding move_current
    move_current-Ensures moved [] s safety is balanced among waiting unmoved =
        (safety, is, Waiting-none s safety is balanced waiting)
    move_current-Ensures moved (name ∷ rest) s safety is balanced among waiting unmoved =
        branch-Judge (move_out name s) (λ e. move_failed setup moved)
          (λ done. move_current setup (name ∷ moved) rest) (MovedOut name s) (Unmoved name s) _ _
          (move_out-Ensures name s)
          (λ e t same.
            rw same
              (move_failed-Ensures moved (spend s) (λ done t. Secured t) balanced among unmoved))
          (λ done t out.
            move_current-Ensures (name ∷ moved) rest t _ (ap (λ (u : Storage). u.safety) out.2)
              (Balanced-MovedOut original name s t balanced out)
              (Among-MovedOut original name s t moved among out)
              (Waiting-MovedOut original name s t rest waiting out)
              (ap (λ (u : Storage). u.moved_current) out.2 ∙ unmoved))
