-- ===== src/Runner/Files/Laws.antt =====
-- Lemmas on lookups in the directories of codex-runner/src/sqlite-storage.ts.
use artifact_dev_toolkit.Common.{◌≡◌, none, some, [], ◌∷◌, arith, if◌then◌else◌}
use artifact_dev_toolkit.Common.Text.{Text, text_eq, text_eq_iff}
use artifact_dev_toolkit.Runner.Files.{Files, lookup, remove, put}

pub lookup-remove :
    (name key : Text) (files : Files)
    → lookup key (remove name files) ≡ (if text_eq name key then none else lookup key files)
unfolding lookup remove
lookup-remove name key [] = ground arith
lookup-remove name key ((other, content) ∷ files) = ground (
  arith,
  text_eq_iff name key,
  text_eq_iff other key,
  text_eq_iff other name,
  lookup-remove name key files,
)

pub lookup-put :
    (name content key : Text) (files : Files)
    → lookup key (put name content files)
      ≡ (if text_eq name key then some content else lookup key files)
unfolding lookup
lookup-put name content key files = ground (arith, lookup-remove name key files)
