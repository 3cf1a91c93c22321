-- ===== src/Runner/Files.antt =====
-- Directories as codex-runner/src/sqlite-storage.ts uses them: files by their names, and the names of
-- databases and of backups.
pub mod Laws
use artifact_dev_toolkit.Common.{
  ℕ, Bool, true, false, not, ◌&&◌, ◌||◌, Option, none, some, List, [], ◌∷◌, ◌++◌, length, all,
  filter, leb, ltb, ◌==◌, if◌then◌else◌, is_some, map,
}
use artifact_dev_toolkit.Common.Text.{Text, codes, text_eq, is_truthy, ends_with, to_lower_case}

-- The files of a directory, each with what it holds.
abbrev pub Files : Type 0
Files = List (Text × Text)

unfoldable pub lookup : Text → Files → Option Text
lookup name [] = none
lookup name ((other, content) ∷ files) =
    let rest = lookup name files in if text_eq other name then some content else rest

unfoldable pub remove : Text → Files → Files
remove name [] = []
remove name ((other, content) ∷ files) =
    let rest = remove name files in if text_eq other name then rest else (other, content) ∷ rest

-- A file is made, or takes the place of one.
abbrev pub put : Text → Text → Files → Files
put name content files = (name, content) ∷ remove name files

abbrev pub names : Files → List Text
names files = map (λ file. file.0) files

abbrev pub is_digit : ℕ → Bool
is_digit c = leb b'0' c && leb c b'9'

abbrev pub is_lower : ℕ → Bool
is_lower c = leb b'a' c && leb c b'z'

abbrev pub is_hex : ℕ → Bool
is_hex c = is_digit c || leb b'a' c && leb c b'f'

abbrev pub is_unit : ℕ → ℕ → Bool
is_unit expected c = c == expected

-- A text of as many units as there are tests, each passing its own.
unfoldable pub matches : List (ℕ → Bool) → Text → Bool
matches [] [] = true
matches (test ∷ tests) (c ∷ s) = test c && matches tests s
matches _ _ = false

unfoldable pub repeat : ℕ → (ℕ → Bool) → List (ℕ → Bool) → List (ℕ → Bool)
repeat ℕ.zero test rest = rest
repeat (ℕ.suc n) test rest = test ∷ repeat n test rest

-- `/^b-[0-9]{8}T[0-9]{6}Z-[a-f0-9]{12}$/`
unfoldable pub is_backup_id : Text → Bool
is_backup_id id =
    matches
      (is_unit b'b'
        ∷ is_unit b'-'
        ∷ repeat 8 is_digit
            (is_unit b'T' ∷ repeat 6 is_digit (is_unit b'Z' ∷ is_unit b'-' ∷ repeat 12 is_hex [])))
      id

-- What stands before the ending, in lower case: `[A-Za-z0-9][A-Za-z0-9._-]{0,127}`.
unfoldable pub is_stem : Text → Bool
is_stem [] = false
is_stem (c ∷ s) =
    (is_lower c || is_digit c)
    && leb (length s) 127
    && all (λ u. is_lower u || is_digit u || u == b'.' || u == b'_' || u == b'-') s

-- The text before an ending.
unfoldable pub before_ending : Text → Text → Option Text
before_ending ending [] = none
before_ending ending (c ∷ s) =
    let rest = before_ending ending s in
    if text_eq (c ∷ s) ending
    then some []
    else elim rest [ none ↦ none | some stem ↦ some (c ∷ stem) ]

abbrev pub is_stem_of : Option Text → Bool
is_stem_of none = false
is_stem_of (some stem) = is_stem stem

-- `/^[A-Za-z0-9][A-Za-z0-9._-]{0,127}\.(?:sqlite|db)$/i`
unfoldable pub is_database_filename : Text → Bool
is_database_filename name =
    let lower = to_lower_case name in
    is_stem_of (before_ending (codes ".sqlite") lower)
    || is_stem_of (before_ending (codes ".db") lower)

-- The files that belong to databases: `DATABASE_FILENAME.test(name) || name.endsWith("-wal") || ...`.
unfoldable pub is_database_file : Text → Bool
is_database_file name =
    is_database_filename name || ends_with name (codes "-wal") || ends_with name (codes "-shm")
