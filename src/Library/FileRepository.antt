-- ===== src/Library/FileRepository.antt =====
-- `FileArtifactRepository` of lib/artifact-repository.ts, the library in the working directory, with
-- `walkMarkdownFiles`. Its directories are trees; one that is not there counts as empty.
use artifact_dev_toolkit.Common.{
  ℕ, Bool, not, ◌||◌, Option, none, some, List, [], ◌∷◌, ◌++◌, any, find, if◌then◌else◌, Result, ok,
  err, ◌>>=◌,
}
use artifact_dev_toolkit.Common.Text.{Text, codes, text_eq, ends_with, trim}
use artifact_dev_toolkit.Common.Sorting.{sort_by}
use artifact_dev_toolkit.Library.Layout.{
  artifact_directories, canonical_artifact_write_path, is_supported_artifact_path,
}
use artifact_dev_toolkit.Library.Contract.{
  Artifact, ParseErrorCode, parse_artifact_markdown, validate_unique_artifact_ids,
}
use artifact_dev_toolkit.Library.Requests.{
  RepositoryError, write_validation, duplicate, bad_configuration,
}
use artifact_dev_toolkit.Library.Branch.{Setup, has_artifact_id}
use artifact_dev_toolkit.Library.Repository.{PreparedWrite, prepare_artifact_write}
use artifact_dev_toolkit.Library.Variation.{prepare_variation}

mutual
  pub data Node : Type 0 where
    file : Text → Text → Node
    directory : Text → Nodes → Node
    special : Text → Node

  -- The entries of a directory; one that cannot be read has none of them, and no file is missing.
  pub data Nodes : Type 0 where
    unreadable : Nodes
    empty : Nodes
    entry : Node → Nodes → Nodes

pub data FileError : Type 0 where
  not_read : FileError
  unsupported_path : FileError
  of_parser : ParseErrorCode → FileError
  duplicate_ids : FileError
  of_repository : RepositoryError → FileError

-- A path with its text.
abbrev pub Found : Type 0
Found = Text × Text

abbrev pub join : Text → Text → Text
join parent name = parent ++ b'/' ∷ name

unfoldable mutual
  pub walk_node : Text → Node → Result FileError (List Found)
  walk_node parent (file name content) =
      if ends_with name (codes ".md") then ok ((join parent name, content) ∷ []) else ok []
  walk_node parent (directory name nodes) = walk_markdown_files (join parent name) nodes
  walk_node parent (special name) = ok []

  pub walk_markdown_files : Text → Nodes → Result FileError (List Found)
  walk_markdown_files path unreadable = err not_read
  walk_markdown_files path empty = ok []
  walk_markdown_files path (entry node nodes) =
      walk_node path node >>= λ found. walk_markdown_files path nodes >>= λ rest. ok (found ++ rest)

abbrev pub titled_after : (Text → Text → Bool) → Artifact → Artifact → Bool
titled_after is_after a b = is_after a.metadata.title b.metadata.title

-- The directories of the library by their names, and `a.localeCompare(b) > 0`.
module _ (setup : Setup) (is_after : Text → Text → Bool) where
  unfoldable pub walk_all : (Text → Nodes) → List Text → Result FileError (List Found)
  walk_all root [] = ok []
  walk_all root (name ∷ names) = walk_markdown_files name (root name) >>= λ found.
      walk_all root names >>= λ rest. ok (found ++ rest)

  unfoldable pub read_artifact : Found → Result FileError Artifact
  read_artifact (path, raw) =
      if not (is_supported_artifact_path path)
      then err unsupported_path
      else elim (parse_artifact_markdown setup.markdown raw path) [
        | err code ↦ err (of_parser code)
        | ok artifact ↦ ok artifact
      ]

  unfoldable pub read_artifacts : List Found → Result FileError (List Artifact)
  read_artifacts [] = ok []
  read_artifacts (found ∷ rest) = read_artifact found >>= λ artifact.
      read_artifacts rest >>= λ artifacts. ok (artifact ∷ artifacts)

  abbrev pub check_unique : List Artifact → Result FileError (Unit {0})
  check_unique artifacts = elim (validate_unique_artifact_ids artifacts) [
    | err artifact ↦ err duplicate_ids
    | ok done ↦ ok tt
  ]

  unfoldable pub list_files : (Text → Nodes) → Result FileError (List Artifact)
  list_files root = walk_all root artifact_directories >>= λ files.
      read_artifacts files >>= λ artifacts.
      check_unique artifacts >>= λ unique. ok (sort_by (titled_after is_after) artifacts)

  unfoldable pub find_file : (Text → Nodes) → Text → Result FileError (Option Artifact)
  find_file root id = list_files root >>= λ artifacts. ok (find (has_artifact_id id) artifacts)

  -- The methods that want GitHub.
  abbrev pub needs_github : {A : Type 0} → Result FileError A
  needs_github = err (of_repository bad_configuration)

  abbrev pub lifted : {A : Type 0} → Result RepositoryError A → Result FileError A
  lifted (err e) = err (of_repository e)
  lifted (ok a) = ok a

  abbrev pub write_target :
      Artifact → Option Text → Text → List ℕ → Text → Result FileError (PreparedWrite × Text)
  write_target source title timestamp bytes body =
      lifted (prepare_variation source title timestamp bytes) >>= λ metadata.
      lifted (prepare_artifact_write setup metadata (trim body)) >>= λ prepared.
      elim (canonical_artifact_write_path metadata.type metadata.id) [
        | none ↦ err (of_repository write_validation)
        | some path ↦ ok (prepared, path)
      ]

  abbrev pub is_taken : Text → Text → Artifact → Bool
  is_taken id path artifact = text_eq artifact.metadata.id id || text_eq artifact.path path

  -- A new variation: the path and the text of the file that is written; `exists` says that a file
  -- stands there already, which `wx` refuses.
  unfoldable pub create_variation_file :
      (Text → Nodes)
      → (Text → Bool)
      → Artifact
      → Option Text
      → Text
      → List ℕ
      → Text
      → Result FileError (Text × Text)
  create_variation_file root exists source title timestamp bytes body =
      write_target source title timestamp bytes body >>= λ (prepared, path).
      list_files root >>= λ artifacts.
      if any (is_taken prepared.metadata.id path) artifacts || exists path
      then err (of_repository duplicate)
      else ok (path, prepared.markdown)
