-- ===== src/Library/Contract.antt =====
-- lib/artifact-contract.ts: what an artifact is, and the rules of its metadata and its path. The
-- front matter of Markdown, and the test of a time, are the platform's and parameters.
pub mod Unique
use artifact_dev_toolkit.Common.{
  ℕ, ◌*◌, Bool, true, false, not, ◌&&◌, ◌||◌, Option, none, some, List, [], ◌∷◌, ◌++◌, length, all,
  any, map, filter, leb, ltb, if◌then◌else◌, is_some, Result, ok, err,
}
use artifact_dev_toolkit.Common.Text.{Text, codes, text_eq, is_truthy, trim, split}
use artifact_dev_toolkit.Library.Layout.{
  ArtifactType, artifact_directories, normalize_path, is_safe_segment, in_library,
  classify_artifact_path,
}

abbrev pub max_serialized_artifact_bytes : ℕ
max_serialized_artifact_bytes = 1024 * 1024

pub record ArtifactMetadata : Type 0 where
  pub id : Text
  pub title : Text
  pub description : Text
  pub type : ArtifactType
  pub tags : List Text
  pub aliases : List Text
  pub source_id : Option Text
  pub created_at : Option Text

-- An artifact as the readers give it: its metadata, its body and where it stands.
pub record Artifact : Type 0 where
  pub metadata : ArtifactMetadata
  pub body : Text
  pub path : Text

pub data ParseErrorCode : Type 0 where
  invalid_front_matter invalid_metadata invalid_body : ParseErrorCode

-- `Array.from(new Set(values))`: the first of equal values stays.
unfoldable pub unique : List Text → List Text
unique [] = []
unique (value ∷ values) = value ∷ filter (λ other. not (text_eq other value)) (unique values)

unfoldable pub normalize_list : List Text → List Text
normalize_list values = unique (filter is_truthy (map trim values))

-- A trimmed text of at least one unit; `none` is an error of the schema.
unfoldable pub trimmed : Text → Option Text
trimmed value = if is_truthy (trim value) then some (trim value) else none

unfoldable pub trimmed_optional : Option Text → Option (Option Text)
trimmed_optional none = some none
trimmed_optional (some value) = elim (trimmed value) [ none ↦ none | some text ↦ some (some text) ]

abbrev pub is_time : (Text → Bool) → Option Text → Bool
is_time is_datetime none = true
is_time is_datetime (some value) = is_datetime value

-- The rules of `artifactFrontMatterSchema` on metadata of the right shape, with a time as text.
unfoldable pub normalize_artifact_metadata :
    (Text → Bool) → ArtifactMetadata → Option ArtifactMetadata
normalize_artifact_metadata is_datetime input = elim (trimmed input.id) [
  | none ↦ none
  | some id ↦ elim (trimmed input.title) [
    | none ↦ none
    | some title ↦ elim (trimmed_optional input.source_id) [
      | none ↦ none
      | some source_id ↦
          if leb (length input.description) 2000 && is_time is_datetime input.created_at
          then some (record {
            id = id;
            title = title;
            description = input.description;
            type = input.type;
            tags = normalize_list input.tags;
            aliases = normalize_list input.aliases;
            source_id = source_id;
            created_at = input.created_at;
          })
          else none
    ]
  ]
]

-- What `validateArtifactPath` complains of.
pub data PathProblem : Type 0 where
  unsafe_segments unknown_directory : PathProblem

unfoldable pub validate_artifact_path : Text → Option PathProblem
validate_artifact_path path =
    let relative = normalize_path path in
    let segments = split b'/' relative in
    if not (is_truthy relative) || any (λ segment. not (is_safe_segment segment)) segments
    then some unsafe_segments
    else if in_library segments
    then none
    else some unknown_directory

-- `seen.get(id)` of the map that the loop builds
unfoldable pub seen_path : Text → List (Text × Text) → Text
seen_path id [] = []
seen_path id ((other, path) ∷ seen) = if text_eq other id then path else seen_path id seen

-- The error names the artifact at which the loop stopped.
unfoldable pub unique_from : List (Text × Text) → List Artifact → Result Artifact (Unit {0})
unique_from seen [] = ok tt
unique_from seen (artifact ∷ artifacts) =
    let rest = unique_from ((artifact.metadata.id, artifact.path) ∷ seen) artifacts in
    if is_truthy (seen_path artifact.metadata.id seen) then err artifact else rest

unfoldable pub validate_unique_artifact_ids : List Artifact → Result Artifact (Unit {0})
validate_unique_artifact_ids artifacts = unique_from [] artifacts

-- The parser of front matter, and the writer whose text it reads.
pub record Markdown : Type 0 where
  pub is_datetime : Text → Bool
  pub parse : Text → Result ParseErrorCode (ArtifactMetadata × Text)
  pub stringify : ArtifactMetadata → Text → Text

module _ (markdown : Markdown) where
  -- The path `artifact.md` is that of a text that is not stored yet.
  unfoldable pub parse_artifact_markdown : Text → Text → Result ParseErrorCode Artifact
  parse_artifact_markdown raw path = elim (markdown.parse raw) [
    | err code ↦ err code
    | ok (data_, content) ↦
        if not (text_eq path (codes "artifact.md")) && not (is_some (classify_artifact_path path))
        then err invalid_metadata
        else elim (normalize_artifact_metadata markdown.is_datetime data_) [
          | none ↦ err invalid_metadata
          | some metadata ↦ ok (record { metadata = metadata; body = trim content; path = path })
        ]
  ]

  -- `none` is an error of the schema, or a text that the reader would refuse.
  unfoldable pub serialize_artifact_markdown : ArtifactMetadata → Text → Option Text
  serialize_artifact_markdown input body =
      elim (normalize_artifact_metadata markdown.is_datetime input) [
        | none ↦ none
        | some metadata ↦
            let text = markdown.stringify metadata (trim body ++ 10 ∷ []) in
            elim (parse_artifact_markdown text (codes "artifact.md")) [
              | err code ↦ none
              | ok artifact ↦ some text
            ]
      ]
