-- ===== src/Library/Catalogue/Examples.antt =====
-- A branch with an artifact and two files that are none, and the theorems of the catalogue there.
use artifact_dev_toolkit.Common.{
  ℕ, ◌+◌, ◌≤◌, ◌≡◌, refl, true, false, none, some, List, [], ◌∷◌, length, filter, ok,
}
use artifact_dev_toolkit.Common.Text.{
  Text, codes, text_eq, to_lower_case, trim, drop_while, is_space, starts_with, ends_with, split,
  split_from, replace_all,
}
use artifact_dev_toolkit.Common.Sorting.{sort_by, insert_sorted}
use artifact_dev_toolkit.Library.Layout.{
  prompt, normalize_path, is_safe_segment, safe_segments, in_library, classify_artifact_path,
  is_supported_artifact_path, is_artifact_markdown_candidate, is_slug, is_slug_from, is_slug_char,
}
use artifact_dev_toolkit.Library.Contract.{
  ArtifactMetadata, Artifact, validate_unique_artifact_ids, unique_from, seen_path, unique,
  normalize_list, trimmed, trimmed_optional, normalize_artifact_metadata, parse_artifact_markdown,
}
use artifact_dev_toolkit.Library.Requests.{
  read, contents_read, allows, ask_provider, credential, json, Attempt, responded, judge,
  attempt_from, github_json,
}
use artifact_dev_toolkit.Library.Branch.{
  Entry, Setup, State, write_rejected, is_candidate, request_json, tree_entries, fetch_blob,
  blob_text, artifact_from_entry, parse_stored, artifacts_from_entries, artifacts_from_tree,
}
use artifact_dev_toolkit.Library.Report.{
  RepositoryValidationReport, unsafe_path, invalid_path, duplicate_id, invalid_results, duplicates,
  duplicates_of, diagnostics_of, distinct_entries, report_of,
}
use artifact_dev_toolkit.Library.Catalogue.{
  Reads, RepositoryCatalogue, is_revision, resolve_branch, get_base_revision, fetch_revision,
  is_title_after, file_sha, file_shas_of, load_catalogue, finding_of, diagnose_blob, diagnose_entry,
  diagnose_entries, diagnose_catalogue,
}
use artifact_dev_toolkit.Library.Catalogue.Loads.{
  AreShas, diagnose_catalogue-counts, load_catalogue-shas,
}

abbrev metadata : ArtifactMetadata
metadata = record {
  id = codes "review";
  title = codes "Review";
  description = [];
  type = prompt;
  tags = [];
  aliases = [];
  source_id = none;
  created_at = none;
}

abbrev entry : Text → Entry
entry path = record { path = some path; is_blob = true; sha = some (codes "abc1234"); size = none }

abbrev listed : List Entry
listed = entry (codes "prompts/review.md") ∷ []

-- Two files with the same id, and one whose path is not safe.
abbrev mixed : List Entry
mixed =
    entry (codes "prompts/review.md")
    ∷ entry (codes "prompts/copy.md")
    ∷ entry (codes "prompts/../a.md")
    ∷ []

abbrev answer : {A : Type 0} → A → ℕ → Attempt A
answer value attempt = responded (record { status = 200; retry_after = none; body = json value })

abbrev setup : Setup
setup = record {
  provider = λ capability. ok (record { token = codes "t"; contents = contents_read });
  tree = answer (record { tree = some listed; truncated = false });
  blob = λ sha.
      answer
        (record { content = some (codes "text"); encoding = some (codes "base64"); size = none });
  send = λ w. write_rejected;
  markdown = record {
    is_datetime = λ value. true;
    parse = λ raw. ok (metadata, raw);
    stringify = λ m body. body;
  };
  decode_base64 = λ s. s;
  decode_utf8 = λ s. s;
  byte_length = λ s. length s;
  has_secret = λ s. false;
}

abbrev reads : List Entry → Reads
reads tree = record {
  branch = codes "main";
  reference = answer (some (codes "0123abc"));
  tree_at = λ revision. answer (record { tree = some tree; truncated = false });
  is_after = λ a b. false;
}

abbrev state : State
state = record { kept = record { for_read = none; for_write = none }; sent = [] }

steps : Unit {0}
unfolding text_eq to_lower_case trim drop_while is_space starts_with ends_with split split_from
    replace_all normalize_path is_safe_segment safe_segments in_library classify_artifact_path
    is_supported_artifact_path is_artifact_markdown_candidate is_slug is_slug_from is_slug_char
    validate_unique_artifact_ids unique_from seen_path unique normalize_list trimmed
    trimmed_optional normalize_artifact_metadata parse_artifact_markdown allows ask_provider
    credential judge attempt_from github_json request_json tree_entries fetch_blob blob_text
    artifact_from_entry parse_stored artifacts_from_entries artifacts_from_tree invalid_results
    duplicates duplicates_of diagnostics_of distinct_entries report_of is_revision resolve_branch
    get_base_revision fetch_revision file_sha file_shas_of load_catalogue finding_of diagnose_blob
    diagnose_entry diagnose_entries diagnose_catalogue sort_by insert_sorted
steps = tt

abbrev catalogue : RepositoryCatalogue
catalogue = record {
  artifacts =
      record { metadata = metadata; body = codes "text"; path = codes "prompts/review.md" } ∷ [];
  revision = codes "0123abc";
  file_shas = (codes "review", codes "abc1234") ∷ [];
}

loaded : (load_catalogue setup (reads listed) none state).0 ≡ ok catalogue
unfolding steps
loaded = refl

abbrev report : RepositoryValidationReport
report = record {
  revision = codes "0123abc";
  valid_count = 0;
  invalid_count = 3;
  errors =
      record { path = unsafe_path; code = invalid_path }
      ∷ record { path = codes "prompts/review.md"; code = duplicate_id }
      ∷ record { path = codes "prompts/copy.md"; code = duplicate_id }
      ∷ [];
  omitted_error_count = 0;
}

diagnosed : (diagnose_catalogue setup (reads mixed) none state).0 ≡ ok report
unfolding steps
diagnosed = refl

diagnose_catalogue-counts_example :
    (tree : List Entry) × (t : State) × ((fetch_revision setup
        (reads mixed)
        read
        (codes "0123abc")
        t).0
      ≡ ok tree)
    × (report.valid_count + report.invalid_count ≡ length (filter is_candidate tree))
    × (length report.errors ≤ 50)
diagnose_catalogue-counts_example =
    diagnose_catalogue-counts setup (reads mixed) none state report diagnosed

load_catalogue-shas_example :
    (tree : List Entry) × (artifacts : List Artifact) × (t : State) × (u : State) × ((fetch_revision
        setup
        (reads listed)
        read
        (codes "0123abc")
        t).0
      ≡ ok tree)
    × ((artifacts_from_tree setup tree read u).0 ≡ ok artifacts)
    × (validate_unique_artifact_ids artifacts ≡ ok tt)
    × (catalogue.artifacts ≡ sort_by (is_title_after setup (reads listed)) artifacts)
    × AreShas setup (reads listed) tree artifacts catalogue.file_shas
load_catalogue-shas_example = load_catalogue-shas setup (reads listed) none state catalogue loaded
