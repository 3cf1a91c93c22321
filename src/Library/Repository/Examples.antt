-- ===== src/Library/Repository/Examples.antt =====
-- A branch with one artifact, and the theorems of the artifact repository there.
use artifact_dev_toolkit.Common.{
  ℕ, if◌then◌else◌, ◌≡◌, all, err, ◌≤◌, ◌↔◌, refl, true, false, none, some, [], ◌∷◌, length, All,
  ltb, ok,
}
use artifact_dev_toolkit.Common.Text.{
  Text, codes, text_eq, trim, drop_while, is_space, starts_with, ends_with, split, split_from,
  replace_all,
}
use artifact_dev_toolkit.Library.Layout.{
  prompt, canonical, normalize_path, is_safe_segment, safe_segments, in_library,
  classify_artifact_path, is_supported_artifact_path, is_supported_artifact_mutation_path,
  is_artifact_markdown_candidate, is_slug, is_slug_from, is_slug_char,
  canonical_artifact_write_path,
}
use artifact_dev_toolkit.Library.Contract.{
  ArtifactMetadata, Artifact, Markdown, validate_artifact_path, validate_unique_artifact_ids,
  unique_from, seen_path, unique, normalize_list, trimmed, trimmed_optional,
  normalize_artifact_metadata, parse_artifact_markdown, serialize_artifact_markdown,
}
use artifact_dev_toolkit.Library.Contract.Unique.{
  Fresh, validate_unique_artifact_ids_iff, classify_artifact_path-validate_artifact_path_iff,
}
use artifact_dev_toolkit.Library.Requests.{
  RepositoryError, read, write, contents_write, Kept, Provider, allows, ask_provider, credential,
  Body, json, Attempt, responded, Request, missing_branch, retry_delay, judge, attempt_from,
  github_json,
}
use artifact_dev_toolkit.Library.Requests.Attempts.{IsAnswered, github_json-IsAnswered}
use artifact_dev_toolkit.Library.Requests.Credentials.{ask_all, credential-once}
use artifact_dev_toolkit.Library.Branch.{
  Entry, TreeResponse, BlobResponse, Write, put, remove, PutRequest, WriteReply, write_answered,
  Setup, State, request_json, fetch_tree, tree_entries, fetch_blob, blob_text, artifact_from_entry,
  parse_stored, artifacts_from_entries, artifacts_from_tree,
}
use artifact_dev_toolkit.Library.Repository.{
  UpdateInput, CreateInput, DeleteInput, delete, is_actor, is_immutable_same, commit_message,
  prepare_artifact_write, write_credential, write_contents, put_result, check_update, update_target,
  send_update, update_found, update_listed, update_prepared, update, check_create, send_create,
  create_found, create_unlisted, create_listed, create_prepared, create,
}
use artifact_dev_toolkit.Library.Variation.{slice_to, slice_from}
use artifact_dev_toolkit.Library.Variation.Ids.{compact_time}
use artifact_dev_toolkit.Library.Repository.Variations.{VariationInput, create_variation}
use artifact_dev_toolkit.Library.Repository.Refusals.{create_variation-refused}
use artifact_dev_toolkit.Library.Repository.Sends.{SendsOnly}
use artifact_dev_toolkit.Library.Repository.Updates.{IsCurrent, update-IsCurrent}
use artifact_dev_toolkit.Library.Repository.Creates.{IsNew, create-IsNew}
use artifact_dev_toolkit.Library.Repository.Deletes.{IsListed, delete-IsListed}

abbrev metadata : ArtifactMetadata
metadata = record {
  id = codes "review";
  title = codes "Review";
  description = [];
  type = prompt;
  tags = codes "code" ∷ [];
  aliases = [];
  source_id = none;
  created_at = none;
}

abbrev artifact : Artifact
artifact = record { metadata = metadata; body = codes "text"; path = codes "prompts/review.md" }

-- Every text is read as the same front matter with the text behind it.
abbrev markdown : Markdown
markdown = record {
  is_datetime = λ value. true;
  parse = λ raw. ok (metadata, raw);
  stringify = λ m body. body;
}

abbrev provider : Provider
provider capability = ok (record { token = codes "t"; contents = contents_write })

abbrev entry : Entry
entry = record {
  path = some (codes "prompts/review.md");
  is_blob = true;
  sha = some (codes "abc1234");
  size = none;
}

-- The first request for the tree is answered with 502.
abbrev tree_reply : ℕ → Attempt TreeResponse
tree_reply attempt =
    if ltb attempt 2
    then responded (record { status = 502; retry_after = some 9000; body = Body.not_json })
    else responded (record {
      status = 200;
      retry_after = none;
      body = json (record { tree = some (entry ∷ []); truncated = false });
    })

abbrev blob_reply : Text → ℕ → Attempt BlobResponse
blob_reply sha attempt = responded (record {
  status = 200;
  retry_after = none;
  body =
      json
        (record { content = some (codes "text"); encoding = some (codes "base64"); size = none });
})

abbrev confirm : Write → WriteReply
confirm (put request) = write_answered 200 (
    some (record {
      path = request.path;
      file_sha = codes "def";
      commit_sha = codes "def";
      commit_url = codes "https://github.com/acme/library";
    }))
confirm (remove request) = write_answered 404 none

abbrev setup : Setup
setup = record {
  provider = provider;
  tree = tree_reply;
  blob = blob_reply;
  send = confirm;
  markdown = markdown;
  decode_base64 = λ s. s;
  decode_utf8 = λ s. s;
  byte_length = λ s. length s;
  has_secret = λ s. false;
}

abbrev nothing_kept : Kept
nothing_kept = record { for_read = none; for_write = none }

abbrev state : State
state = record { kept = nothing_kept; sent = [] }

abbrev update_input : UpdateInput
update_input = record {
  id = codes "review";
  metadata = metadata;
  body = codes "new text";
  current_file_sha = codes "abc1234";
  actor_login = codes "ada";
}

abbrev create_input : CreateInput
create_input = record {
  metadata = record metadata { id = codes "summary" };
  body = codes "new text";
  actor_login = codes "ada";
}

steps : Unit {0}
unfolding text_eq trim drop_while is_space starts_with ends_with split split_from replace_all
    normalize_path is_safe_segment safe_segments in_library classify_artifact_path
    is_supported_artifact_path is_supported_artifact_mutation_path is_artifact_markdown_candidate
    is_slug is_slug_from is_slug_char canonical_artifact_write_path validate_unique_artifact_ids
    unique_from seen_path unique normalize_list trimmed trimmed_optional normalize_artifact_metadata
    parse_artifact_markdown serialize_artifact_markdown allows ask_provider credential retry_delay
    judge attempt_from github_json request_json fetch_tree tree_entries fetch_blob blob_text
    artifact_from_entry parse_stored artifacts_from_entries artifacts_from_tree is_actor
    is_immutable_same commit_message prepare_artifact_write write_credential write_contents
    put_result check_update update_target send_update update_found update_listed update_prepared
    update check_create send_create create_found create_unlisted create_listed create_prepared
    create
steps = tt

abbrev update_request : PutRequest
update_request = record {
  path = codes "prompts/review.md";
  content = codes "new text\n";
  message = codes "Update artifact review (requested by @ada)";
  sha = some (codes "abc1234");
}

updates : (update setup update_input state).1.sent ≡ put update_request ∷ []
unfolding steps
updates = refl

conflict :
    (update setup (record update_input { current_file_sha = codes "0000000" }) state).1.sent ≡ []
unfolding steps
conflict = refl

update-IsCurrent_example :
    SendsOnly state (update setup update_input state).1 (IsCurrent setup state update_input)
update-IsCurrent_example = update-IsCurrent setup update_input state

create-IsNew_example :
    SendsOnly state (create setup create_input state).1 (IsNew setup state create_input)
create-IsNew_example = create-IsNew setup create_input state

abbrev request : Request
request = record { of_branch = false; of_blob = false; missing = missing_branch }

github_json-IsAnswered_example :
    (length (github_json request provider read tree_reply nothing_kept).0.1 ≤ 2)
    × All (λ delay. delay ≤ 5000) (github_json request provider read tree_reply nothing_kept).0.1
    × ((value : TreeResponse)
        → (github_json request provider read tree_reply nothing_kept).0.0 ≡ ok value
        → IsAnswered request tree_reply 1 value)
github_json-IsAnswered_example =
    github_json-IsAnswered request provider read tree_reply nothing_kept

abbrev refuses : Provider
refuses capability = err (some 503)

credential-once_example :
    ((credential refuses write nothing_kept).0 ≡ ask_provider refuses write)
    × ((credential provider write (
          ask_all
            ((provider, read) ∷ (provider, write) ∷ [])
            (credential refuses write nothing_kept).1)).0
        ≡ ask_provider refuses write)
credential-once_example =
    credential-once refuses provider write nothing_kept ((provider, read) ∷ (provider, write) ∷ [])
      refl

validate_unique_artifact_ids_iff_example :
    (validate_unique_artifact_ids (artifact ∷ artifact ∷ []) ≡ ok tt)
    ↔ Fresh [] (artifact ∷ artifact ∷ [])
validate_unique_artifact_ids_iff_example =
    validate_unique_artifact_ids_iff (artifact ∷ artifact ∷ []) (refl, (refl, tt))

classify_artifact_path-validate_artifact_path_iff_example :
    (classify_artifact_path (codes "prompts/review.md") ≡ some canonical) ↔ (
      (validate_artifact_path (codes "prompts/review.md") ≡ none)
      × (ltb 1 (length (split b'/' (normalize_path (codes "prompts/review.md")))) ≡ true))
classify_artifact_path-validate_artifact_path_iff_example =
    classify_artifact_path-validate_artifact_path_iff (codes "prompts/review.md")

abbrev delete_input : DeleteInput
delete_input = record {
  id = codes "review";
  current_file_sha = codes "abc1234";
  actor_login = codes "ada";
}

delete-IsListed_example :
    SendsOnly state (delete setup delete_input state).1 (IsListed setup state delete_input)
delete-IsListed_example = delete-IsListed setup delete_input state

variation_steps : Unit {0}
unfolding is_slug is_slug_from is_slug_char slice_to slice_from
variation_steps = tt

abbrev timestamp : Text
timestamp = codes "2024-05-06T07:08:09.000Z"

slug_parts :
    (is_slug (codes "my-title") ≡ true)
    × (is_slug (slice_to 10 timestamp) ≡ true)
    × (is_slug (compact_time timestamp) ≡ true)
    × (is_slug (codes "0a0b0c0d") ≡ true)
unfolding variation_steps
slug_parts = (refl, refl, refl, refl)

-- A title of 79 letters.
abbrev long_word : Text
long_word = codes "aaaaaaaaaaaaaaaaaaaaaaaaaaaaaaaaaaaaaaaaaaaaaaaaaaaaaaaaaaaaaaaaaaaaaaaaaaaaaaa"

abbrev untitled_variation : VariationInput
untitled_variation = record {
  source = record artifact { metadata = record metadata { title = long_word } };
  body = codes "Body";
  title = none;
  actor_login = codes "ada";
  timestamp = timestamp;
  bytes = 10 ∷ 11 ∷ 12 ∷ 13 ∷ [];
}

long_plain : all is_slug_char long_word ≡ true
unfolding is_slug_char
long_plain = refl

create_variation-refused_example :
    (e : RepositoryError) × (create_variation setup untitled_variation state ≡ (err e, state))
create_variation-refused_example =
    create_variation-refused setup untitled_variation state refl refl long_plain
