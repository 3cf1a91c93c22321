-- ===== src/Library/Repository/Updates.antt =====
-- `update` of `GitHubArtifactRepository` in lib/artifact-repository.ts.
use artifact_dev_toolkit.Common.{
  ◌≡◌, refl, true, some, List, arith, find, Option-cases, inl, inr, ok,
}
use artifact_dev_toolkit.Common.Text.{text_eq}
use artifact_dev_toolkit.Library.Layout.{is_supported_artifact_mutation_path}
use artifact_dev_toolkit.Library.Contract.{ArtifactMetadata, Artifact}
use artifact_dev_toolkit.Library.Requests.{write}
use artifact_dev_toolkit.Library.Branch.{
  Entry, Write, put, PutRequest, Setup, State, lift, is_file, has_artifact_id, fetch_tree,
  artifacts_from_tree,
}
use artifact_dev_toolkit.Library.Branch.Reads.{
  lift-IsRead, fetch_tree-IsRead, artifacts_from_tree-IsRead,
}
use artifact_dev_toolkit.Library.Repository.{
  PreparedWrite, UpdateInput, is_immutable_same, check_update, update_target, send_update,
  update_found, update_listed, update_prepared, update,
}
use artifact_dev_toolkit.Library.Repository.Sends.{
  SendsOnly, >>=-SendsOnly, write_contents-SendsOnly, find_id, is_text-some,
}

module _ (setup : Setup) where
  -- What an update from this state found on the branch, and what it sends.
  pub record IsCurrent (s : State) (input : UpdateInput) (w : Write) : Type 0 where
    pub tree : List Entry
    pub read_tree : (fetch_tree setup write s).0 ≡ ok tree
    pub artifacts : List Artifact
    pub read_artifacts :
        (artifacts_from_tree setup tree write (fetch_tree setup write s).1).0 ≡ ok artifacts
    pub artifact : Artifact
    pub found : find (has_artifact_id input.id) artifacts ≡ some artifact
    pub entry : Entry
    pub request : PutRequest
    pub sends : w ≡ put request
    pub id : text_eq artifact.metadata.id input.id ≡ true
    pub listed : find (is_file artifact.path) tree ≡ some entry
    pub path : request.path ≡ artifact.path
    pub condition : request.sha ≡ some input.current_file_sha
    pub current : entry.sha ≡ some input.current_file_sha
    pub supported : is_supported_artifact_mutation_path artifact.path ≡ true
    pub prepared : PreparedWrite
    pub checked : check_update setup input ≡ ok prepared
    pub unchanged : is_immutable_same artifact prepared.metadata ≡ true
    pub content : request.content ≡ prepared.markdown

  update_target-ok :
      (input : UpdateInput) (metadata : ArtifactMetadata) (tree : List Entry)
      (artifacts : List Artifact) (artifact : Artifact)
      → update_target setup input metadata tree artifacts ≡ ok artifact
      → (entry : Entry) × (find (has_artifact_id input.id) artifacts ≡ some artifact)
        × (text_eq artifact.metadata.id input.id ≡ true)
        × (find (is_file artifact.path) tree ≡ some entry)
        × (entry.sha ≡ some input.current_file_sha)
        × (is_supported_artifact_mutation_path artifact.path ≡ true)
        × (is_immutable_same artifact metadata ≡ true)
  unfolding update_target
  update_target-ok input metadata tree artifacts artifact h =
      elim (Option-cases (find (has_artifact_id input.id) artifacts)) [
        | inl missing ↦ absurd (ground arith)
        | inr (found, e) ↦ elim (Option-cases (find (is_file found.path) tree)) [
          | inl missing ↦ absurd (ground arith)
          | inr (entry, listed) ↦
              let same : found ≡ artifact = ground arith in
              rw (← same) (
                entry,
                e,
                find_id input.id artifacts found e,
                listed,
                is_text-some entry.sha input.current_file_sha (ground arith),
                ground arith,
                ground arith,
              )
        ]
      ]

  send_update-IsCurrent :
      (input : UpdateInput) (prepared : PreparedWrite) (tree : List Entry)
      (artifacts : List Artifact) (artifact : Artifact) (s t : State)
      → (fetch_tree setup write s).0 ≡ ok tree
      → (artifacts_from_tree setup tree write (fetch_tree setup write s).1).0 ≡ ok artifacts
      → check_update setup input ≡ ok prepared
      → update_target setup input prepared.metadata tree artifacts ≡ ok artifact
      → SendsOnly t (send_update setup input prepared artifact t).1 (IsCurrent s input)
  unfolding send_update
  send_update-IsCurrent input prepared tree artifacts artifact s t read_tree read_artifacts checked
        is =
      let (entry, found, id, listed, current, supported, unchanged) =
        update_target-ok input prepared.metadata tree artifacts artifact is in
      elim (write_contents-SendsOnly setup _ prepared.metadata.id t) [
        | inl silent ↦ inl silent
        | inr sent ↦ inr (
          _,
          sent,
          record {
            tree = tree;
            read_tree = read_tree;
            artifacts = artifacts;
            read_artifacts = read_artifacts;
            artifact = artifact;
            found = found;
            entry = entry;
            request = _;
            sends = refl;
            id = id;
            listed = listed;
            path = refl;
            condition = refl;
            current = current;
            supported = supported;
            prepared = prepared;
            checked = checked;
            unchanged = unchanged;
            content = refl;
          },
        )
      ]

  -- Whatever comes of it, an update sends at most one write. One that it sends replaces the file of
  -- the first artifact with the given id among those read of the branch's tree, names the sha that the
  -- caller gave and that tree shows for the file, keeps what cannot change, and has the text that was
  -- prepared and checked.
  pub update-IsCurrent :
      (input : UpdateInput) (s : State) → SendsOnly s (update setup input s).1 (IsCurrent s input)
  unfolding update update_prepared update_listed update_found
  update-IsCurrent input s =
      >>=-SendsOnly (lift (check_update setup input)) (update_prepared setup input) s
        (IsCurrent s input) (lift-IsRead (check_update setup input))
        (λ prepared checked.
          >>=-SendsOnly (fetch_tree setup write) (update_listed setup input prepared) _
            (IsCurrent s input) (fetch_tree-IsRead setup write)
            (λ tree fetched.
              >>=-SendsOnly (artifacts_from_tree setup tree write)
                (update_found setup input prepared tree) _ (IsCurrent s input)
                (artifacts_from_tree-IsRead setup tree write)
                (λ artifacts listed.
                  >>=-SendsOnly (lift (update_target setup input prepared.metadata tree artifacts))
                    (send_update setup input prepared) _ (IsCurrent s input)
                    (lift-IsRead (update_target setup input prepared.metadata tree artifacts))
                    (λ artifact found.
                      send_update-IsCurrent input prepared tree artifacts artifact s _ fetched
                        listed checked found))))
