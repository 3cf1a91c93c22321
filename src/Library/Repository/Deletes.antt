-- ===== src/Library/Repository/Deletes.antt =====
-- `delete` of `GitHubArtifactRepository` in lib/artifact-repository.ts.
use artifact_dev_toolkit.Common.{
  ◌≡◌, refl, true, some, List, ◌∷◌, arith, find, Option-cases, ◌⊎◌, inl, inr, ok, Result-cases,
}
use artifact_dev_toolkit.Common.Text.{Text, codes, text_eq}
use artifact_dev_toolkit.Library.Layout.{is_supported_artifact_mutation_path}
use artifact_dev_toolkit.Library.Contract.{Artifact}
use artifact_dev_toolkit.Library.Requests.{write}
use artifact_dev_toolkit.Library.Branch.{
  Entry, Write, remove, DeleteRequest, Setup, State, lift, is_file, has_artifact_id, fetch_tree,
  artifacts_from_tree,
}
use artifact_dev_toolkit.Library.Branch.Reads.{
  lift-IsRead, fetch_tree-IsRead, artifacts_from_tree-IsRead,
}
use artifact_dev_toolkit.Library.Repository.{
  write_credential, DeleteInput, commit_message, delete_contents, check_delete, delete_target,
  send_delete, delete_found, delete_listed, delete_checked, delete,
}
use artifact_dev_toolkit.Library.Repository.Sends.{
  SendsOnly, >>=-SendsOnly, write_credential-IsRead, find_id, is_text-some,
}

module _ (setup : Setup) where
  delete_contents-SendsOnly :
      (path : Text) (input : DeleteInput) (s : State)
      → ((delete_contents setup path input s).1.sent ≡ s.sent)
        ⊎ ((delete_contents setup path input s).1.sent
            ≡ remove (record {
              path = path;
              message = commit_message (codes "Delete") input.id input.actor_login;
              sha = input.current_file_sha;
            })
              ∷ s.sent)
  unfolding delete_contents
  delete_contents-SendsOnly path input s = elim (Result-cases (write_credential setup s).0) [
    | inl (e, failed) ↦ inl (ground (arith, write_credential-IsRead setup s))
    | inr (token, asked) ↦ inr (ground (arith, write_credential-IsRead setup s))
  ]

  delete_target-ok :
      (input : DeleteInput) (tree : List Entry) (artifacts : List Artifact) (artifact : Artifact)
      → delete_target setup input tree artifacts ≡ ok artifact
      → (entry : Entry) × (find (has_artifact_id input.id) artifacts ≡ some artifact)
        × (text_eq artifact.metadata.id input.id ≡ true)
        × (find (is_file artifact.path) tree ≡ some entry)
        × (entry.sha ≡ some input.current_file_sha)
        × (is_supported_artifact_mutation_path artifact.path ≡ true)
  unfolding delete_target
  delete_target-ok input tree artifacts artifact h =
      elim (Option-cases (find (has_artifact_id input.id) artifacts)) [
        | inl missing ↦ absurd (ground arith)
        | inr (found, e) ↦ elim (Option-cases (find (is_file found.path) tree)) [
          | inl missing ↦ absurd (ground arith)
          | inr (entry, listed) ↦
              let same : found ≡ artifact = ground arith in
              rw (← same) (
                entry,
                e,
                find_id input.id artifacts found e,
                listed,
                is_text-some entry.sha input.current_file_sha (ground arith),
                ground arith,
              )
        ]
      ]

  -- What a deletion from this state found on the branch, and what it sends.
  pub record IsListed (s : State) (input : DeleteInput) (w : Write) : Type 0 where
    pub tree : List Entry
    pub read_tree : (fetch_tree setup write s).0 ≡ ok tree
    pub artifacts : List Artifact
    pub read_artifacts :
        (artifacts_from_tree setup tree write (fetch_tree setup write s).1).0 ≡ ok artifacts
    pub artifact : Artifact
    pub found : find (has_artifact_id input.id) artifacts ≡ some artifact
    pub entry : Entry
    pub request : DeleteRequest
    pub sends : w ≡ remove request
    pub id : text_eq artifact.metadata.id input.id ≡ true
    pub listed : find (is_file artifact.path) tree ≡ some entry
    pub target : (request.path ≡ artifact.path) × (request.sha ≡ input.current_file_sha)
    pub current : entry.sha ≡ some input.current_file_sha
    pub supported : is_supported_artifact_mutation_path artifact.path ≡ true

  send_delete-IsListed :
      (input : DeleteInput) (tree : List Entry) (artifacts : List Artifact) (artifact : Artifact)
      (s t : State)
      → (fetch_tree setup write s).0 ≡ ok tree
      → (artifacts_from_tree setup tree write (fetch_tree setup write s).1).0 ≡ ok artifacts
      → delete_target setup input tree artifacts ≡ ok artifact
      → SendsOnly t (send_delete setup input artifact t).1 (IsListed s input)
  unfolding send_delete
  send_delete-IsListed input tree artifacts artifact s t read_tree read_artifacts is =
      let (entry, found, id, listed, current, supported) =
        delete_target-ok input tree artifacts artifact is in
      elim (delete_contents-SendsOnly artifact.path input t) [
        | inl silent ↦ inl silent
        | inr sent ↦ inr (
          _,
          sent,
          record {
            tree = tree;
            read_tree = read_tree;
            artifacts = artifacts;
            read_artifacts = read_artifacts;
            artifact = artifact;
            found = found;
            entry = entry;
            request = _;
            sends = refl;
            id = id;
            listed = listed;
            target = (refl, refl);
            current = current;
            supported = supported;
          },
        )
      ]

  -- Whatever comes of it, a deletion sends at most one write. One that it sends removes the file of
  -- the first artifact with the given id among those read of the branch's tree, and names the sha that
  -- the caller gave and that tree shows for the file.
  pub delete-IsListed :
      (input : DeleteInput) (s : State) → SendsOnly s (delete setup input s).1 (IsListed s input)
  unfolding delete delete_checked delete_listed delete_found
  delete-IsListed input s =
      >>=-SendsOnly (lift (check_delete setup input)) (delete_checked setup input) s
        (IsListed s input) (lift-IsRead (check_delete setup input))
        (λ checked h.
          >>=-SendsOnly (fetch_tree setup write) (delete_listed setup input) _ (IsListed s input)
            (fetch_tree-IsRead setup write)
            (λ tree fetched.
              >>=-SendsOnly (artifacts_from_tree setup tree write) (delete_found setup input tree) _
                (IsListed s input) (artifacts_from_tree-IsRead setup tree write)
                (λ artifacts listed.
                  >>=-SendsOnly (lift (delete_target setup input tree artifacts))
                    (send_delete setup input) _ (IsListed s input)
                    (lift-IsRead (delete_target setup input tree artifacts))
                    (λ artifact found.
                      send_delete-IsListed input tree artifacts artifact s _ fetched listed
                        found))))
