-- ===== src/Library/Repository/Creates.antt =====
-- `create` of `GitHubArtifactRepository` in lib/artifact-repository.ts.
use artifact_dev_toolkit.Common.{◌≡◌, refl, false, none, List, arith, any, inl, inr, ok}
use artifact_dev_toolkit.Common.Text.{Text}
use artifact_dev_toolkit.Library.Contract.{Artifact}
use artifact_dev_toolkit.Library.Requests.{write}
use artifact_dev_toolkit.Library.Branch.{
  Entry, Write, put, PutRequest, Setup, State, lift, is_file, has_artifact_id, fetch_tree,
  artifacts_from_tree,
}
use artifact_dev_toolkit.Library.Branch.Reads.{
  lift-IsRead, fetch_tree-IsRead, artifacts_from_tree-IsRead,
}
use artifact_dev_toolkit.Library.Repository.{
  PreparedWrite, CreateInput, check_create, check_new_path, check_new_id, send_create, create_found,
  create_unlisted, create_listed, create_prepared, create,
}
use artifact_dev_toolkit.Library.Repository.Sends.{
  SendsOnly, >>=-SendsOnly, write_contents-SendsOnly,
}

module _ (setup : Setup) where
  -- What a creation from this state found on the branch, and what it sends.
  pub record IsNew (s : State) (input : CreateInput) (w : Write) : Type 0 where
    pub prepared : PreparedWrite
    pub path : Text
    pub checked : check_create setup input ≡ ok (prepared, path)
    pub tree : List Entry
    pub read_tree : (fetch_tree setup write s).0 ≡ ok tree
    pub new_path : any (is_file path) tree ≡ false
    pub artifacts : List Artifact
    pub read_artifacts :
        (artifacts_from_tree setup tree write (fetch_tree setup write s).1).0 ≡ ok artifacts
    pub new_id : any (has_artifact_id prepared.metadata.id) artifacts ≡ false
    pub request : PutRequest
    pub sends : w ≡ put request
    pub target : (request.path ≡ path) × (request.sha ≡ none)
    pub content : request.content ≡ prepared.markdown

  send_create-IsNew :
      (input : CreateInput) (prepared : PreparedWrite) (path : Text) (tree : List Entry)
      (artifacts : List Artifact) (done : Unit {0}) (s t : State)
      → (fetch_tree setup write s).0 ≡ ok tree
      → (artifacts_from_tree setup tree write (fetch_tree setup write s).1).0 ≡ ok artifacts
      → check_create setup input ≡ ok (prepared, path)
      → any (is_file path) tree ≡ false
      → any (has_artifact_id prepared.metadata.id) artifacts ≡ false
      → SendsOnly t (send_create setup input prepared path done t).1 (IsNew s input)
  unfolding send_create
  send_create-IsNew input prepared path tree artifacts done s t read_tree read_artifacts checked
        new_path new_id =
      elim (write_contents-SendsOnly setup _ prepared.metadata.id t) [
        | inl silent ↦ inl silent
        | inr sent ↦ inr (
          _,
          sent,
          record {
            prepared = prepared;
            path = path;
            checked = checked;
            tree = tree;
            read_tree = read_tree;
            new_path = new_path;
            artifacts = artifacts;
            read_artifacts = read_artifacts;
            new_id = new_id;
            request = _;
            sends = refl;
            target = (refl, refl);
            content = refl;
          },
        )
      ]

  -- Whatever comes of it, a creation sends at most one write. One that it sends makes a file at the
  -- path of the prepared metadata, where the tree of the branch shows no file, for an id that no artifact read of
  -- that tree has; it names no sha.
  pub create-IsNew :
      (input : CreateInput) (s : State) → SendsOnly s (create setup input s).1 (IsNew s input)
  unfolding create create_prepared create_listed create_unlisted create_found
  create-IsNew input s =
      >>=-SendsOnly (lift (check_create setup input)) (create_prepared setup input) s
        (IsNew s input) (lift-IsRead (check_create setup input))
        (λ (prepared, path) checked.
          >>=-SendsOnly (fetch_tree setup write) (create_listed setup input prepared path) _
            (IsNew s input) (fetch_tree-IsRead setup write)
            (λ tree fetched.
              >>=-SendsOnly (lift (check_new_path setup path tree))
                (create_unlisted setup input prepared path tree) _ (IsNew s input)
                (lift-IsRead (check_new_path setup path tree))
                (λ done new_path.
                  >>=-SendsOnly (artifacts_from_tree setup tree write)
                    (create_found setup input prepared path) _ (IsNew s input)
                    (artifacts_from_tree-IsRead setup tree write)
                    (λ artifacts listed.
                      >>=-SendsOnly (lift (check_new_id setup prepared.metadata.id artifacts))
                        (send_create setup input prepared path) _ (IsNew s input)
                        (lift-IsRead (check_new_id setup prepared.metadata.id artifacts))
                        (λ done' new_id.
                          send_create-IsNew input prepared path tree artifacts done' s _ fetched
                            listed checked (ground arith) (ground arith))))))
