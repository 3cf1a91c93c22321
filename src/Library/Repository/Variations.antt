-- ===== src/Library/Repository/Variations.antt =====
-- `createVariation` of `GitHubArtifactRepository` in lib/artifact-repository.ts.
use artifact_dev_toolkit.Common.{
  ℕ, ◌≡◌, refl, false, not, Option, none, some, List, ◌++◌, any, if◌then◌else◌, Result, ok, err,
  inl, inr, arith,
}
use artifact_dev_toolkit.Common.Text.{Text, codes, text_eq, trim}
use artifact_dev_toolkit.Library.Layout.{canonical_artifact_write_path}
use artifact_dev_toolkit.Library.Contract.{ArtifactMetadata, Artifact}
use artifact_dev_toolkit.Library.Requests.{RepositoryError, write_validation, write}
use artifact_dev_toolkit.Library.Branch.{
  Entry, Write, put, PutRequest, Setup, State, Operation, ◌>>=◌, lift, is_file, has_artifact_id,
  fetch_tree, artifacts_from_tree,
}
use artifact_dev_toolkit.Library.Branch.Reads.{
  lift-IsRead, fetch_tree-IsRead, artifacts_from_tree-IsRead,
}
use artifact_dev_toolkit.Library.Repository.{
  PreparedWrite, WriteResult, is_actor, prepare_artifact_write, write_contents, check_new_path,
  check_new_id,
}
use artifact_dev_toolkit.Library.Repository.Sends.{
  SendsOnly, >>=-SendsOnly, write_contents-SendsOnly,
}
use artifact_dev_toolkit.Library.Variation.{prepare_variation}

-- `timestamp` and `bytes` are what the generation of the variation gives.
pub record VariationInput : Type 0 where
  pub source : Artifact
  pub body : Text
  pub title : Option Text
  pub actor_login : Text
  pub timestamp : Text
  pub bytes : List ℕ

-- `Create variation ${id} from ${source.id} (requested by @${actorLogin})`
unfoldable pub variation_message : VariationInput → Text → Text
variation_message input id =
    codes "Create variation "
    ++ (id
        ++ (codes " from "
            ++ (input.source.metadata.id
                ++ (codes " (requested by @" ++ (input.actor_login ++ codes ")")))))

module _ (setup : Setup) where
  -- The path is that of the metadata before and after they are normalised.
  unfoldable pub checked_target :
      ArtifactMetadata → PreparedWrite → Result RepositoryError (PreparedWrite × Text)
  checked_target metadata prepared =
      elim (canonical_artifact_write_path metadata.type metadata.id) [
        | none ↦ err write_validation
        | some path ↦
            elim (canonical_artifact_write_path prepared.metadata.type prepared.metadata.id) [
              | none ↦ err write_validation
              | some expected ↦
                  if text_eq path expected then ok (prepared, path) else err write_validation
            ]
      ]

  unfoldable pub check_variation : VariationInput → Result RepositoryError (PreparedWrite × Text)
  check_variation input =
      if not (is_actor input.actor_login)
      then err write_validation
      else elim (prepare_variation input.source input.title input.timestamp input.bytes) [
        | err e ↦ err e
        | ok metadata ↦ elim (prepare_artifact_write setup metadata (trim input.body)) [
          | err e ↦ err e
          | ok prepared ↦ checked_target metadata prepared
        ]
      ]

  unfoldable pub send_variation :
      VariationInput → PreparedWrite → Text → Unit {0} → Operation WriteResult
  send_variation input prepared path new_id =
      write_contents setup
        (record {
          path = path;
          content = prepared.markdown;
          message = variation_message input prepared.metadata.id;
          sha = none;
        })
        prepared.metadata.id

  unfoldable pub variation_found :
      VariationInput → PreparedWrite → Text → List Artifact → Operation WriteResult
  variation_found input prepared path artifacts =
      lift (check_new_id setup prepared.metadata.id artifacts)
      >>= send_variation input prepared path

  unfoldable pub variation_unlisted :
      VariationInput → PreparedWrite → Text → List Entry → Unit {0} → Operation WriteResult
  variation_unlisted input prepared path tree new_path =
      artifacts_from_tree setup tree write >>= variation_found input prepared path

  unfoldable pub variation_listed :
      VariationInput → PreparedWrite → Text → List Entry → Operation WriteResult
  variation_listed input prepared path tree =
      lift (check_new_path setup path tree) >>= variation_unlisted input prepared path tree

  unfoldable pub variation_prepared : VariationInput → PreparedWrite × Text → Operation WriteResult
  variation_prepared input target =
      fetch_tree setup write >>= variation_listed input target.0 target.1

  unfoldable pub create_variation : VariationInput → Operation WriteResult
  create_variation input = lift (check_variation input) >>= variation_prepared input

  -- What a variation from this state found on the branch, and what it sends.
  pub record IsNewVariation (s : State) (input : VariationInput) (w : Write) : Type 0 where
    pub prepared : PreparedWrite
    pub path : Text
    pub checked : check_variation input ≡ ok (prepared, path)
    pub tree : List Entry
    pub read_tree : (fetch_tree setup write s).0 ≡ ok tree
    pub new_path : any (is_file path) tree ≡ false
    pub artifacts : List Artifact
    pub read_artifacts :
        (artifacts_from_tree setup tree write (fetch_tree setup write s).1).0 ≡ ok artifacts
    pub new_id : any (has_artifact_id prepared.metadata.id) artifacts ≡ false
    pub request : PutRequest
    pub sends : w ≡ put request
    pub target : (request.path ≡ path) × (request.sha ≡ none)
    pub content : request.content ≡ prepared.markdown

  send_variation-IsNewVariation :
      (input : VariationInput) (prepared : PreparedWrite) (path : Text) (tree : List Entry)
      (artifacts : List Artifact) (done : Unit {0}) (s t : State)
      → (fetch_tree setup write s).0 ≡ ok tree
      → (artifacts_from_tree setup tree write (fetch_tree setup write s).1).0 ≡ ok artifacts
      → check_variation input ≡ ok (prepared, path)
      → any (is_file path) tree ≡ false
      → any (has_artifact_id prepared.metadata.id) artifacts ≡ false
      → SendsOnly t (send_variation input prepared path done t).1 (IsNewVariation s input)
  unfolding send_variation
  send_variation-IsNewVariation input prepared path tree artifacts done s t read_tree read_artifacts
        checked new_path new_id =
      elim (write_contents-SendsOnly setup _ prepared.metadata.id t) [
        | inl silent ↦ inl silent
        | inr sent ↦ inr (
          _,
          sent,
          record {
            prepared = prepared;
            path = path;
            checked = checked;
            tree = tree;
            read_tree = read_tree;
            new_path = new_path;
            artifacts = artifacts;
            read_artifacts = read_artifacts;
            new_id = new_id;
            request = _;
            sends = refl;
            target = (refl, refl);
            content = refl;
          },
        )
      ]

  -- Whatever comes of it, a variation sends at most one write: a new file, without a sha, at the path of
  -- the id that was made for it, where the tree of the branch shows no file, and no artifact read of it has that id.
  pub create_variation-IsNewVariation :
      (input : VariationInput) (s : State)
      → SendsOnly s (create_variation input s).1 (IsNewVariation s input)
  unfolding create_variation variation_prepared variation_listed variation_unlisted variation_found
  create_variation-IsNewVariation input s =
      >>=-SendsOnly (lift (check_variation input)) (variation_prepared input) s
        (IsNewVariation s input) (lift-IsRead (check_variation input))
        (λ (prepared, path) checked.
          >>=-SendsOnly (fetch_tree setup write) (variation_listed input prepared path) _
            (IsNewVariation s input) (fetch_tree-IsRead setup write)
            (λ tree fetched.
              >>=-SendsOnly (lift (check_new_path setup path tree))
                (variation_unlisted input prepared path tree) _ (IsNewVariation s input)
                (lift-IsRead (check_new_path setup path tree))
                (λ done new_path.
                  >>=-SendsOnly (artifacts_from_tree setup tree write)
                    (variation_found input prepared path) _ (IsNewVariation s input)
                    (artifacts_from_tree-IsRead setup tree write)
                    (λ artifacts listed.
                      >>=-SendsOnly (lift (check_new_id setup prepared.metadata.id artifacts))
                        (send_variation input prepared path) _ (IsNewVariation s input)
                        (lift-IsRead (check_new_id setup prepared.metadata.id artifacts))
                        (λ done' new_id.
                          send_variation-IsNewVariation input prepared path tree artifacts done' s _
                            fetched listed checked (ground arith) (ground arith))))))
