-- ===== src/Library/Catalogue/Loads.antt =====
-- Catalogues and reports of lib/artifact-repository.ts.
use artifact_dev_toolkit.Common.{
  ℕ, suc, ◌+◌, ◌≤◌, ◌≡◌, refl, ◌∙◌, true, Option, some, List, [], ◌∷◌, length, find, filter, arith,
  Option-cases, Result-cases, inl, inr, ok,
}
use artifact_dev_toolkit.Common.Text.{Text}
use artifact_dev_toolkit.Common.Sorting.{sort_by}
use artifact_dev_toolkit.Library.Contract.{Artifact, validate_unique_artifact_ids}
use artifact_dev_toolkit.Library.Requests.{read}
use artifact_dev_toolkit.Library.Branch.{
  Entry, Setup, State, Operation, ◌>>=◌, lift, is_file, is_candidate, artifacts_from_tree,
  artifacts_from_entries, unique_or_error,
}
use artifact_dev_toolkit.Library.Report.{Finding, RepositoryValidationReport, report_of}
use artifact_dev_toolkit.Library.Report.Counts.{AreIndexed, report_of-counts}
use artifact_dev_toolkit.Library.Catalogue.{
  Reads, RepositoryCatalogue, is_revision, resolved, fetch_revision, file_sha, file_shas_of,
  load_catalogue, diagnose_entry, diagnose_entries, diagnose_catalogue, is_title_after,
}

-- An operation that goes on after another gave a value, where both did.
>>=-eq-ok :
    {A B : Type 0} (m : Operation A) (f : A → Operation B) (s : State) (b : B)
    → ((m >>= f) s).0 ≡ ok b
    → (a : A) × ((m s).0 ≡ ok a) × ((f a (m s).1).0 ≡ ok b)
>>=-eq-ok m f s b h = elim (Result-cases (m s).0) [
  | inl (e, failed) ↦ absurd (ground (arith, h))
  | inr (a, done) ↦ (a, done, ground (arith, h))
]

module _ (setup : Setup) (reads : Reads) where
  diagnose_entries-AreIndexed :
      (n : ℕ) (entries : List Entry) (s : State) (results : List (ℕ × Finding))
      → (diagnose_entries setup reads n entries s).0 ≡ ok results
      → AreIndexed n results × (length results ≡ length entries)
  unfolding diagnose_entries
  diagnose_entries-AreIndexed n [] s results h = ground (arith, h)
  diagnose_entries-AreIndexed n (entry ∷ entries) s results h =
      let (finding, diagnosed, rest) =
        >>=-eq-ok (diagnose_entry setup reads entry)
          (λ finding. diagnose_entries setup reads (suc n) entries >>= λ findings.
            lift (ok ((n, finding) ∷ findings)))
          s results h in
      let t = (diagnose_entry setup reads entry s).1 in
      let (findings, others, last) =
        >>=-eq-ok (diagnose_entries setup reads (suc n) entries)
          (λ findings. lift (ok ((n, finding) ∷ findings))) t results rest in
      let (indexed, size) = diagnose_entries-AreIndexed (suc n) entries t findings others in
      let same : results ≡ (n, finding) ∷ findings = ground (arith, last) in
      rw same ((refl, indexed), omega (arith, size))

  -- A report that is given is about the candidates of the tree of its revision: it counts each of them
  -- once, as valid or as invalid, and shows at most 50 diagnostics.
  pub diagnose_catalogue-counts :
      (revision : Option Text) (s : State) (report : RepositoryValidationReport)
      → (diagnose_catalogue setup reads revision s).0 ≡ ok report
      → (tree : List Entry) × (t : State) × ((fetch_revision setup reads read report.revision t).0
          ≡ ok tree)
        × (report.valid_count + report.invalid_count ≡ length (filter is_candidate tree))
        × (length report.errors ≤ 50)
  unfolding diagnose_catalogue report_of
  diagnose_catalogue-counts revision s report h =
      let rest : Text → Operation RepositoryValidationReport = λ at.
        fetch_revision setup reads read at >>= λ tree.
        diagnose_entries setup reads 0 (filter is_candidate tree) >>= λ results.
        lift (ok (report_of at results)) in
      let (at, resolved', next) = >>=-eq-ok (resolved setup reads revision) rest s report h in
      let t = (resolved setup reads revision s).1 in
      let (tree, fetched, next') =
        >>=-eq-ok (fetch_revision setup reads read at)
          (λ tree. diagnose_entries setup reads 0 (filter is_candidate tree) >>= λ results.
            lift (ok (report_of at results)))
          t report next in
      let u = (fetch_revision setup reads read at t).1 in
      let (results, diagnosed, last) =
        >>=-eq-ok (diagnose_entries setup reads 0 (filter is_candidate tree))
          (λ results. lift (ok (report_of at results))) u report next' in
      let (indexed, size) =
        diagnose_entries-AreIndexed 0 (filter is_candidate tree) u results diagnosed in
      let same : report ≡ report_of at results = ground (arith, last) in
      let (counted, few, shown) = report_of-counts at results indexed in
      rw same (tree, t, fetched, counted ∙ size, few)

  -- The shas of the artifacts, in their order: each is that of the first file at the artifact's path.
  abbrev pub AreShas : List Entry → List Artifact → List (Text × Text) → Type 0
  AreShas tree [] [] = Unit
  AreShas tree (artifact ∷ artifacts) ((id, sha) ∷ shas) =
      (id ≡ artifact.metadata.id)
      × ((entry : Entry) × (find (is_file artifact.path) tree ≡ some entry)
          × (entry.sha ≡ some sha)
          × (is_revision sha ≡ true))
      × AreShas tree artifacts shas
  AreShas tree _ _ = ⊥

  file_sha-ok :
      (tree : List Entry) (artifact : Artifact) (sha : Text)
      → file_sha setup reads tree artifact ≡ ok sha
      → (entry : Entry) × (find (is_file artifact.path) tree ≡ some entry)
        × (entry.sha ≡ some sha)
        × (is_revision sha ≡ true)
  unfolding file_sha
  file_sha-ok tree artifact sha h = elim (Option-cases (find (is_file artifact.path) tree)) [
    | inl missing ↦ absurd (ground arith)
    | inr (entry, there) ↦ elim (Option-cases entry.sha) [
      | inl none' ↦ absurd (ground arith)
      | inr (found, is) ↦ (entry, there, ground arith, ground arith)
    ]
  ]

  file_shas_of-ok :
      (tree : List Entry) (artifacts : List Artifact) (shas : List (Text × Text))
      → file_shas_of setup reads tree artifacts ≡ ok shas
      → AreShas tree artifacts shas
  unfolding file_shas_of
  file_shas_of-ok tree [] shas h = let same : shas ≡ [] = ground arith in rw same tt
  file_shas_of-ok tree (artifact ∷ artifacts) shas h =
      elim (Result-cases (file_sha setup reads tree artifact)) [
        | inl (e, failed) ↦ absurd (ground arith)
        | inr (sha, is) ↦ elim (Result-cases (file_shas_of setup reads tree artifacts)) [
          | inl (e, failed) ↦ absurd (ground arith)
          | inr (rest, are) ↦
              let same : shas ≡ (artifact.metadata.id, sha) ∷ rest = ground arith in
              rw same
                (refl, file_sha-ok tree artifact sha is, file_shas_of-ok tree artifacts rest are)
        ]
      ]

  unique_or_error-ok :
      (artifacts others : List Artifact)
      → unique_or_error setup artifacts ≡ ok others
      → validate_unique_artifact_ids others ≡ ok tt
  unique_or_error-ok artifacts others h =
      elim (Result-cases (validate_unique_artifact_ids artifacts)) [
        | inl (e, failed) ↦ absurd (ground arith)
        | inr (done, passed) ↦ let same : others ≡ artifacts = ground arith in rw same passed
      ]

  artifacts_from_tree_unique :
      (tree : List Entry) (s : State) (artifacts : List Artifact)
      → (artifacts_from_tree setup tree read s).0 ≡ ok artifacts
      → validate_unique_artifact_ids artifacts ≡ ok tt
  unfolding artifacts_from_tree
  artifacts_from_tree_unique tree s artifacts h =
      let (found, listed, checked) =
        >>=-eq-ok (artifacts_from_entries setup (filter is_candidate tree) read)
          (λ found. lift (unique_or_error setup found)) s artifacts h in
      unique_or_error-ok found artifacts checked

  -- A catalogue that is loaded has the artifacts of the tree of its revision, in the order of their
  -- titles; the check of unique ids accepts them, and for each there is the sha of the first file at its path, which
  -- is a revision.
  pub load_catalogue-shas :
      (revision : Option Text) (s : State) (catalogue : RepositoryCatalogue)
      → (load_catalogue setup reads revision s).0 ≡ ok catalogue
      → (tree : List Entry) × (artifacts : List Artifact) × (t : State) × (u : State)
        × ((fetch_revision setup reads read catalogue.revision t).0 ≡ ok tree)
        × ((artifacts_from_tree setup tree read u).0 ≡ ok artifacts)
        × (validate_unique_artifact_ids artifacts ≡ ok tt)
        × (catalogue.artifacts ≡ sort_by (is_title_after setup reads) artifacts)
        × AreShas tree artifacts catalogue.file_shas
  unfolding load_catalogue
  load_catalogue-shas revision s catalogue h =
      let given : Text → List Artifact → List (Text × Text) → RepositoryCatalogue =
        λ at artifacts shas. record {
          artifacts = sort_by (is_title_after setup reads) artifacts;
          revision = at;
          file_shas = shas;
        } in
      let collect : Text → List Entry → List Artifact → Operation RepositoryCatalogue =
        λ at tree artifacts. lift (file_shas_of setup reads tree artifacts) >>= λ shas.
        lift (ok (given at artifacts shas)) in
      let (at, resolved', next) =
        >>=-eq-ok (resolved setup reads revision)
          (λ at. fetch_revision setup reads read at >>= λ tree.
            artifacts_from_tree setup tree read >>= collect at tree)
          s catalogue h in
      let t = (resolved setup reads revision s).1 in
      let (tree, fetched, next') =
        >>=-eq-ok (fetch_revision setup reads read at)
          (λ tree. artifacts_from_tree setup tree read >>= collect at tree) t catalogue next in
      let u = (fetch_revision setup reads read at t).1 in
      let (artifacts, listed, next'') =
        >>=-eq-ok (artifacts_from_tree setup tree read) (collect at tree) u catalogue next' in
      let v = (artifacts_from_tree setup tree read u).1 in
      let (shas, are, last) =
        >>=-eq-ok (lift (file_shas_of setup reads tree artifacts))
          (λ shas. lift (ok (given at artifacts shas))) v catalogue next'' in
      let same : catalogue ≡ given at artifacts shas = ground (arith, last) in
      rw same (
        tree,
        artifacts,
        t,
        u,
        fetched,
        listed,
        artifacts_from_tree_unique tree u artifacts listed,
        refl,
        file_shas_of-ok tree artifacts shas are,
      )
