-- ===== src/Library/Branch/Reads.antt =====
-- Lemmas on the reading of a branch in lib/artifact-repository.ts.
use artifact_dev_toolkit.Common.{
  ℕ, ◌≡◌, refl, Bool, true, false, List, [], ◌∷◌, arith, filter, if◌then◌else◌, ◌⊎◌, inl, inr,
  Result, ok, err, Result-cases, not, ◌||◌, is_some,
}
use artifact_dev_toolkit.Common.Text.{Text}
use artifact_dev_toolkit.Library.Layout.{classify_artifact_path}
use artifact_dev_toolkit.Library.Contract.{Artifact}
use artifact_dev_toolkit.Library.Requests.{
  RepositoryError, Capability, Attempt, Request, bad_content,
}
use artifact_dev_toolkit.Library.Branch.{
  Entry, Setup, State, Operation, ◌>>=◌, lift, request_json, fetch_tree, fetch_blob,
  artifact_from_entry, artifacts_from_entries, artifacts_from_tree, tree_entries, tree_request,
  blob_text, blob_request, parse_stored, option_text, given, is_candidate, unique_or_error,
}

-- Whatever its result, the operation sends no write.
abbrev pub IsRead : {A : Type 0} → Operation A → Type 0
IsRead m = (s : State) → (m s).1.sent ≡ s.sent

pub lift-IsRead : {A : Type 0} (r : Result RepositoryError A) → IsRead (lift r)
lift-IsRead r s = refl

if-IsRead :
    {A : Type 0} (b : Bool) (m n : Operation A) → IsRead m → IsRead n → IsRead (if b then m else n)
if-IsRead true m n h k = h
if-IsRead false m n h k = k

pub >>=-IsRead :
    {A B : Type 0} (m : Operation A) (f : A → Operation B)
    → IsRead m
    → ((a : A) → IsRead (f a))
    → IsRead (m >>= f)
>>=-IsRead m f h k s = elim (Result-cases (m s).0) [
  | inl (e, failed) ↦ ground (arith, h s)
  | inr (a, done) ↦ ground (arith, h s, k a (m s).1)
]

-- An operation that goes on after a reading one either stops with its error, or goes on with its
-- value; in both cases no write was sent before.
pub >>=-cases :
    {A B : Type 0} (m : Operation A) (f : A → Operation B) (s : State)
    → IsRead m
    → ((m >>= f) s).1.sent ≡ s.sent
      ⊎ ((a : A) × ((m s).0 ≡ ok a) × ((m >>= f) s ≡ f a (m s).1) × ((m s).1.sent ≡ s.sent))
>>=-cases m f s h = elim (Result-cases (m s).0) [
  | inl (e, failed) ↦ inl (ground (arith, h s))
  | inr (a, done) ↦ inr (a, done, ground arith, h s)
]

module _ (setup : Setup) where
  request_json-IsRead :
      {A : Type 0} (request : Request) (reply : ℕ → Attempt A) (capability : Capability)
      → IsRead (request_json setup request reply capability)
  unfolding request_json
  request_json-IsRead request reply capability s = refl

  pub fetch_tree-IsRead : (capability : Capability) → IsRead (fetch_tree setup capability)
  unfolding fetch_tree
  fetch_tree-IsRead capability =
      >>=-IsRead _ (λ response. lift (tree_entries setup response))
        (request_json-IsRead (tree_request setup) setup.tree capability)
        (λ response. lift-IsRead (tree_entries setup response))

  fetch_blob-IsRead :
      (sha path : Text) (capability : Capability) → IsRead (fetch_blob setup sha path capability)
  unfolding fetch_blob
  fetch_blob-IsRead sha path capability =
      >>=-IsRead _ (λ blob. lift (blob_text setup blob))
        (request_json-IsRead (blob_request setup path) (setup.blob sha) capability)
        (λ blob. lift-IsRead (blob_text setup blob))

  artifact_from_entry-IsRead :
      (entry : Entry) (capability : Capability)
      → IsRead (artifact_from_entry setup entry capability)
  unfolding artifact_from_entry
  artifact_from_entry-IsRead entry capability =
      let path = option_text entry.path in
      let sha = option_text entry.sha in
      let parse : Text → Operation Artifact = λ raw. lift (parse_stored setup raw path) in
      if-IsRead (not (given entry.path) || not (given entry.sha)) _ _
        (lift-IsRead {A = Artifact} (err bad_content))
        (if-IsRead (not (is_some (classify_artifact_path path))) _ _
          (lift-IsRead {A = Artifact} (err bad_content))
          (>>=-IsRead (fetch_blob setup sha path capability) parse
            (fetch_blob-IsRead sha path capability)
            (λ raw. lift-IsRead (parse_stored setup raw path))))

  artifacts_from_entries-IsRead :
      (entries : List Entry) (capability : Capability)
      → IsRead (artifacts_from_entries setup entries capability)
  unfolding artifacts_from_entries
  artifacts_from_entries-IsRead [] capability = lift-IsRead {A = List Artifact} (ok [])
  artifacts_from_entries-IsRead (entry ∷ entries) capability =
      >>=-IsRead (artifact_from_entry setup entry capability)
        (λ artifact. artifacts_from_entries setup entries capability >>= λ artifacts.
          lift (ok (artifact ∷ artifacts)))
        (artifact_from_entry-IsRead entry capability)
        (λ artifact.
          >>=-IsRead (artifacts_from_entries setup entries capability)
            (λ artifacts. lift (ok (artifact ∷ artifacts)))
            (artifacts_from_entries-IsRead entries capability)
            (λ artifacts. lift-IsRead (ok (artifact ∷ artifacts))))

  pub artifacts_from_tree-IsRead :
      (tree : List Entry) (capability : Capability)
      → IsRead (artifacts_from_tree setup tree capability)
  unfolding artifacts_from_tree
  artifacts_from_tree-IsRead tree capability =
      >>=-IsRead (artifacts_from_entries setup (filter is_candidate tree) capability)
        (λ artifacts. lift (unique_or_error setup artifacts))
        (artifacts_from_entries-IsRead (filter is_candidate tree) capability)
        (λ artifacts. lift-IsRead (unique_or_error setup artifacts))
