-- ===== src/Library/Selection.antt =====
-- `createArtifactRepository` of lib/artifact-repository.ts: the repository that a granted access opens.
use artifact_dev_toolkit.Common.{
  Bool, true, not, ◌||◌, Option, none, some, if◌then◌else◌, Result, ok, err, ◌≡◌, arith,
  Option-cases, inl, inr, [],
}
use artifact_dev_toolkit.Common.Text.{Text, codes, text_eq, is_truthy, to_lower_case}
use artifact_dev_toolkit.Common.Json.{is_safe_integer}
use artifact_dev_toolkit.Auth.Configuration.{Environment}
use artifact_dev_toolkit.Auth.Gates.{github_backend, file_backend, get_artifact_repository_backend}
use artifact_dev_toolkit.Auth.Repository.{Access}
use artifact_dev_toolkit.Library.Requests.{RepositoryError, bad_configuration}

-- The working directory, or a branch of a repository on GitHub with its owner and name.
pub data Repository : Type 0 where
  file_repository : Repository
  github_repository : Text → Text → Text → Repository

abbrev pub text_of : Option Text → Text
text_of none = []
text_of (some value) = value

-- `value ?? fallback`
abbrev pub or_else : Option Text → Text → Text
or_else none fallback = fallback
or_else (some value) fallback = value

abbrev pub is_same_name : Text → Text → Bool
is_same_name a b = text_eq (to_lower_case a) (to_lower_case b)

unfoldable pub open_github : Environment → Access → Result RepositoryError Repository
open_github env access =
    let owner = text_of (env (codes "GITHUB_ARTIFACT_REPOSITORY_OWNER")) in
    let repo = text_of (env (codes "GITHUB_ARTIFACT_REPOSITORY_NAME")) in
    let branch = or_else (env (codes "GITHUB_ARTIFACT_REPOSITORY_BRANCH")) (codes "main") in
    if not (is_truthy owner) || not (is_truthy repo) || not (is_truthy branch)
    then err bad_configuration
    else if not (is_same_name access.owner owner)
        || not (is_same_name access.repo repo)
        || not (is_safe_integer access.repository_id)
    then err bad_configuration
    else ok (github_repository access.owner access.repo branch)

unfoldable pub create_artifact_repository : Environment → Access → Result RepositoryError Repository
create_artifact_repository env access = elim (get_artifact_repository_backend env) [
  | none ↦ err bad_configuration
  | some file_backend ↦ ok file_repository
  | some github_backend ↦ open_github env access
]

-- A repository on GitHub that is opened has the owner and the name of the access, which are those of the
-- configuration up to case.
pub create_artifact_repository_named :
    (env : Environment) (access : Access) (owner repo branch : Text)
    → create_artifact_repository env access ≡ ok (github_repository owner repo branch)
    → (owner ≡ access.owner)
      × (repo ≡ access.repo)
      × (is_same_name owner (text_of (env (codes "GITHUB_ARTIFACT_REPOSITORY_OWNER"))) ≡ true)
      × (is_same_name repo (text_of (env (codes "GITHUB_ARTIFACT_REPOSITORY_NAME"))) ≡ true)
unfolding create_artifact_repository open_github
create_artifact_repository_named env access owner repo branch h =
    elim (Option-cases (get_artifact_repository_backend env)) [
      | inl e ↦ absurd (ground arith)
      | inr (file_backend, e) ↦ absurd (ground arith)
      | inr (github_backend, e) ↦ ground (arith, h)
    ]
