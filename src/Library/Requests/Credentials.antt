-- ===== src/Library/Requests/Credentials.antt =====
-- The credentials kept by `GitHubArtifactRepository` of lib/artifact-repository.ts.
use artifact_dev_toolkit.Common.{
  ◌≡◌, refl, ap, none, some, List, [], ◌∷◌, arith, inl, inr, Option-cases, Result,
}
use artifact_dev_toolkit.Common.Text.{Text}
use artifact_dev_toolkit.Library.Requests.{
  Capability, read, write, CredentialError, Kept, Provider, ask_provider, kept_for, keep,
  credential,
}

-- Requests one after another, each with what the provider would give at that time.
abbrev pub ask_all : List (Provider × Capability) → Kept → Kept
ask_all [] kept = kept
ask_all ((provider, capability) ∷ asks) kept = ask_all asks (credential provider capability kept).1

kept_for-keep :
    (capability : Capability) (result : Result CredentialError Text) (kept : Kept)
    → kept_for capability (keep capability result kept) ≡ some result
kept_for-keep read result kept = refl
kept_for-keep write result kept = refl

keep-others :
    (capability other : Capability) (result result' : Result CredentialError Text) (kept : Kept)
    → kept_for other kept ≡ none
    → kept_for capability kept ≡ some result
    → kept_for capability (keep other result' kept) ≡ some result
keep-others read read result result' kept missing there = absurd (ground arith)
keep-others read write result result' kept missing there = there
keep-others write read result result' kept missing there = there
keep-others write write result result' kept missing there = absurd (ground arith)

credential-found :
    (provider : Provider) (capability : Capability) (kept : Kept)
    (result : Result CredentialError Text)
    → kept_for capability kept ≡ some result
    → credential provider capability kept ≡ (result, kept)
unfolding credential
credential-found provider capability kept result there = ground arith

credential-new :
    (provider : Provider) (capability : Capability) (kept : Kept)
    → kept_for capability kept ≡ none
    → credential provider capability kept
      ≡ (ask_provider provider capability, keep capability (ask_provider provider capability) kept)
unfolding credential
credential-new provider capability kept missing = ground arith

credential-keeps :
    (provider : Provider) (other capability : Capability) (kept : Kept)
    (result : Result CredentialError Text)
    → kept_for capability kept ≡ some result
    → kept_for capability (credential provider other kept).1 ≡ some result
credential-keeps provider other capability kept result there =
    elim (Option-cases (kept_for other kept)) [
      | inr (found, e) ↦ rw (credential-found provider other kept found e) there
      | inl e ↦
          rw (credential-new provider other kept e)
            (keep-others capability other result (ask_provider provider other) kept e there)
    ]

ask_all-keeps :
    (asks : List (Provider × Capability)) (capability : Capability) (kept : Kept)
    (result : Result CredentialError Text)
    → kept_for capability kept ≡ some result
    → kept_for capability (ask_all asks kept) ≡ some result
ask_all-keeps [] capability kept result there = there
ask_all-keeps ((provider, other) ∷ asks) capability kept result there =
    ask_all-keeps asks capability (credential provider other kept).1 result
      (credential-keeps provider other capability kept result there)

-- Where no credential of a capability is kept, the provider is asked; every later request for that
-- capability, whatever requests come in between, has the same result, a failure too, whatever the
-- provider would give by then.
pub credential-once :
    (provider later : Provider) (capability : Capability) (kept : Kept)
    (asks : List (Provider × Capability))
    → kept_for capability kept ≡ none
    → ((credential provider capability kept).0 ≡ ask_provider provider capability)
      × ((credential later capability (ask_all asks (credential provider capability kept).1)).0
          ≡ ask_provider provider capability)
credential-once provider later capability kept asks missing =
    let asked = credential-new provider capability kept missing in
    let there : kept_for capability (credential provider capability kept).1
        ≡ some (ask_provider provider capability) =
      rw asked (kept_for-keep capability (ask_provider provider capability) kept) in
    (
      ap (λ x. x.0) asked,
      ap (λ x. x.0)
          (credential-found later capability _ _ (ask_all-keeps asks capability _ _ there)),
    )
