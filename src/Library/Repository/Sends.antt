-- ===== src/Library/Repository/Sends.antt =====
-- Lemmas on the requests that operations of `GitHubArtifactRepository` send.
use artifact_dev_toolkit.Common.{
  ◌≡◌, refl, ap, ◌∙◌, true, Option, none, some, List, [], ◌∷◌, arith, find, ◌⊎◌, inl, inr, ok,
  Result-cases,
}
use artifact_dev_toolkit.Common.Text.{Text, text_eq, text_eq_iff}
use artifact_dev_toolkit.Library.Contract.{Artifact}
use artifact_dev_toolkit.Library.Branch.{
  Write, put, PutRequest, Setup, State, Operation, ◌>>=◌, is_text, has_artifact_id,
}
use artifact_dev_toolkit.Library.Branch.Reads.{IsRead, >>=-cases}
use artifact_dev_toolkit.Library.Repository.{write_credential, write_contents}

-- At most one write was sent, and one that was sent satisfies the condition.
abbrev pub SendsOnly : State → State → (Write → Type 0) → Type 0
SendsOnly before after P =
    (after.sent ≡ before.sent) ⊎ ((w : Write) × (after.sent ≡ w ∷ before.sent) × P w)

-- What follows a reading operation decides what is sent.
pub >>=-SendsOnly :
    {A B : Type 0} (m : Operation A) (f : A → Operation B) (s : State) (P : Write → Type 0)
    → IsRead m
    → ((a : A) → (m s).0 ≡ ok a → SendsOnly (m s).1 (f a (m s).1).1 P)
    → SendsOnly s ((m >>= f) s).1 P
>>=-SendsOnly m f s P h k = elim (>>=-cases m f s h) [
  | inl silent ↦ inl silent
  | inr (a, done, same, quiet) ↦ elim (k a done) [
    | inl silent ↦ inl (ap (λ x. x.1.sent) same ∙ silent ∙ quiet)
    | inr (w, sent, p) ↦ inr (w, ap (λ x. x.1.sent) same ∙ sent ∙ ap (λ ws. w ∷ ws) quiet, p)
  ]
]

pub find_id :
    (id : Text) (artifacts : List Artifact) (artifact : Artifact)
    → find (has_artifact_id id) artifacts ≡ some artifact
    → text_eq artifact.metadata.id id ≡ true
find_id id [] artifact h = absurd (cc)
find_id id (other ∷ artifacts) artifact h = ground (arith, find_id id artifacts artifact)

pub is_text-some : (o : Option Text) (t : Text) → is_text o t ≡ true → o ≡ some t
is_text-some none t h = cc
is_text-some (some s) t h = ap some ((text_eq_iff s t).0 h)

module _ (setup : Setup) where
  pub write_credential-IsRead : IsRead (write_credential setup)
  unfolding write_credential
  write_credential-IsRead s = refl

  pub write_contents-SendsOnly :
      (request : PutRequest) (id : Text) (s : State)
      → ((write_contents setup request id s).1.sent ≡ s.sent)
        ⊎ ((write_contents setup request id s).1.sent ≡ put request ∷ s.sent)
  unfolding write_contents
  write_contents-SendsOnly request id s = elim (Result-cases (write_credential setup s).0) [
    | inl (e, failed) ↦ inl (ground (arith, write_credential-IsRead s))
    | inr (token, asked) ↦ inr (ground (arith, write_credential-IsRead s))
  ]
