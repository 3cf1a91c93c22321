-- ===== src/Library/Requests/Attempts.antt =====
-- The retries of `githubJson` in lib/artifact-repository.ts.
use artifact_dev_toolkit.Common.{
  ℕ, zero, suc, ◌+◌, ◌-◌, ◌≤◌, ◌<◌, ◌≡◌, refl, Option, none, some, length, All, arith, ltb, ◌==◌,
  Bool-cases, ◌⊎◌, inl, inr, Result, ok, Result-cases, subst,
}
use artifact_dev_toolkit.Library.Requests.{
  RepositoryError, Provider, Capability, Kept, credential, Attempt, no_response, responded,
  retry_delay, Request, Verdict, done, again, judge, attempt_from, github_json,
}

retry_delay-le : (wait : Option ℕ) (attempt : ℕ) → retry_delay wait attempt ≤ 5000
unfolding retry_delay
retry_delay-le none attempt = ground arith
retry_delay-le (some milliseconds) attempt = ground arith

Verdict-cases :
    {A : Type 0} (v : Verdict A)
    → ((r : Result RepositoryError A) × (v ≡ done r))
      ⊎ ((status : Option ℕ) × (delay : ℕ) × (v ≡ again status delay))
Verdict-cases (done r) = inl (r, refl)
Verdict-cases (again status delay) = inr (status, delay, refl)

module _ {A : Type 0} (request : Request) where
  judge-again :
      (attempt : ℕ) (a : Attempt A) (status : Option ℕ) (delay : ℕ)
      → judge request attempt a ≡ again status delay
      → delay ≤ 5000
  unfolding judge
  judge-again attempt no_response status delay h = ground (arith, retry_delay-le none attempt)
  judge-again attempt (responded response) status delay h =
      ground (arith, retry_delay-le none attempt, retry_delay-le response.retry_after attempt)

  attempt_from-waits :
      (reply : ℕ → Attempt A) (left attempt : ℕ)
      → (length (attempt_from request reply left attempt).1 ≤ left)
        × (length (attempt_from request reply left attempt).1 ≤ 3 - attempt)
        × All (λ delay. delay ≤ 5000) (attempt_from request reply left attempt).1
  unfolding attempt_from
  attempt_from-waits reply zero attempt = ground arith
  attempt_from-waits reply (suc left) attempt =
      elim (Verdict-cases (judge request attempt (reply attempt))) [
        | inl (r, e) ↦ ground arith
        | inr (status, delay, e) ↦ ground (
          arith,
          judge-again attempt (reply attempt) status delay e,
          attempt_from-waits reply left (attempt + 1),
        )
      ]

  -- The attempt whose answer the loop gives: those before it were to be tried again.
  pub record IsAnswered (reply : ℕ → Attempt A) (from : ℕ) (value : A) : Type 0 where
    pub attempt : ℕ
    pub counted : (from ≤ attempt) × (attempt ≤ 3)
    pub answer : judge request attempt (reply attempt) ≡ done (ok value)
    pub earlier :
        (m : ℕ)
        → from ≤ m
        → m < attempt
        → (status : Option ℕ) × (delay : ℕ) × (judge request m (reply m) ≡ again status delay)

  earlier_step :
      (reply : ℕ → Attempt A) (from attempt : ℕ) (status : Option ℕ) (delay : ℕ)
      → judge request from (reply from) ≡ again status delay
      → ((m : ℕ)
          → from + 1 ≤ m
          → m < attempt
          → (status : Option ℕ) × (delay : ℕ) × (judge request m (reply m) ≡ again status delay))
      → (m : ℕ) → from ≤ m
      → m < attempt
      → (status : Option ℕ) × (delay : ℕ) × (judge request m (reply m) ≡ again status delay)
  earlier_step reply from attempt status delay e later_ m low high = elim (Bool-cases (m == from)) [
    | inl same ↦
        let k : from ≡ m = ground arith in
        subst
          (λ n.
            (status : Option ℕ) × (delay : ℕ) × (judge request n (reply n) ≡ again status delay))
          k (status, delay, e)
    | inr other ↦ later_ m (ground arith) high
  ]

  attempt_from-IsAnswered :
      (reply : ℕ → Attempt A) (left attempt : ℕ) (value : A)
      → attempt ≤ 3
      → (attempt_from request reply left attempt).0 ≡ ok value
      → IsAnswered reply attempt value
  unfolding attempt_from
  attempt_from-IsAnswered reply zero attempt value bound h = absurd (cc)
  attempt_from-IsAnswered reply (suc left) attempt value bound h =
      elim (Verdict-cases (judge request attempt (reply attempt))) [
        | inl (r, e) ↦ record {
          attempt = attempt;
          counted = (omega arith, bound);
          answer = ground arith;
          earlier = λ m low high. absurd (omega arith);
        }
        | inr (status, delay, e) ↦ elim (Bool-cases (ltb attempt 3)) [
          | inr last ↦ absurd (ground arith)
          | inl more ↦
              let next =
                attempt_from-IsAnswered reply left (attempt + 1) value (ground arith)
                  (ground arith) in
              record {
                attempt = next.attempt;
                counted = (omega (arith, next.counted.0), next.counted.1);
                answer = next.answer;
                earlier = earlier_step reply attempt next.attempt status delay e next.earlier;
              }
        ]
      ]

  -- A read waits at most twice, at most five seconds each time, and an answer is that of one of three
  -- attempts, of which all before it were to be tried again.
  pub github_json-IsAnswered :
      (provider : Provider) (capability : Capability) (reply : ℕ → Attempt A) (kept : Kept)
      → (length (github_json request provider capability reply kept).0.1 ≤ 2)
        × All (λ delay. delay ≤ 5000) (github_json request provider capability reply kept).0.1
        × ((value : A)
            → (github_json request provider capability reply kept).0.0 ≡ ok value
            → IsAnswered reply 1 value)
  unfolding github_json
  github_json-IsAnswered provider capability reply kept =
      elim (Result-cases (credential provider capability kept).0) [
        | inl (e, failed) ↦ (ground arith, ground arith, λ value h. absurd (ground arith))
        | inr (token, asked) ↦ (
          ground (arith, attempt_from-waits reply 3 1),
          ground (arith, attempt_from-waits reply 3 1),
          λ value h. attempt_from-IsAnswered reply 3 1 value (omega arith) (ground arith),
        )
      ]
