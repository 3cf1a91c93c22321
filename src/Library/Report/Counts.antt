-- ===== src/Library/Report/Counts.antt =====
-- Lemmas on the counts of a report in lib/artifact-repository.ts.
use artifact_dev_toolkit.Common.{
  ℕ, zero, suc, ◌+◌, ◌≤◌, ◌<◌, ◌≡◌, refl, sym, subst, ◌∙◌, Bool, true, false, ◌||◌, List, [], ◌∷◌,
  ◌++◌, length, filter, map, ltb, ◌==◌, if◌then◌else◌, arith, Bool-cases, inl, inr, All, All-append,
  ==_iff,
}
use artifact_dev_toolkit.Common.Text.{Text, text_eq}
use artifact_dev_toolkit.Library.Report.{
  ArtifactValidationDiagnostic, Finding, valid, invalid, found_by, valid_results, invalid_results,
  duplicate_of, duplicates_of, duplicates, ids_of, diagnostics_of, is_index_of, distinct_entries,
  first_errors, report_of,
}

abbrev pub Diagnosed : Type 0
Diagnosed = ℕ × ArtifactValidationDiagnostic

-- The findings have their places, from this one on.
abbrev pub AreIndexed : ℕ → List (ℕ × Finding) → Type 0
AreIndexed k [] = Unit
AreIndexed k ((n, finding) ∷ results) = (n ≡ k) × AreIndexed (suc k) results

-- How many of so many numbers from this one on pass the test.
count : (ℕ → Bool) → ℕ → ℕ → ℕ
count p k zero = 0
count p k (suc len) = let rest = count p (suc k) len in if p k then suc rest else rest

abbrev InRange : ℕ → ℕ → Diagnosed → Type 0
InRange k bound item = (k ≤ item.0) × (item.0 < bound)

count-none : (n k len : ℕ) → n < k → count (λ m. n == m) k len ≡ 0
unfolding count
count-none n k zero h = refl
count-none n k (suc len) h = ground (arith, count-none n (suc k) len)

count-one : (n k len : ℕ) → k ≤ n → n < k + len → count (λ m. n == m) k len ≡ 1
unfolding count
count-one n k zero le lt = absurd (omega arith)
count-one n k (suc len) le lt = ground (arith, count-none n (suc k) len, count-one n (suc k) len)

count-or :
    (n : ℕ) (p : ℕ → Bool) (k len : ℕ)
    → p n ≡ false
    → count (λ m. n == m || p m) k len ≡ count (λ m. n == m) k len + count p k len
unfolding count
count-or n p k zero new = refl
count-or n p k (suc len) new = elim (Bool-cases (n == k)) [
  | inl e ↦
      let same : n ≡ k = (==_iff n k).0 e in
      let new' : p k ≡ false = subst (λ m. p m ≡ false) same new in
      ground (arith, count-or n p (suc k) len new)
  | inr e ↦ ground (arith, count-or n p (suc k) len new)
]

count-absorb :
    (n : ℕ) (p : ℕ → Bool) (k len : ℕ)
    → p n ≡ true
    → count (λ m. n == m || p m) k len ≡ count p k len
unfolding count
count-absorb n p k zero there = refl
count-absorb n p k (suc len) there = elim (Bool-cases (n == k)) [
  | inl e ↦
      let same : n ≡ k = (==_iff n k).0 e in
      let there' : p k ≡ true = subst (λ m. p m ≡ true) same there in
      ground (arith, count-absorb n p (suc k) len there)
  | inr e ↦ ground (arith, count-absorb n p (suc k) len there)
]

count-false : (k len : ℕ) → count (λ m. false) k len ≡ 0
unfolding count
count-false k zero = refl
count-false k (suc len) = count-false (suc k) len

distinct_entries-count :
    (items : List Diagnosed) (len : ℕ)
    → All (InRange 0 len) items
    → distinct_entries items ≡ count (is_index_of items) 0 len
unfolding distinct_entries
distinct_entries-count [] len h = sym (count-false 0 len)
distinct_entries-count ((n, diagnostic) ∷ items) len ((lo, hi), h) =
    elim (Bool-cases (is_index_of items n)) [
      | inl e ↦
          rw e
            (distinct_entries-count items len h ∙ sym (count-absorb n (is_index_of items) 0 len e))
      | inr e ↦ ground (
        arith,
        distinct_entries-count items len h,
        count-or n (is_index_of items) 0 len e,
        count-one n 0 len lo (omega (arith, hi)),
      )
    ]

count-results :
    (p : ℕ → Bool) (k : ℕ) (results : List (ℕ × Finding))
    → AreIndexed k results
    → All (λ (item : Diagnosed). p item.0 ≡ true) (invalid_results results)
    → count p k (length results)
      ≡ length (filter (λ item. p item.0) (valid_results results))
        + length (invalid_results results)
unfolding count invalid_results
count-results p k [] indexed all = refl
count-results p k ((n, valid artifact) ∷ results) (same, indexed) all =
    ground (arith, same, count-results p (suc k) results indexed all)
count-results p k ((n, invalid diagnostic) ∷ results) (same, indexed) (there, all) =
    ground (arith, same, count-results p (suc k) results indexed all)

length-results :
    (results : List (ℕ × Finding))
    → length results ≡ length (valid_results results) + length (invalid_results results)
unfolding invalid_results
length-results [] = refl
length-results ((n, valid artifact) ∷ results) = omega (arith, length-results results)
length-results ((n, invalid diagnostic) ∷ results) = omega (arith, length-results results)

invalid_results-InRange :
    (k bound : ℕ) (results : List (ℕ × Finding))
    → AreIndexed k results
    → k + length results ≤ bound
    → All (InRange 0 bound) (invalid_results results)
unfolding invalid_results
invalid_results-InRange k bound [] indexed le = tt
invalid_results-InRange k bound ((n, valid artifact) ∷ results) (same, indexed) le =
    invalid_results-InRange (suc k) bound results indexed (omega (arith, le))
invalid_results-InRange k bound ((n, invalid diagnostic) ∷ results) (same, indexed) le = (
  (omega arith, omega (arith, same, le)),
  invalid_results-InRange (suc k) bound results indexed (omega (arith, le)),
)

found_by-InRange :
    (q : Text → Bool) (k bound : ℕ) (results : List (ℕ × Finding))
    → AreIndexed k results
    → k + length results ≤ bound
    → All (InRange 0 bound) (map duplicate_of (found_by q results))
found_by-InRange q k bound [] indexed le = tt
found_by-InRange q k bound ((n, invalid diagnostic) ∷ results) (same, indexed) le =
    found_by-InRange q (suc k) bound results indexed (omega (arith, le))
found_by-InRange q k bound ((n, valid artifact) ∷ results) (same, indexed) le =
    elim (Bool-cases (q artifact.metadata.id)) [
      | inl e ↦ rw e (
        (omega arith, omega (arith, same, le)),
        found_by-InRange q (suc k) bound results indexed (omega (arith, le)),
      )
      | inr e ↦ rw e (found_by-InRange q (suc k) bound results indexed (omega (arith, le)))
    ]

duplicates-InRange :
    (results : List (ℕ × Finding)) (ids : List Text)
    → AreIndexed 0 results
    → All (InRange 0 (length results)) (duplicates results ids)
unfolding duplicates duplicates_of
duplicates-InRange results [] indexed = tt
duplicates-InRange results (id ∷ ids) indexed =
    All-append (InRange 0 (length results)) (duplicates_of results id) (duplicates results ids)
      (elim (Bool-cases (ltb 1 (length (found_by (text_eq id) results)))) [
        | inl e ↦
            rw (e, duplicates_of)
              (found_by-InRange (text_eq id) 0 (length results) results indexed (omega arith))
        | inr e ↦ rw (e, duplicates_of) tt
      ])
      (duplicates-InRange results ids indexed)

is_index_of-left :
    (items rest : List Diagnosed) (n : ℕ)
    → is_index_of items n ≡ true
    → is_index_of (items ++ rest) n ≡ true
is_index_of-left [] rest n h = absurd (cc)
is_index_of-left (item ∷ items) rest n h = ground (arith, is_index_of-left items rest n)

All-later :
    (item : Diagnosed) (items rest : List Diagnosed)
    → All (λ (other : Diagnosed). is_index_of rest other.0 ≡ true) items
    → All (λ (other : Diagnosed). is_index_of (item ∷ rest) other.0 ≡ true) items
All-later item [] rest h = tt
All-later item (other ∷ items) rest (p, h) = (ground arith, All-later item items rest h)

All-is_index_of :
    (items rest : List Diagnosed)
    → All (λ (item : Diagnosed). is_index_of (items ++ rest) item.0 ≡ true) items
All-is_index_of [] rest = tt
All-is_index_of (item ∷ items) rest =
    (ground arith, All-later item items (items ++ rest) (All-is_index_of items rest))

length-filter : {A : Type 0} (p : A → Bool) (xs : List A) → length (filter p xs) ≤ length xs
length-filter p [] = omega arith
length-filter p (x ∷ xs) = ground (arith, length-filter p xs)

first_errors-length :
    (n : ℕ) (items : List Diagnosed)
    → (length (first_errors n items) ≤ n) × (length (first_errors n items) ≤ length items)
first_errors-length zero items = (omega arith, omega arith)
first_errors-length (suc n) [] = (omega arith, omega arith)
first_errors-length (suc n) (item ∷ items) =
    (omega (arith, first_errors-length n items), omega (arith, first_errors-length n items))

-- Where the findings have their places in the tree, each of them is counted once, as valid or as
-- invalid, and the report shows at most 50 of the diagnostics and counts the others.
pub report_of-counts :
    (revision : Text) (results : List (ℕ × Finding))
    → AreIndexed 0 results
    → ((report_of revision results).valid_count + (report_of revision results).invalid_count
        ≡ length results)
      × (length (report_of revision results).errors ≤ 50)
      × (length (report_of revision results).errors
            + (report_of revision results).omitted_error_count
          ≡ length (diagnostics_of results))
unfolding report_of diagnostics_of
report_of-counts revision results indexed =
    let items = diagnostics_of results in
    let inside : All (InRange 0 (length results)) items =
      All-append (InRange 0 (length results)) (invalid_results results)
        (duplicates results (ids_of results))
        (invalid_results-InRange 0 (length results) results indexed (omega arith))
        (duplicates-InRange results (ids_of results) indexed) in
    let counted = distinct_entries-count items (length results) inside in
    let split =
      count-results (is_index_of items) 0 results indexed
        (All-is_index_of (invalid_results results) (duplicates results (ids_of results))) in
    (
      omega (
        arith,
        counted,
        split,
        length-results results,
        length-filter (λ item. is_index_of items item.0) (valid_results results),
      ),
      omega (arith, first_errors-length 50 items),
      omega (arith, first_errors-length 50 items),
    )
