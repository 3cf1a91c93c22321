-- ===== src/Library/Layout/Candidates.antt =====
-- The two filters of lib/repository-layout.ts for artifacts.
use mathlib.Core.List.{reverse, reverse-cons, append_assoc}
use artifact_dev_toolkit.Common.{
  ℕ, ◌≡◌, refl, Bool, true, false, List, [], ◌∷◌, ◌++◌, any, arith, ◌==◌, Bool-cases, inl, inr,
  &&-true, is_some, ltb, length,
}
use artifact_dev_toolkit.Common.Text.{
  Text, codes, text_eq, text_eq_iff, includes, starts_with, ends_with, split, split_from,
  replace_all,
}
use artifact_dev_toolkit.Common.Text.Laws.{starts_with-append, ends_with-drop_while}
use artifact_dev_toolkit.Library.Layout.{
  artifact_directories, normalize_path, safe_segments, in_library, classify_artifact_path,
  is_supported_artifact_path, is_artifact_markdown_candidate,
}

-- The first of two or more parts stands at the front, with the separator behind it.
split_from-front :
    (sep : ℕ) (cur s top next : Text) (rest : List Text)
    → split_from sep cur s ≡ top ∷ next ∷ rest
    → starts_with (reverse cur ++ s) (top ++ sep ∷ []) ≡ true
unfolding split_from
split_from-front sep cur [] top next rest e = absurd (cc)
split_from-front sep cur (c ∷ s) top next rest e = elim (Bool-cases (c == sep)) [
  | inl h ↦
      let t : top ≡ reverse cur = ground arith in
      let k : c ≡ sep = ground arith in
      rw (t, k, ← append_assoc (reverse cur) (sep ∷ []) s)
        (starts_with-append (reverse cur ++ sep ∷ []) s)
  | inr h ↦
      let ih = split_from-front sep (c ∷ cur) s top next rest (ground arith) in
      rw (reverse-cons c cur, append_assoc (reverse cur) (c ∷ []) s) at ih
]

split-front :
    (sep : ℕ) (s top next : Text) (rest : List Text)
    → split sep s ≡ top ∷ next ∷ rest
    → starts_with s (top ++ sep ∷ []) ≡ true
unfolding split
split-front sep s top next rest e = split_from-front sep [] s top next rest e

any_mono :
    (p q : Text → Bool) (xs : List Text)
    → ((x : Text) → p x ≡ true → q x ≡ true)
    → any p xs ≡ true
    → any q xs ≡ true
any_mono p q [] f h = h
any_mono p q (x ∷ xs) f h = ground (arith, f x, any_mono p q xs f)

-- A path of two or more parts, the first a directory of the library.
in_library-front :
    (s : Text) (segments : List Text)
    → split b'/' s ≡ segments
    → ltb 1 (length segments) ≡ true
    → in_library segments ≡ true
    → any (λ directory. starts_with s (directory ++ b'/' ∷ [])) artifact_directories ≡ true
unfolding in_library
in_library-front s [] e l h = absurd (cc)
in_library-front s (top ∷ []) e l h = absurd (ground arith)
in_library-front s (top ∷ next ∷ rest) e l h =
    any_mono (text_eq top) (λ d. starts_with s (d ++ b'/' ∷ [])) artifact_directories
      (λ d same. rw (← (text_eq_iff top d).0 same) (split-front b'/' s top next rest e)) h

classify-in_library :
    (path : Text)
    → is_some (classify_artifact_path path) ≡ true
    → (ltb 1 (length (split b'/' (normalize_path path))) ≡ true)
      × (in_library (split b'/' (normalize_path path)) ≡ true)
unfolding classify_artifact_path safe_segments
classify-in_library path h = ground arith

md_plain : includes (reverse (codes ".md")) b'/' ≡ false
unfolding includes
md_plain = refl

ends_with-normalize_path :
    (path : Text)
    → ends_with (replace_all 92 b'/' path) (codes ".md") ≡ true
    → ends_with (normalize_path path) (codes ".md") ≡ true
unfolding normalize_path
ends_with-normalize_path path h =
    ends_with-drop_while b'/' (replace_all 92 b'/' path) (codes ".md") md_plain h

-- The readers' filter `isArtifactMarkdownCandidate` lets every supported path through, so no
-- supported artifact is left out of the catalogue.
pub is_supported_artifact_path-candidate :
    (path : Text)
    → is_supported_artifact_path path ≡ true
    → is_artifact_markdown_candidate path ≡ true
unfolding is_supported_artifact_path is_artifact_markdown_candidate
is_supported_artifact_path-candidate path h =
    let (classified, md) = &&-true _ _ h in
    let (two, top) = classify-in_library path classified in
    rw (
      ends_with-normalize_path path md,
      in_library-front (normalize_path path) (split b'/' (normalize_path path)) refl two top,
    )
