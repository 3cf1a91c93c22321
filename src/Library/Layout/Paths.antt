-- ===== src/Library/Layout/Paths.antt =====
-- Lemmas on the paths of lib/repository-layout.ts.
use mathlib.Core.List.{reverse, reverse-cons, append_assoc, append-nil}
use artifact_dev_toolkit.Common.{
  ℕ, ◌≡◌, refl, ap, ◌≢◌, Bool, true, false, [], ◌∷◌, ◌++◌, All, All-append, arith,
}
use artifact_dev_toolkit.Common.Text.{
  Text, codes, drop_while, text_eq, split, split_from, replace_all,
}
use artifact_dev_toolkit.Library.Layout.{
  ArtifactType, prompt, snippet, template, app_idea, directory_of, is_slug, is_slug_from,
  is_slug_char, is_safe_segment, normalize_path,
}

-- Neither of the separators.
abbrev pub Plain : ℕ → Type 0
Plain c = (c ≢ b'/') × (c ≢ 92)

is_slug_from-Plain : (fresh : Bool) (s : Text) → is_slug_from fresh s ≡ true → All Plain s
unfolding is_slug_from is_slug_char
is_slug_from-Plain fresh [] h = tt
is_slug_from-Plain fresh (c ∷ s) h =
    ground (arith, is_slug_from-Plain true s, is_slug_from-Plain false s)

pub file_name-Plain : (id : Text) → is_slug id ≡ true → All Plain (id ++ codes ".md")
unfolding is_slug
file_name-Plain id h =
    All-append Plain id (codes ".md") (is_slug_from-Plain true id h) (omega arith)

replace_all-Plain : (s : Text) → All Plain s → replace_all 92 b'/' s ≡ s
unfolding replace_all
replace_all-Plain [] h = refl
replace_all-Plain (c ∷ s) h = ground (arith, replace_all-Plain s h.1)

split_from-Plain : (cur s : Text) → All Plain s → split_from b'/' cur s ≡ (reverse cur ++ s) ∷ []
unfolding split_from
split_from-Plain cur [] h = rw (append-nil (reverse cur))
split_from-Plain cur (c ∷ s) h = ground (
  arith,
  split_from-Plain (c ∷ cur) s h.1,
  ap (λ (t : Text). t ++ s) (reverse-cons c cur),
  append_assoc (reverse cur) (c ∷ []) s,
)

pub is_safe_file_name : (id : Text) → is_slug id ≡ true → is_safe_segment (id ++ codes ".md") ≡ true
unfolding is_slug is_slug_from is_slug_char is_safe_segment text_eq
is_safe_file_name [] h = absurd (ground arith)
is_safe_file_name (c ∷ []) h = ground arith
is_safe_file_name (c ∷ d ∷ id) h = ground arith

-- The path that `canonicalArtifactWritePath` builds in the directory of a type.
abbrev pub write_path : ArtifactType → Text → Text
write_path type file = directory_of type ++ b'/' ∷ file

module _ (file : Text) (plain : All Plain file) where
  pub normalize_path-write_path :
      (type : ArtifactType) → normalize_path (write_path type file) ≡ write_path type file
  unfolding normalize_path drop_while replace_all
  normalize_path-write_path prompt = cc (replace_all-Plain file plain)
  normalize_path-write_path snippet = cc (replace_all-Plain file plain)
  normalize_path-write_path template = cc (replace_all-Plain file plain)
  normalize_path-write_path app_idea = cc (replace_all-Plain file plain)

  pub split-write_path :
      (type : ArtifactType) → split b'/' (write_path type file) ≡ directory_of type ∷ file ∷ []
  unfolding split split_from
  split-write_path prompt = rw (split_from-Plain [] file plain)
  split-write_path snippet = rw (split_from-Plain [] file plain)
  split-write_path template = rw (split_from-Plain [] file plain)
  split-write_path app_idea = rw (split_from-Plain [] file plain)

  pub replace_all-write_path :
      (type : ArtifactType) → replace_all 92 b'/' (write_path type file) ≡ write_path type file
  unfolding replace_all
  replace_all-write_path prompt = cc (replace_all-Plain file plain)
  replace_all-write_path snippet = cc (replace_all-Plain file plain)
  replace_all-write_path template = cc (replace_all-Plain file plain)
  replace_all-write_path app_idea = cc (replace_all-Plain file plain)
