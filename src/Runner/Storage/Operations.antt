-- ===== src/Runner/Storage/Operations.antt =====
-- Lemmas on the single file operations of codex-runner/src/sqlite-storage.ts.
use artifact_dev_toolkit.Common.{
  ◌≡◌, refl, Bool, true, false, Option, none, some, [], Option-cases, Bool-cases, inl, inr,
}
use artifact_dev_toolkit.Common.Text.{Text}
use artifact_dev_toolkit.Runner.Files.{lookup, remove, put, names}
use artifact_dev_toolkit.Runner.Storage.{
  Setup, Storage, Step, Failure, other, files_of, from, check, ◌>>=◌, fails_next, spend, operate,
  move_out, move_back, promote, copy_back, remove_home, read_home, read_safety, make_stage,
  make_safety, remove_safety, remove_stage,
}
use artifact_dev_toolkit.Runner.Storage.Triples.{Ensures}

module _ {A : Type 0} where
  -- A file operation and what follows it.
  pub operate->>= :
      (f : Unit {0} → Step A) (s : Storage) (Q : A → Storage → Type 0)
      (R : Failure → Storage → Type 0)
      → R other (spend s)
      → Ensures (f tt) (spend s) Q R
      → Ensures (operate >>= f) s Q R
  unfolding operate
  operate->>= f s Q R r q = elim (Bool-cases (fails_next s.outages)) [
    | inl e ↦ rw e r
    | inr e ↦ rw e q
  ]

module _ {A B : Type 0} where
  -- A value that may be missing and what follows it.
  pub from->>= :
      (o : Option A) (e : Failure) (f : A → Step B) (s : Storage) (Q : B → Storage → Type 0)
      (R : Failure → Storage → Type 0)
      → (o ≡ none → R e s)
      → ((a : A) → o ≡ some a → Ensures (f a) s Q R)
      → Ensures (from o e >>= f) s Q R
  from->>= none e f s Q R r q = r refl
  from->>= (some a) e f s Q R r q = q a refl

module _ {B : Type 0} where
  -- A check and what follows it.
  pub check->>= :
      (b : Bool) (e : Failure) (f : Unit {0} → Step B) (s : Storage) (Q : B → Storage → Type 0)
      (R : Failure → Storage → Type 0)
      → (b ≡ false → R e s)
      → (b ≡ true → Ensures (f tt) s Q R)
      → Ensures (check b e >>= f) s Q R
  check->>= true e f s Q R r q = q refl
  check->>= false e f s Q R r q = r refl

module _ (name : Text) (s : Storage) where
  -- The file moved, and nothing else changed but the outages that are left.
  abbrev pub MovedOut : Unit {0} → Storage → Type 0
  MovedOut done t =
      (content : Text) × (lookup name s.home ≡ some content)
      × (t ≡ record (spend s) {
        home = remove name s.home;
        safety = some (put name content (files_of s.safety));
      })

  abbrev pub Unmoved : Failure → Storage → Type 0
  Unmoved e t = t ≡ spend s

  pub move_out-Ensures : Ensures (move_out name) s MovedOut Unmoved
  unfolding move_out
  move_out-Ensures =
      operate->>= _ s MovedOut Unmoved refl (elim (Option-cases (lookup name s.home)) [
        | inl e ↦ rw e refl
        | inr (content, e) ↦ rw e (content, e, refl)
      ])

  abbrev pub MovedBack : Unit {0} → Storage → Type 0
  MovedBack done t =
      (content : Text) × (lookup name (files_of s.safety) ≡ some content)
      × (t ≡ record (spend s) {
        home = put name content s.home;
        safety = some (remove name (files_of s.safety));
      })

  pub move_back-Ensures : Ensures (move_back name) s MovedBack Unmoved
  unfolding move_back
  move_back-Ensures =
      operate->>= _ s MovedBack Unmoved refl
        (elim (Option-cases (lookup name (files_of s.safety))) [
          | inl e ↦ rw e refl
          | inr (content, e) ↦ rw e (content, e, refl)
        ])

  abbrev pub Promoted : Unit {0} → Storage → Type 0
  Promoted done t =
      (content : Text) × (lookup name (files_of s.stage) ≡ some content)
      × (t ≡ record (spend s) {
        home = put name content s.home;
        stage = some (remove name (files_of s.stage));
      })

  pub promote-Ensures : Ensures (promote name) s Promoted Unmoved
  unfolding promote
  promote-Ensures =
      operate->>= _ s Promoted Unmoved refl (elim (Option-cases (lookup name (files_of s.stage))) [
        | inl e ↦ rw e refl
        | inr (content, e) ↦ rw e (content, e, refl)
      ])

  abbrev pub CopiedBack : Unit {0} → Storage → Type 0
  CopiedBack done t =
      (content : Text) × (lookup name (files_of s.safety) ≡ some content)
      × (lookup name s.home ≡ none)
      × (t ≡ record (spend s) { home = put name content s.home })

  pub copy_back-Ensures : Ensures (copy_back name) s CopiedBack Unmoved
  unfolding copy_back
  copy_back-Ensures =
      operate->>= _ s CopiedBack Unmoved refl
        (elim (Option-cases (lookup name (files_of s.safety))) [
          | inl e ↦ rw e refl
          | inr (content, e) ↦ elim (Option-cases (lookup name s.home)) [
            | inl e' ↦ rw (e, e') (content, e, e', refl)
            | inr (there, e') ↦ rw (e, e') refl
          ]
        ])

  abbrev pub Removed : Unit {0} → Storage → Type 0
  Removed done t = t ≡ record (spend s) { home = remove name s.home }

  pub remove_home-Ensures : Ensures (remove_home name) s Removed Unmoved
  unfolding remove_home
  remove_home-Ensures = operate->>= _ s Removed Unmoved refl refl

module _ (s : Storage) where
  abbrev pub Same : Failure → Storage → Type 0
  Same e t = t ≡ spend s

  pub read_home-Ensures :
      Ensures read_home s (λ found t. (found ≡ names s.home) × (t ≡ spend s)) Same
  unfolding read_home
  read_home-Ensures =
      operate->>= _ s (λ found t. (found ≡ names s.home) × (t ≡ spend s)) Same refl (refl, refl)

  pub read_safety-Ensures :
      Ensures read_safety s (λ found t. (found ≡ names (files_of s.safety)) × (t ≡ spend s)) Same
  unfolding read_safety
  read_safety-Ensures =
      operate->>= _ s (λ found t. (found ≡ names (files_of s.safety)) × (t ≡ spend s)) Same refl
        (refl, refl)

  pub make_stage-Ensures :
      Ensures make_stage s (λ made t. t ≡ record (spend s) { stage = some [] }) Same
  unfolding make_stage
  make_stage-Ensures =
      operate->>= _ s (λ made t. t ≡ record (spend s) { stage = some [] }) Same refl refl

  pub make_safety-Ensures :
      Ensures make_safety s (λ made t. t ≡ record (spend s) { safety = some [] }) Same
  unfolding make_safety
  make_safety-Ensures =
      operate->>= _ s (λ made t. t ≡ record (spend s) { safety = some [] }) Same refl refl

module _ (setup : Setup) (s : Storage) where
  abbrev pub Cleared : Unit {0} → Storage → Type 0
  Cleared done t = t ≡ record (spend s) { safety = none }

  abbrev pub Left : Failure → Storage → Type 0
  Left e t = t ≡ record (spend s) { safety = some (setup.leftover (files_of s.safety)) }

  pub remove_safety-Ensures : Ensures (remove_safety setup) s Cleared Left
  unfolding remove_safety operate
  remove_safety-Ensures = elim (Bool-cases (fails_next s.outages)) [
    | inl e ↦ rw (e, remove_safety) refl
    | inr e ↦ rw (e, remove_safety) refl
  ]

  pub remove_stage-keeps :
      ((remove_stage setup s).1.home ≡ s.home)
      × ((remove_stage setup s).1.safety ≡ s.safety)
      × ((remove_stage setup s).1.recovery_required ≡ s.recovery_required)
      × ((remove_stage setup s).1.operation ≡ s.operation)
  unfolding remove_stage operate
  remove_stage-keeps = elim (Bool-cases (fails_next s.outages)) [
    | inl e ↦ rw (e, remove_stage) (refl, refl, refl, refl)
    | inr e ↦ rw (e, remove_stage) (refl, refl, refl, refl)
  ]
