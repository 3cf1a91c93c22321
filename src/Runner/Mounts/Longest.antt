-- ===== src/Runner/Mounts/Longest.antt =====
-- The choice of the mount by `classifyFilesystem` of codex-runner/src/sqlite-storage.ts.
use artifact_dev_toolkit.Common.{
  ◌≡◌, refl, true, false, List, [], ◌∷◌, length, filter, if◌then◌else◌, arith, Bool-cases, ◌⊎◌, inl,
  inr, Memᴰ, ◌≤◌, All,
}
use artifact_dev_toolkit.Common.Text.{Text}
use artifact_dev_toolkit.Common.Sorting.{sort_by, insert_sorted}
use artifact_dev_toolkit.Runner.Mounts.{
  local, network, unknown, Mount, covers, is_shorter, is_network, class_of, classify_filesystem,
}

module _ (path : Text) where
  abbrev pub NotCovering : Mount → Type 0
  NotCovering other = covers path other ≡ false

  abbrev pub NotLonger : Mount → Mount → Type 0
  NotLonger mount other =
      covers path other ≡ true → length other.mount_point ≤ length mount.mount_point

  -- Among the mounts, this one covers the path, and none that covers it is longer.
  abbrev pub IsLongest : List Mount → Mount → Type 0
  IsLongest mounts mount =
      Memᴰ mount mounts × (covers path mount ≡ true) × All (NotLonger mount) mounts

  abbrev Leads : List Mount → List Mount → Type 0
  Leads [] mounts = All NotCovering mounts
  Leads (mount ∷ rest) mounts = IsLongest mounts mount

  abbrev covering : List Mount → List Mount
  covering mounts = sort_by is_shorter (filter (covers path) mounts)

  All-NotLonger :
      (a b : Mount) (mounts : List Mount)
      → length a.mount_point ≤ length b.mount_point
      → All (NotLonger a) mounts
      → All (NotLonger b) mounts
  All-NotLonger a b [] le h = tt
  All-NotLonger a b (m ∷ ms) le (p, h) = (λ c. omega (arith, p c), All-NotLonger a b ms le h)

  All-NotCovering :
      (a : Mount) (mounts : List Mount) → All NotCovering mounts → All (NotLonger a) mounts
  All-NotCovering a [] h = tt
  All-NotCovering a (m ∷ ms) (p, h) = (λ c. absurd (cc), All-NotCovering a ms h)

  Leads-skip :
      (x : Mount) (sorted mounts : List Mount)
      → covers path x ≡ false
      → Leads sorted mounts
      → Leads sorted (x ∷ mounts)
  Leads-skip x [] mounts h l = (h, l)
  Leads-skip x (m ∷ rest) mounts h (listed, c, longest) =
      (Memᴰ.tail listed, c, (λ d. absurd (cc), longest))

  Leads-insert :
      (x : Mount) (sorted mounts : List Mount)
      → covers path x ≡ true
      → Leads sorted mounts
      → Leads (insert_sorted is_shorter x sorted) (x ∷ mounts)
  unfolding insert_sorted
  Leads-insert x [] mounts h l = (Memᴰ.head refl, h, (λ c. omega arith, All-NotCovering x mounts l))
  Leads-insert x (m ∷ rest) mounts h (listed, c, longest) = elim (Bool-cases (is_shorter x m)) [
    | inl e ↦ rw e (Memᴰ.tail listed, c, (λ d. ground arith, longest))
    | inr e ↦
        rw e
          (Memᴰ.head refl, h, (λ d. omega arith, All-NotLonger m x mounts (ground arith) longest))
  ]

  covering-Leads : (mounts : List Mount) → Leads (covering mounts) mounts
  unfolding sort_by
  covering-Leads [] = tt
  covering-Leads (x ∷ xs) = elim (Bool-cases (covers path x)) [
    | inl e ↦ rw e (Leads-insert x (covering xs) xs e (covering-Leads xs))
    | inr e ↦ rw e (Leads-skip x (covering xs) xs e (covering-Leads xs))
  ]

  class_of-Leads :
      (sorted mounts : List Mount)
      → Leads sorted mounts
      → ((class_of sorted ≡ unknown) × All NotCovering mounts)
        ⊎ ((mount : Mount) × IsLongest mounts mount
            × (class_of sorted ≡ (if is_network mount.filesystem_type then network else local)))
  unfolding class_of
  class_of-Leads [] mounts l = inl (refl, l)
  class_of-Leads (m ∷ rest) mounts l = inr (m, l, refl)

  -- A path's file system is unknown exactly where no mount covers it, and otherwise that of a mount
  -- that covers it and is as long as every other that does: a network's by the type of that mount.
  pub classify_filesystem-IsLongest :
      (mounts : List Mount)
      → ((classify_filesystem path mounts ≡ unknown) × All NotCovering mounts)
        ⊎ ((mount : Mount) × IsLongest mounts mount
            × (classify_filesystem path mounts
                ≡ (if is_network mount.filesystem_type then network else local)))
  unfolding classify_filesystem
  classify_filesystem-IsLongest mounts =
      class_of-Leads (covering mounts) mounts (covering-Leads mounts)
