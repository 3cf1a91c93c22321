-- ===== src/Common/Sorting.antt =====
-- The stable sorting of `Array.prototype.sort` with a comparison.
use mathlib.Core.Bool.{Bool}
use mathlib.Core.List.{List, [], ◌∷◌}
use mathlib.Core.Logic.{inl, inr}
use artifact_dev_toolkit.Common.Tests.{if◌then◌else◌, Bool-cases}

module _ {A : Type 0} (is_after : A → A → Bool) where
  -- A value that came earlier stays before those that the comparison finds equal.
  unfoldable pub insert_sorted : A → List A → List A
  insert_sorted x [] = x ∷ []
  insert_sorted x (y ∷ ys) =
      let rest = insert_sorted x ys in if is_after x y then y ∷ rest else x ∷ y ∷ ys

  -- `values.sort((a, b) => ...)`, where `is_after a b` says that the comparison is positive
  unfoldable pub sort_by : List A → List A
  sort_by [] = []
  sort_by (x ∷ xs) = insert_sorted x (sort_by xs)

  module _ {ℓ} (P : A → Type ℓ) where
    abbrev pub Every : List A → Type ℓ
    Every [] = Unit
    Every (x ∷ xs) = P x × Every xs

    pub insert_sorted-Every : (x : A) (xs : List A) → P x → Every xs → Every (insert_sorted x xs)
    unfolding insert_sorted
    insert_sorted-Every x [] p h = (p, tt)
    insert_sorted-Every x (y ∷ ys) p (q, h) = elim (Bool-cases (is_after x y)) [
      | inl e ↦ rw e (q, insert_sorted-Every x ys p h)
      | inr e ↦ rw e (p, (q, h))
    ]

    -- What holds of every value holds of every value in order.
    pub sort_by-Every : (xs : List A) → Every xs → Every (sort_by xs)
    unfolding sort_by
    sort_by-Every [] h = tt
    sort_by-Every (x ∷ xs) (p, h) = insert_sorted-Every x (sort_by xs) p (sort_by-Every xs h)
