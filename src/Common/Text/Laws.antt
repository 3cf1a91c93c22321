-- ===== src/Common/Text/Laws.antt =====
-- Laws of the text operations.
use Prim.Native.Nat.{ℕ}
use mathlib.Core.Path.{◌≡◌, refl}
use mathlib.Core.Bool.{true, false}
use mathlib.Core.List.{[], ◌∷◌, ◌++◌, reverse, reverse-append, reverse-cons}
use native.Mathlib.Omega.{arith}
use artifact_dev_toolkit.Common.Tests.{◌==◌}
use artifact_dev_toolkit.Common.Text.{Text, includes, starts_with, ends_with, drop_while}

pub starts_with-append : (s t : Text) → starts_with (s ++ t) s ≡ true
unfolding starts_with
starts_with-append [] [] = refl
starts_with-append [] (d ∷ t) = refl
starts_with-append (c ∷ s) t = ground (arith, starts_with-append s t)

pub ends_with-append : (s t : Text) → ends_with (s ++ t) t ≡ true
unfolding ends_with
ends_with-append s t = rw (reverse-append s t) (starts_with-append (reverse t) (reverse s))

-- A prefix of a text with one more unit at its end, where that unit is not in the prefix.
starts_with-concat :
    (s : Text) (c : ℕ) (p : Text)
    → includes p c ≡ false
    → starts_with (s ++ c ∷ []) p ≡ true
    → starts_with s p ≡ true
unfolding starts_with includes
starts_with-concat [] c [] n h = refl
starts_with-concat [] c (d ∷ []) n h = ground arith
starts_with-concat [] c (d ∷ e ∷ p) n h = ground arith
starts_with-concat (b ∷ s) c [] n h = refl
starts_with-concat (b ∷ s) c (d ∷ p) n h = ground (arith, starts_with-concat s c p)

-- A suffix without the unit `c` stays one when a leading `c` is dropped.
pub ends_with-cons :
    (c : ℕ) (s t : Text)
    → includes (reverse t) c ≡ false
    → ends_with (c ∷ s) t ≡ true
    → ends_with s t ≡ true
unfolding ends_with
ends_with-cons c s t n h =
    starts_with-concat (reverse s) c (reverse t) n (rw (reverse-cons c s) at h)

pub ends_with-drop_while :
    (c : ℕ) (s t : Text)
    → includes (reverse t) c ≡ false
    → ends_with s t ≡ true
    → ends_with (drop_while (λ d. d == c) s) t ≡ true
unfolding drop_while
ends_with-drop_while c [] t n h = h
ends_with-drop_while c (d ∷ s) t n h =
    ground (arith, ends_with-cons c s t n, ends_with-drop_while c s t n)
