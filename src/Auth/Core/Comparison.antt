-- ===== src/Auth/Core/Comparison.antt =====
-- `constantTimeEqual` of lib/auth-core.ts.
use Prim.Native.Nat.{bit_or, bit_xor}
use artifact_dev_toolkit.Common.{
  ℕ, ◌≡◌, refl, ap, ◌↔◌, true, Option, none, some, [], ◌∷◌, length, arith,
}
use artifact_dev_toolkit.Common.Text.{Text, is_truthy}
use artifact_dev_toolkit.Common.Bits.{bit_or-eq-zero_iff, bit_xor-eq-zero_iff}
use artifact_dev_toolkit.Auth.Core.{differences, constant_time_equal}

differences-eq-zero_iff :
    (result : ℕ) (left right : Text)
    → length left ≡ length right
    → (differences result left right ≡ 0) ↔ ((result ≡ 0) × (left ≡ right))
unfolding differences
differences-eq-zero_iff result [] [] h = (λ e. (e, refl), λ e. e.0)
differences-eq-zero_iff result [] (b ∷ right) h = absurd (omega arith)
differences-eq-zero_iff result (a ∷ left) [] h = absurd (omega arith)
differences-eq-zero_iff result (a ∷ left) (b ∷ right) h = ground (
  arith,
  differences-eq-zero_iff (bit_or result (bit_xor a b)) left right (omega arith),
  bit_or-eq-zero_iff result (bit_xor a b),
  bit_xor-eq-zero_iff a b,
)

-- The comparison that reads every code unit succeeds exactly when both texts are present, not empty
-- and the same.
pub constant_time_equal_iff :
    (left right : Option Text)
    → (constant_time_equal left right ≡ true)
      ↔ ((s : Text) × (left ≡ some s) × (right ≡ some s) × (is_truthy s ≡ true))
unfolding constant_time_equal
constant_time_equal_iff none right = (λ h. cc, λ h. cc h.1)
constant_time_equal_iff (some left) none = (λ h. cc, λ h. cc h.2)
constant_time_equal_iff (some left) (some right) = (
  λ h. (left, refl, ground (arith, differences-eq-zero_iff 0 left right), ground arith),
  λ (s, p, q, t).
      let same : left ≡ right = cc in
      ground (arith, differences-eq-zero_iff 0 left right, ap length same),
)
