-- ===== src/Auth/Sessions/Rows.antt =====
-- Lemmas on the rows that the statements of lib/auth-session-store.ts change.
use mathlib.Core.Option
use artifact_dev_toolkit.Common.{
  ◌≤◌, ◌≡◌, refl, sym, ◌∙◌, subst, Bool, true, false, some, List, [], ◌∷◌, any, find, filter,
  length, arith, if◌then◌else◌, Bool-cases, inl, inr,
}
use artifact_dev_toolkit.Common.Text.{Text, text_eq_iff}
use artifact_dev_toolkit.Auth.Sessions.Store.{Row, has_id, is_active, update_where}

-- The key of the table: no two rows have one id.
abbrev pub IsKeyed : List Row → Type 0
IsKeyed [] = Unit
IsKeyed (r ∷ rows) = (any (has_id r.id) rows ≡ false) × IsKeyed rows

-- The row that a statement leaves in the place of `r`.
abbrev pub changed : (Row → Bool) → (Row → Row) → Row → Row
changed test change r = if test r then change r else r

module _ (test : Row → Bool) (change : Row → Row) (keeps : (r : Row) → (change r).id ≡ r.id) where
  has_id-changed : (x : Text) (r : Row) → has_id x (changed test change r) ≡ has_id x r
  has_id-changed x r = ground (arith, keeps r)

  pub find-update_where :
      (x : Text) (rows : List Row)
      → find (has_id x) (update_where test change rows)
        ≡ Option.map (changed test change) (find (has_id x) rows)
  unfolding update_where
  find-update_where x [] = refl
  find-update_where x (r ∷ rows) = rw (has_id-changed x r, find-update_where x rows) (ground arith)

  any-update_where :
      (x : Text) (rows : List Row)
      → any (has_id x) (update_where test change rows) ≡ any (has_id x) rows
  unfolding update_where
  any-update_where x [] = refl
  any-update_where x (r ∷ rows) = rw (has_id-changed x r, any-update_where x rows)

  pub update_where-IsKeyed :
      (rows : List Row) → IsKeyed rows → IsKeyed (update_where test change rows)
  unfolding update_where
  update_where-IsKeyed [] h = tt
  update_where-IsKeyed (r ∷ rows) h =
      let same : (changed test change r).id ≡ r.id = ground (arith, keeps r) in
      let new = any-update_where r.id rows ∙ h.0 in
      (
        subst (λ x. any (has_id x) (update_where test change rows) ≡ false) (sym same) new,
        update_where-IsKeyed rows h.1,
      )

pub any_of_find :
    (x : Text) (rows : List Row) (found : Row)
    → find (has_id x) rows ≡ some found
    → (any (has_id x) rows ≡ true) × (found.id ≡ x)
any_of_find x [] found e = absurd (cc)
any_of_find x (r ∷ rows) found e = ground (arith, text_eq_iff r.id x, any_of_find x rows found)

-- An update that changes no row leaves the table.
pub update_where-none :
    (test : Row → Bool) (change : Row → Row) (rows : List Row)
    → length (filter test rows) ≡ 0
    → update_where test change rows ≡ rows
unfolding update_where
update_where-none test change [] e = refl
update_where-none test change (r ∷ rows) e = ground (arith, update_where-none test change rows)

filter-active-none :
    (x : Text) (rows : List Row)
    → any (has_id x) rows ≡ false
    → length (filter (is_active x) rows) ≡ 0
filter-active-none x [] e = refl
filter-active-none x (r ∷ rows) e = ground (arith, filter-active-none x rows)

-- At most one active row has an id.
pub filter-active-le :
    (x : Text) (rows : List Row) → IsKeyed rows → length (filter (is_active x) rows) ≤ 1
filter-active-le x [] h = omega arith
filter-active-le x (r ∷ rows) (new, h) = elim (Bool-cases (has_id x r)) [
  | inl e ↦
      let same = (text_eq_iff r.id x).0 e in
      ground (arith, filter-active-none x rows (rw same at new))
  | inr e ↦ ground (arith, filter-active-le x rows h)
]
