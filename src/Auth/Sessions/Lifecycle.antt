-- ===== src/Auth/Sessions/Lifecycle.antt =====
-- Sequences of statements of lib/auth-session-store.ts.
use mathlib.Core.Option
use artifact_dev_toolkit.Common.{
  ℕ, ◌≡◌, refl, sym, ap, ◌∙◌, subst, Bool, true, false, none, some, List, [], ◌∷◌, any, find, arith,
  if◌then◌else◌, is_some, ok,
}
use artifact_dev_toolkit.Common.Text.{Text, text_eq_iff, text_eq_refl}
use artifact_dev_toolkit.Auth.Types.{SessionRecord}
use artifact_dev_toolkit.Auth.Sessions.Store.{
  Row, Database, is_down, has_id, is_active, update_where, set_authorization, set_revoked,
  session_row, Platform, hash_session_id, insert_session, update_session_authorization,
  revoke_session_id, live_session, find_session,
}
use artifact_dev_toolkit.Auth.Sessions.Rows.{
  IsKeyed, changed, find-update_where, update_where-IsKeyed, any_of_find,
}

-- The statements that the service runs on the table.
pub data Op : Type 0 where
  insert : SessionRecord → ℕ → Op
  update : SessionRecord → Op
  revoke : Text → ℕ → Op
  lookup : Text → ℕ → Op

if_keeps : {A : Type 0} (P : A → Type 0) (b : Bool) {x y : A} → P x → P y → P (if b then x else y)
if_keeps P true p q = p
if_keeps P false p q = q

if_new :
    {A : Type 0} (P : A → Type 0) (b : Bool) {x y : A}
    → P x
    → (b ≡ false → P y)
    → P (if b then x else y)
if_new P true p q = p
if_new P false p q = q refl

module _ (platform : Platform) (secret : Text) where
  unfoldable pub run : Op → Database → Database
  run (insert session now) db = (insert_session platform secret session now db).1
  run (update session) db = (update_session_authorization platform secret session db).1
  run (revoke id now) db = (revoke_session_id platform secret id now db).1
  run (lookup id now) db = (find_session platform secret id now db).1

  unfoldable pub run_all : List Op → Database → Database
  run_all [] db = db
  run_all (op ∷ ops) db = run_all ops (run op db)

  -- What a statement that the database carries out does to the rows.
  effect : Op → List Row → List Row
  effect (insert session now) rows =
      if any (has_id (hash_session_id platform secret session.id)) rows
      then rows
      else session_row (hash_session_id platform secret session.id) session now ∷ rows
  effect (update session) rows =
      update_where (is_active (hash_session_id platform secret session.id))
        (set_authorization session) rows
  effect (revoke id now) rows =
      update_where (is_active (hash_session_id platform secret id)) (set_revoked now) rows
  effect (lookup id now) rows = rows

  run-sessions :
      (op : Op) (db : Database)
      → (run op db).sessions ≡ (if is_down db.outages then db.sessions else effect op db.sessions)
  unfolding run effect insert_session update_session_authorization revoke_session_id find_session
  run-sessions (insert session now) db = ground arith
  run-sessions (update session) db = ground arith
  run-sessions (revoke id now) db = ground arith
  run-sessions (lookup id now) db = ground arith

  -- What holds of the rows and of what the statement makes of them holds after it.
  run_keeps :
      (P : List Row → Type 0) (op : Op) (db : Database)
      → P db.sessions
      → P (effect op db.sessions)
      → P (run op db).sessions
  run_keeps P op db p q = subst P (sym (run-sessions op db)) (if_keeps P (is_down db.outages) p q)

  effect-IsKeyed : (op : Op) (rows : List Row) → IsKeyed rows → IsKeyed (effect op rows)
  unfolding effect session_row set_authorization set_revoked
  effect-IsKeyed (insert session now) rows h =
      if_new IsKeyed (any (has_id (hash_session_id platform secret session.id)) rows) h
        (λ new. (new, h))
  effect-IsKeyed (update session) rows h = update_where-IsKeyed _ _ (λ r. refl) rows h
  effect-IsKeyed (revoke id now) rows h = update_where-IsKeyed _ _ (λ r. refl) rows h
  effect-IsKeyed (lookup id now) rows h = h

  -- Ids of the table that are distinct stay so, whatever statements run and whichever of them fail.
  pub run_all-IsKeyed :
      (ops : List Op) (db : Database) → IsKeyed db.sessions → IsKeyed (run_all ops db).sessions
  unfolding run_all
  run_all-IsKeyed [] db h = h
  run_all-IsKeyed (op ∷ ops) db h =
      run_all-IsKeyed ops (run op db) (run_keeps IsKeyed op db h (effect-IsKeyed op db.sessions h))

  -- The row of a stored id is there, and revoked.
  abbrev pub IsRevoked : Text → List Row → Type 0
  IsRevoked stored_id rows =
      (r : Row) × (find (has_id stored_id) rows ≡ some r) × (is_some r.revoked_at ≡ true)

  update-IsRevoked :
      (x y : Text) (change : Row → Row) (rows : List Row)
      → ((r : Row) → (change r).id ≡ r.id)
      → IsRevoked x rows
      → IsRevoked x (update_where (is_active y) change rows)
  update-IsRevoked x y change rows keeps (r, e, h) =
      let same : changed (is_active y) change r ≡ r = ground arith in
      (
        r,
        find-update_where (is_active y) change keeps x rows
            ∙ ap (Option.map (changed (is_active y) change)) e
            ∙ ap some same,
        h,
      )

  effect-IsRevoked :
      (x : Text) (op : Op) (rows : List Row) → IsRevoked x rows → IsRevoked x (effect op rows)
  unfolding effect session_row set_authorization set_revoked
  effect-IsRevoked x (insert session now) rows (r, e, h) =
      if_new (IsRevoked x) (any (has_id (hash_session_id platform secret session.id)) rows)
        (r, e, h)
        (λ new. (
          r,
          ground (
            arith,
            any_of_find x rows r e,
            text_eq_iff (hash_session_id platform secret session.id) x,
          ),
          h,
        ))
  effect-IsRevoked x (update session) rows h = update-IsRevoked x _ _ rows (λ r. refl) h
  effect-IsRevoked x (revoke id now) rows h = update-IsRevoked x _ _ rows (λ r. refl) h
  effect-IsRevoked x (lookup id now) rows h = h

  pub run_all-IsRevoked :
      (x : Text) (ops : List Op) (db : Database)
      → IsRevoked x db.sessions
      → IsRevoked x (run_all ops db).sessions
  unfolding run_all
  run_all-IsRevoked x [] db h = h
  run_all-IsRevoked x (op ∷ ops) db h =
      run_all-IsRevoked x ops (run op db)
        (run_keeps (IsRevoked x) op db h (effect-IsRevoked x op db.sessions h))

  pub find-IsRevoked :
      (id : Text) (now : ℕ) (db : Database)
      → IsRevoked (hash_session_id platform secret id) db.sessions
      → is_down db.outages ≡ false
      → (find_session platform secret id now db).0 ≡ ok none
  unfolding find_session live_session
  find-IsRevoked id now db (r, e, h) up = rw (up, e, h)

  pub revoke-IsRevoked :
      (id : Text) (now : ℕ) (db : Database) (r : Row)
      → is_down db.outages ≡ false
      → find (has_id (hash_session_id platform secret id)) db.sessions ≡ some r
      → IsRevoked (hash_session_id platform secret id) (run (revoke id now) db).sessions
  unfolding effect set_revoked
  revoke-IsRevoked id now db r up e =
      let x = hash_session_id platform secret id in
      let row = changed (is_active x) (set_revoked now) r in
      let found : find (has_id x) (effect (revoke id now) db.sessions) ≡ some row =
        find-update_where (is_active x) (set_revoked now) (λ r. refl) x db.sessions
        ∙ ap (Option.map (changed (is_active x) (set_revoked now))) e in
      subst (IsRevoked x) (sym (run-sessions (revoke id now) db))
        (rw up (row, found, ground (arith, any_of_find x db.sessions r e, text_eq_refl x)))

  -- A session whose row is in the table, and that was revoked while the table was up, is never found
  -- again: whatever statements run after it, failing or not, a later lookup of its id that runs
  -- finds none.
  pub revoke-find :
      (id : Text) (revoked now : ℕ) (ops : List Op) (db : Database) (r : Row)
      → is_down db.outages ≡ false
      → find (has_id (hash_session_id platform secret id)) db.sessions ≡ some r
      → is_down (run_all ops (run (revoke id revoked) db)).outages ≡ false
      → (find_session platform secret id now (run_all ops (run (revoke id revoked) db))).0 ≡ ok none
  revoke-find id revoked now ops db r up e up' =
      find-IsRevoked id now (run_all ops (run (revoke id revoked) db))
        (run_all-IsRevoked _ ops (run (revoke id revoked) db)
          (revoke-IsRevoked id revoked db r up e))
        up'
