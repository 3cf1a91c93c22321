-- ===== src/Auth/Sessions/Persistence.antt =====
-- Writes to the table of lib/auth-session-store.ts, and what is found in it then.
use artifact_dev_toolkit.Common.{
  ℕ, ◌≡◌, refl, ap, true, false, none, some, any, arith, if◌then◌else◌, ok, err, List, [], ◌∷◌,
  length, filter, All, Bool-cases, ◌⊎◌, inl, inr, is_some,
}
use artifact_dev_toolkit.Common.Text.{Text, text_eq_refl}
use artifact_dev_toolkit.Auth.Types.{SessionRecord}
use artifact_dev_toolkit.Auth.Sessions.Codec.{parse_session, serialize_session}
use artifact_dev_toolkit.Auth.Sessions.RoundTrip.{
  IsCodec, is_readable, parse_session-serialize_session,
}
use artifact_dev_toolkit.Auth.Sessions.Store.{
  Row, Database, StoreError, is_down, later, has_id, is_active, set_authorization, session_row,
  row_record, value_or, Platform, hash_session_id, insert_session, update_session_authorization,
  live_session, row_to_session, find_session,
}
use artifact_dev_toolkit.Auth.Sessions.Rows.{IsKeyed, update_where-none, filter-active-le}

-- A session as the table keeps it: with a time of creation, not revoked, and with one login and one
-- GitHub id, those of the session, for the authorisation too.
abbrev pub as_stored : SessionRecord → ℕ → SessionRecord
as_stored s now = record s {
  created_at = some (value_or s.created_at now);
  revoked_at = none;
  repository_authorization = record s.repository_authorization {
    login = s.login;
    github_id = s.github_id;
  };
}

row_record-session_row :
    (stored_id : Text) (s : SessionRecord) (now : ℕ)
    → row_record s.id (session_row stored_id s now) ≡ as_stored s now
unfolding row_record session_row
row_record-session_row stored_id s now = refl

has_id-session_row :
    (x : Text) (s : SessionRecord) (now : ℕ) → has_id x (session_row x s now) ≡ true
unfolding session_row
has_id-session_row x s now = text_eq_refl x

module _ (platform : Platform) (codec : IsCodec platform.json) (secret : Text) where
  live_session-session_row :
      (stored_id : Text) (s : SessionRecord) (created now : ℕ)
      → live_session platform secret s.id now (some (session_row stored_id s created))
        ≡ (if is_readable (as_stored s created) now then some (as_stored s created) else none)
  unfolding live_session row_to_session session_row
  live_session-session_row stored_id s created now = ground (
    arith,
    ap (λ t. parse_session platform.json (some (serialize_session platform.json t)) now)
        (row_record-session_row stored_id s created),
    parse_session-serialize_session platform.json codec (as_stored s created) now,
  )

  -- A session that was inserted under a new id, by a statement that ran, is found by the next one, if
  -- it runs, as it was stored until it expires; it is not found only if it expired or its ids or names
  -- are such that `parseSession` refuses them.
  pub insert_session-find_session :
      (s : SessionRecord) (created now : ℕ) (db : Database)
      → is_down db.outages ≡ false
      → any (has_id (hash_session_id platform secret s.id)) db.sessions ≡ false
      → is_down (later db.outages) ≡ false
      → (find_session platform secret s.id now (insert_session platform secret s created db).1).0
        ≡ ok (if is_readable (as_stored s created) now then some (as_stored s created) else none)
  unfolding find_session insert_session
  insert_session-find_session s created now db up new up' =
      let x = hash_session_id platform secret s.id in
      rw (up, up', new, has_id-session_row x s created)
        (ap ok (live_session-session_row x s created now))

filter-active-revoked :
    (x : Text) (rows : List Row)
    → length (filter (is_active x) rows) ≡ 0
    → All (λ row. (has_id x row ≡ false) ⊎ (is_some row.revoked_at ≡ true)) rows
filter-active-revoked x [] h = tt
filter-active-revoked x (row ∷ rows) h = elim (Bool-cases (is_active x row)) [
  | inl active ↦ absurd (ground arith)
  | inr other ↦
      let rest = filter-active-revoked x rows (ground arith) in
      (elim (Bool-cases (has_id x row)) [ inr e ↦ inl e | inl e ↦ inr (ground arith) ], rest)
]

module _ (platform : Platform) (secret : Text) where
  -- Where no two rows have the same id, an update that reports a failure has changed no row, and either
  -- the database was down, or no row that is not revoked has the hash of the session's id.
  pub update_session_authorization-error_unchanged :
      (s : SessionRecord) (db : Database) (e : StoreError)
      → IsKeyed db.sessions
      → (update_session_authorization platform secret s db).0 ≡ err e
      → ((update_session_authorization platform secret s db).1.sessions ≡ db.sessions)
        × ((is_down db.outages ≡ true)
            ⊎ (All
                (λ row.
                  (has_id (hash_session_id platform secret s.id) row ≡ false)
                  ⊎ (is_some row.revoked_at ≡ true))
                db.sessions))
  unfolding update_session_authorization
  update_session_authorization-error_unchanged s db e keyed h =
      let x = hash_session_id platform secret s.id in
      elim (Bool-cases (is_down db.outages)) [
        | inl down ↦ (ground arith, inl down)
        | inr up ↦
            let none_active : length (filter (is_active x) db.sessions) ≡ 0 =
              ground (arith, filter-active-le x db.sessions keyed) in
            (
              ground (arith, update_where-none (is_active x) (set_authorization s) db.sessions),
              inr (filter-active-revoked x db.sessions none_active),
            )
      ]
