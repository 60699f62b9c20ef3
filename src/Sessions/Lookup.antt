-- ===== src/Sessions/Lookup.antt =====
-- Which tokens `lookup_session` accepts.
use specter_cloud.Prelude.{
  ◌+◌, ◌-◌, ◌≤◌, ◌≡◌, refl, ap, sym, ◌↔◌, inl, inr, Text, non_empty, text_eq, text_eq→eq,
  scalar-some, Any, true, Option, none, some, [], arith, ltb, ◌==◌, if◌then◌else◌, Bool-cases,
}
use specter_cloud.Platform.{Platform}
use specter_cloud.Models.{Datetime, Session}
use specter_cloud.Store.{
  Db, Result, ok, pure, modify, commit, ◌>>◌, open_session, with_session, with_session_lem, >>=_ok,
  commit-clean,
}
use specter_cloud.Sessions.{
  minutes, days, idle_timeout_days, last_seen_debounce_minutes, hash_token, is_live, seen,
  update_sessions, touch, accept, by_token_hash, lookup_session,
}

-- A session that is neither revoked, nor past its hard expiry, nor idle for too long.
pub record IsUsable (now : Datetime) (s : Session) : Type 0 where
  pub not_revoked : s.revoked_at ≡ none
  pub not_expired : now ≤ s.expires_at
  pub not_idle : now ≤ s.last_seen_at + days idle_timeout_days

pub is_live_iff : (now : Datetime) (s : Session) → (is_live now s ≡ true) ↔ IsUsable now s
unfolding is_live
is_live_iff now s = (λ h. ground arith, λ u. ground arith)

-- the session as `lookup_session` returns it
abbrev pub debounced : Datetime → Session → Session
debounced now s =
    if ltb (s.last_seen_at + minutes last_seen_debounce_minutes) now then seen now s else s

-- the tables after a session was accepted
abbrev pub debounced_db : Datetime → Session → Db → Db
debounced_db now s db =
    if ltb (s.last_seen_at + minutes last_seen_debounce_minutes) now
    then update_sessions (λ r. r.id == s.id) (seen now) db
    else db

-- What a request that looks a token up returns and leaves, by the row that it finds.
abbrev pub looked_up : Datetime → Option Session → Db → Result (Option Session) × Db
looked_up now none db = (ok none, db)
looked_up now (some s) db =
    if is_live now s then (ok (some (debounced now s)), debounced_db now s db) else (ok none, db)

stale_test :
    (now : Datetime) (s : Session)
    → ltb (minutes last_seen_debounce_minutes) (now - s.last_seen_at)
      ≡ ltb (s.last_seen_at + minutes last_seen_debounce_minutes) now
stale_test now s = ground arith

touch_run :
    (now : Datetime) (s : Session) (db : Db)
    → touch now s (open_session db)
      ≡ (ok (some (debounced now s)), open_session (debounced_db now s db))
unfolding touch
touch_run now s db =
    elim (Bool-cases (ltb (s.last_seen_at + minutes last_seen_debounce_minutes) now)) [
      | inl stale ↦
          let save = modify (update_sessions (λ r. r.id == s.id) (seen now)) >> commit in
          rw (stale_test now s, stale)
            (>>=_ok save (λ _. pure (some (seen now s))) (open_session db)
              (commit-clean db (update_sessions (λ r. r.id == s.id) (seen now) db) []))
      | inr fresh ↦ rw (stale_test now s, fresh) refl
    ]

accept_run :
    (now : Datetime) (o : Option Session) (db : Db)
    → accept now o (open_session db) ≡ ((looked_up now o db).0, open_session (looked_up now o db).1)
unfolding accept
accept_run now none db = refl
accept_run now (some s) db = elim (Bool-cases (is_live now s)) [
  | inl live ↦ rw live (touch_run now s db)
  | inr dead ↦ rw dead refl
]

module _ (platform : Platform) (raw : Text) (now : Datetime) (db : Db) where
  -- the session that a token stands for
  abbrev pub presented : Option Session
  presented = if non_empty raw then by_token_hash (hash_token platform raw) db else none

  abbrev pub request : Result (Option Session) × Db
  request = with_session (lookup_session platform raw now) db

  -- The lookup as a step of a request: it returns, and leaves nothing uncommitted.
  pub lookup_session_run :
      lookup_session platform raw now (open_session db)
      ≡ ((looked_up now presented db).0, open_session (looked_up now presented db).1)
  unfolding lookup_session
  lookup_session_run = elim (Bool-cases (non_empty raw)) [
    | inl some_token ↦
        rw some_token (accept_run now (by_token_hash (hash_token platform raw) db) db)
    | inr no_token ↦ rw no_token refl
  ]

  pub lookup_session_lem : request ≡ looked_up now presented db
  lookup_session_lem = with_session_lem (lookup_session platform raw now) db lookup_session_run

  looked_up_accepts :
      (o : Option Session) (t : Session)
      → (looked_up now o db).0 ≡ ok (some t)
      → (row : Session) × (o ≡ some row) × IsUsable now row × (t ≡ debounced now row)
  looked_up_accepts none t h = cc
  looked_up_accepts (some s) t h = elim (Bool-cases (is_live now s)) [
    | inl live ↦ (s, refl, (is_live_iff now s).0 live, cc (rw live at h))
    | inr dead ↦ absurd (cc (rw dead at h))
  ]

  looked_up_returns :
      (o : Option Session) (t row : Session)
      → o ≡ some row
      → IsUsable now row
      → t ≡ debounced now row
      → (looked_up now o db).0 ≡ ok (some t)
  looked_up_returns o t row found usable e =
      rw (found, (is_live_iff now row).1 usable) (ap (λ s. ok (some s)) (sym e))

  -- A request presents a session exactly when its token is not empty, hashes to the token hash of a
  -- row, and that row is usable; what is returned is the row, with `last_seen_at` moved to now if it
  -- was more than five minutes old.
  pub lookup_session_iff :
      (t : Session)
      → (request.0 ≡ ok (some t))
        ↔ ((row : Session) × (presented ≡ some row) × IsUsable now row × (t ≡ debounced now row))
  lookup_session_iff t = (
    λ h. looked_up_accepts presented t (rw lookup_session_lem at h),
    λ (row, found, usable, e).
        rw lookup_session_lem (looked_up_returns presented t row found usable e),
  )

  -- The session that a token stands for is a row with the token's hash.
  pub presented-row :
      (row : Session)
      → presented ≡ some row
      → (row.token_hash ≡ hash_token platform raw) × Any (λ r. r ≡ row) db.sessions
  unfolding by_token_hash
  presented-row row e = elim (Bool-cases (non_empty raw)) [
    | inl some_token ↦
        let (t, m) =
          scalar-some (λ r. text_eq r.token_hash (hash_token platform raw)) db.sessions
            (rw some_token at e) in
        (text_eq→eq row.token_hash (hash_token platform raw) t, m)
    | inr no_token ↦ absurd (cc (rw no_token at e))
  ]

pub debounced-id : (now : Datetime) (s : Session) → (debounced now s).id ≡ s.id
debounced-id now s =
    elim (Bool-cases (ltb (s.last_seen_at + minutes last_seen_debounce_minutes) now)) [
      | inl stale ↦ rw stale refl
      | inr fresh ↦ rw fresh refl
    ]
