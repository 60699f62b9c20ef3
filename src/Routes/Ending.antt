-- ===== src/Routes/Ending.antt =====
-- What ends a logout: the revocation of the session that the token's hash finds, and the audit row.
use specter_cloud.Prelude.{
  scalar-none, Option-cases, ◌≡◌, ◌∙◌, refl, ap, inl, inr, Text, codes, Bool, true, false, none,
  some, if◌then◌else◌, Any, All-at, Bool-cases, ◌==◌, ==_refl, ==_iff, scalar, scalar-some,
  scalar-update, any-true, non_empty, text_eq, List, [], ◌∷◌, ltb, ◌+◌,
}
use specter_cloud.Platform.{Platform}
use specter_cloud.Models.{Datetime, User, Session}
use specter_cloud.Store.{
  pure, Db, ok, settled, open_session, after, refused, user_exists, ◌>>=◌, query,
}
use specter_cloud.Sessions.{
  by_token_hash, hash_token, revoke_session, seen, revoked, update_sessions, minutes,
  last_seen_debounce_minutes,
}
use specter_cloud.Sessions.Requests.{revoked_found, revoke_session-settled}
use specter_cloud.Sessions.Lookup.{debounced, debounced_db}
use specter_cloud.Sessions.Unique.{IsDistinct, IsDistinct-same}
use specter_cloud.Dependencies.{get_user}
use specter_cloud.Routes.{
  List, revoke_found_session, revoke_current, logout_row, end_session, session_cookie_name,
  write_then,
}
use specter_cloud.Routes.Audited.{recorded_by, append_audit, write_then-settled}

-- Among rows with distinct keys, the search for the id of a row finds it.
scalar-IsDistinct :
    {rows : List Session} (s : Session)
    → IsDistinct rows
    → Any (λ r. r ≡ s) rows
    → scalar (λ r. r.id == s.id) rows ≡ some s
scalar-IsDistinct {rows} s d m = elim (Option-cases (scalar (λ r. r.id == s.id) rows)) [
  | inl no_row ↦ absurd (cc (All-at (scalar-none (λ r. r.id == s.id) rows no_row) m, ==_refl s.id))
  | inr (x, e) ↦
      let (same_id, there_x) = scalar-some (λ r. r.id == s.id) rows e in
      e ∙ ap some (IsDistinct-same d there_x m (inl ((==_iff x.id s.id).0 same_id)))
]

pub debounced-hash : (now : Datetime) (s : Session) → (debounced now s).token_hash ≡ s.token_hash
debounced-hash now s =
    elim (Bool-cases (ltb (s.last_seen_at + minutes last_seen_debounce_minutes) now)) [
      | inl stale ↦ rw stale refl
      | inr fresh ↦ rw fresh refl
    ]

pub debounced-revoked : (now : Datetime) (s : Session) → (debounced now s).revoked_at ≡ s.revoked_at
debounced-revoked now s =
    elim (Bool-cases (ltb (s.last_seen_at + minutes last_seen_debounce_minutes) now)) [
      | inl stale ↦ rw stale refl
      | inr fresh ↦ rw fresh refl
    ]

-- The token's hash finds the session again, as the lookup left it.
pub debounced-found :
    (now : Datetime) (h : Text) (db : Db) (s : Session)
    → by_token_hash h db ≡ some s
    → by_token_hash h (debounced_db now s db) ≡ some (debounced now s)
unfolding by_token_hash
debounced-found now h db s e =
    elim (Bool-cases (ltb (s.last_seen_at + minutes last_seen_debounce_minutes) now)) [
      | inl stale ↦ rw stale (
          scalar-update (λ r. text_eq r.token_hash h) (λ r. r.id == s.id) (seen now) (λ r. refl)
            db.sessions e (==_refl s.id))
      | inr fresh ↦ rw fresh e
    ]

abbrev pub reason : Text
reason = codes "logout"

pub debounced_db-user_exists :
    (now : Datetime) (s : Session) (u : User) (db : Db)
    → get_user s.user_id db ≡ some u
    → user_exists (debounced_db now s db) u.id ≡ true
unfolding get_user
debounced_db-user_exists now s u db e =
    let (t, m) = scalar-some (λ u. u.id == s.user_id) db.users e in
    let exists : user_exists db u.id ≡ true = any-true (λ v. v.id == u.id) m (==_refl u.id) in
    elim (Bool-cases (ltb (s.last_seen_at + minutes last_seen_debounce_minutes) now)) [
      | inl stale ↦ rw stale exists
      | inr fresh ↦ rw fresh exists
    ]

revoked_found-active :
    (now : Datetime) (s : Session) (db : Db)
    → s.revoked_at ≡ none
    → revoked_found reason now (some s) db
      ≡ (ok true, update_sessions (λ r. r.id == s.id) (revoked now reason) db)
revoked_found-active now s db e = rw e refl

-- the tables once the session is revoked
abbrev pub signed_out : Datetime → Session → Db → Db
signed_out later s db = update_sessions (λ r. r.id == s.id) (revoked later reason) db

-- The end of a logout, once the user is known: `d` is the session that the token's hash finds.
module _ (platform : Platform) (t : Text) (later : Datetime) (u : User) (db : Db) (d : Session)
    (token : non_empty t ≡ true) (found : by_token_hash (hash_token platform t) db ≡ some d)
    (active : d.revoked_at ≡ none) (distinct : IsDistinct db.sessions)
    (exists : user_exists db u.id ≡ true) where
  pub revoke_session-active :
      revoke_session d.id reason later (open_session db) ≡ settled (ok true, signed_out later d db)
  unfolding by_token_hash
  revoke_session-active =
      revoke_session-settled d.id reason later db
      ∙ ap (λ o. settled (revoked_found reason later o db))
          (scalar-IsDistinct d distinct (scalar-some _ db.sessions found).1)
      ∙ ap settled (revoked_found-active later d db active)

  revoke_current-active :
      revoke_current platform (some t) later (open_session db)
      ≡ settled (ok true, signed_out later d db)
  unfolding revoke_current
  revoke_current-active =
      ap
        (λ (b : Bool).
          (if b
              then (query (by_token_hash (hash_token platform t)) >>= λ sess.
                  revoke_found_session sess later)
              else pure false)
            (open_session db))
        token
      ∙ ap (λ o. revoke_found_session o later (open_session db)) found
      ∙ revoke_session-active

  logout_row-accepted : refused (signed_out later d db) (logout_row u ∷ []) ≡ none
  unfolding refused
  logout_row-accepted = rw exists refl

  pub end_session-settled :
      end_session platform (some t) later u (open_session db)
      ≡ settled (ok session_cookie_name, append_audit (logout_row u) (signed_out later d db))
  unfolding end_session
  end_session-settled =
      ap (λ o. after o (λ _. write_then (logout_row u) (pure session_cookie_name)))
        revoke_current-active
      ∙ write_then-settled (logout_row u) (ok session_cookie_name) (signed_out later d db)
          (inl refl)
      ∙ ap
          (λ o.
            settled (recorded_by o (logout_row u) (ok session_cookie_name) (signed_out later d db)))
          logout_row-accepted
