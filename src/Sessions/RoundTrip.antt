-- ===== src/Sessions/RoundTrip.antt =====
-- A token that was issued is accepted by `lookup_session` until one of its timeouts.
use specter_cloud.Prelude.{
  ◌+◌, ◌≤◌, ◌≡◌, ◌≢◌, ◌∙◌, refl, ap, inl, inr, Text, non_empty, text_eq, text_eq_refl, text_eq→eq,
  true, false, ◌&&◌, Option, some, [], ◌∷◌, All-map_fun, scalar, scalar-append_none, arith, &&_iff,
  Bool-cases,
}
use specter_cloud.Platform.{Platform}
use specter_cloud.Models.{Uuid, Datetime, SessionTransport, Session}
use specter_cloud.Store.{Db, ok, with_session}
use specter_cloud.Sessions.{
  Issue, new_session, days, idle_timeout_days, session_ttl_days, hash_token, session_fits,
  session_refers, append_session, by_token_hash, lookup_session,
}
use specter_cloud.Sessions.Keys.{session_refers-IsApart}
use specter_cloud.Sessions.Lookup.{lookup_session_iff, debounced}
use specter_cloud.Sessions.Steps.{issued, issued_session, issued_lem}

text_ne : (s t : Text) → s ≢ t → text_eq s t ≡ false
text_ne s t h = elim (Bool-cases (text_eq s t)) [
  | inl e ↦ absurd (h (text_eq→eq s t e))
  | inr e ↦ e
]

pub by_token_hash-append :
    (s : Session) (db : Db)
    → session_refers db s ≡ true
    → by_token_hash s.token_hash (append_session s db) ≡ some s
unfolding by_token_hash scalar
by_token_hash-append s db h =
    scalar-append_none (λ r. text_eq r.token_hash s.token_hash) db.sessions (s ∷ [])
      (All-map_fun (λ r a. text_ne _ _ a.1) (session_refers-IsApart db s h))
    ∙ rw (text_eq_refl s.token_hash) refl

by_token_hash-issued :
    (raw : Text) (s row : Session) (db : Db)
    → (issued_session raw row db).0 ≡ ok (raw, s)
    → (s ≡ row) × (by_token_hash row.token_hash (issued_session raw row db).1 ≡ some row)
by_token_hash-issued raw s row db h =
    elim (Bool-cases (session_fits row && session_refers db row)) [
      | inl both ↦
          let (short, accepted) = (&&_iff (session_fits row) (session_refers db row)).0 both in
          (ground arith, rw (short, accepted) (by_token_hash-append row db accepted))
      | inr not_both ↦ absurd (ground arith)
    ]

-- A token that was just issued is accepted at every moment within thirty days of its issue and
-- seven days of the row's `last_seen_at`, and the session that comes back is the one that was
-- issued.
pub lookup-issued :
    (platform : Platform) (user_id : Uuid) (transport : SessionTransport)
    (user_agent ip_address : Option Text) (draw : Issue) (db : Db) (s : Session) (now : Datetime)
    → (with_session (issued platform user_id transport user_agent ip_address draw) db).0
      ≡ ok (draw.drawn, s)
    → non_empty draw.drawn ≡ true
    → now ≤ draw.now + days session_ttl_days
    → now ≤ draw.db_now + days idle_timeout_days
    → (with_session
        (lookup_session platform draw.drawn now)
        (with_session (issued platform user_id transport user_agent ip_address draw) db).1).0
      ≡ ok (some (debounced now s))
lookup-issued platform user_id transport user_agent ip_address draw db s now h token expiry idle =
    let row =
      new_session (hash_token platform draw.drawn) user_id transport user_agent ip_address draw in
    let (same_row, found) = by_token_hash-issued draw.drawn s row db (rw issued_lem at h) in
    (lookup_session_iff platform draw.drawn now _ (debounced now s)).1 (
      row,
      rw (issued_lem, token) found,
      record { not_revoked = refl; not_expired = expiry; not_idle = idle },
      ap (debounced now) same_row,
    )
