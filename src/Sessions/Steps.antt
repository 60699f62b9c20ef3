-- ===== src/Sessions/Steps.antt =====
-- The requests on sessions as steps between committed tables, and what each of them changes.
use specter_cloud.Prelude.{
  ◌+◌, ◌≡◌, ◌∙◌, refl, ap, inl, inr, Text, true, Option, none, some, List, [], ◌∷◌, Any, ltb, leb,
  length, ◌==◌, if◌then◌else◌, Bool-cases, Option-cases, scalar-some,
}
use specter_cloud.Platform.{Platform}
use specter_cloud.Models.{Uuid, Datetime, SessionTransport, Session}
use specter_cloud.Store.{
  Db, Result, ok, err, data_error, integrity_error, Action, pure, commit, ◌>>=◌, ◌>>◌, with_session,
  >>=_ok, commit-clean, after,
}
use specter_cloud.Sessions.{
  Issue, create_session, new_session, hash_token, session_fits, session_refers, append_session,
  seen, revoked, update_sessions, is_target, lookup_session, revoke_session,
  revoke_all_user_sessions, is_live, minutes, last_seen_debounce_minutes,
}
use specter_cloud.Sessions.Requests.{
  revoked_found, revoked_rows, created, create_session_lem, revoke_session_lem, revoke_all_lem,
}
use specter_cloud.Sessions.Lookup.{presented, looked_up, lookup_session_lem, debounced_db}

-- What one request may do to the tables.
pub data Change (db : Db) (db' : Db) : Type 0 where
  same : db' ≡ db → Change db db'
  added :
      (s : Session)
      → session_fits s ≡ true
      → session_refers db s ≡ true
      → db' ≡ append_session s db
      → Change db db'
  touched :
      (now : Datetime) (s : Session)
      → db' ≡ update_sessions (λ r. r.id == s.id) (seen now) db
      → Change db db'
  revoked_one :
      (now : Datetime) (reason : Text) (s : Session)
      → Any (λ r. r ≡ s) db.sessions
      → s.revoked_at ≡ none
      → db' ≡ update_sessions (λ r. r.id == s.id) (revoked now reason) db
      → Change db db'
  revoked_many :
      (now : Datetime) (reason : Text) (user_id : Uuid) (transport : Option SessionTransport)
      → db' ≡ update_sessions (is_target user_id transport) (revoked now reason) db
      → Change db db'

-- a request that issues a session and commits
unfoldable pub issued :
    Platform → Uuid → SessionTransport → Option Text → Option Text → Issue → Action (Text × Session)
issued platform user_id transport user_agent ip_address issue = do
  r ← create_session platform user_id transport user_agent ip_address issue
  commit
  pure r

module _ (platform : Platform) where
  pub data Step (db : Db) : Db → Type 0 where
    issue :
        (user_id : Uuid) (transport : SessionTransport) (user_agent ip_address : Option Text)
        (draw : Issue)
        → Step db (with_session (issued platform user_id transport user_agent ip_address draw) db).1
    look_up :
        (raw : Text) (now : Datetime)
        → Step db (with_session (lookup_session platform raw now) db).1
    revoke :
        (session_id : Uuid) (reason : Text) (now : Datetime)
        → Step db (with_session (revoke_session session_id reason now) db).1
    revoke_all :
        (user_id : Uuid) (reason : Text) (transport : Option SessionTransport) (now : Datetime)
        → Step db (with_session (revoke_all_user_sessions user_id reason transport now) db).1

  pub data Reach (db : Db) : Db → Type 0 where
    start : Reach db db
    next : {mid last : Db} → Reach db mid → Step mid last → Reach db last

debounced_db-Change : (now : Datetime) (s : Session) (db : Db) → Change db (debounced_db now s db)
debounced_db-Change now s db =
    elim (Bool-cases (ltb (s.last_seen_at + minutes last_seen_debounce_minutes) now)) [
      | inl stale ↦ rw stale (touched now s refl)
      | inr fresh ↦ rw fresh (same refl)
    ]

looked_up-Change :
    (now : Datetime) (o : Option Session) (db : Db) → Change db (looked_up now o db).1
looked_up-Change now none db = same refl
looked_up-Change now (some s) db = elim (Bool-cases (is_live now s)) [
  | inl live ↦ rw live (debounced_db-Change now s db)
  | inr dead ↦ rw dead (same refl)
]

-- what such a request returns and leaves
abbrev pub issued_session : Text → Session → Db → Result (Text × Session) × Db
issued_session raw s db =
    if session_fits s
    then (if session_refers db s
        then (ok (raw, s), append_session s db)
        else (err integrity_error, db))
    else (err data_error, db)

abbrev save_issued : Text × Session → Action (Text × Session)
save_issued r = commit >> pure r

created_saved :
    (raw : Text) (s : Session) (db : Db)
    → let o = after (created raw s db db []) save_issued in
      (o.0, o.1.committed) ≡ issued_session raw s db
created_saved raw s db = elim (Bool-cases (session_fits s)) [
  | inl short ↦ elim (Bool-cases (session_refers db s)) [
    | inl accepted ↦
        rw (short, accepted)
          (ap (λ o. (o.0, o.1.committed))
            (>>=_ok commit (λ _. pure (raw, s)) _ (commit-clean db (append_session s db) [])))
    | inr rejected ↦ rw (short, rejected) refl
  ]
  | inr long ↦ rw long refl
]

pub issued_lem :
    (platform : Platform) (user_id : Uuid) (transport : SessionTransport)
    (user_agent ip_address : Option Text) (draw : Issue) (db : Db)
    → with_session (issued platform user_id transport user_agent ip_address draw) db
      ≡ issued_session draw.drawn
          (new_session
            (hash_token platform draw.drawn)
            user_id
            transport
            user_agent
            ip_address
            draw)
          db
unfolding issued with_session
issued_lem platform user_id transport user_agent ip_address draw db =
    ap (λ o. let o' = after o save_issued in (o'.0, o'.1.committed))
      (create_session_lem platform user_id transport user_agent ip_address draw db db [])
    ∙ created_saved draw.drawn
        (new_session (hash_token platform draw.drawn) user_id transport user_agent ip_address draw)
        db

issued_session-Change : (raw : Text) (s : Session) (db : Db) → Change db (issued_session raw s db).1
issued_session-Change raw s db = elim (Bool-cases (session_fits s)) [
  | inl short ↦ elim (Bool-cases (session_refers db s)) [
    | inl accepted ↦ rw (short, accepted) (added s short accepted refl)
    | inr rejected ↦ rw (short, rejected) (same refl)
  ]
  | inr long ↦ rw long (same refl)
]

revoked_found-Change :
    (reason : Text) (now : Datetime) (o : Option Session) (db : Db)
    → ((s : Session) → o ≡ some s → Any (λ r. r ≡ s) db.sessions)
    → Change db (revoked_found reason now o db).1
revoked_found-Change reason now none db found = same refl
revoked_found-Change reason now (some s) db found = elim (Option-cases s.revoked_at) [
  | inl active ↦ elim (Bool-cases (leb (length reason) 40)) [
    | inl short ↦ rw (active, short) (revoked_one now reason s (found s refl) active refl)
    | inr long ↦ rw (active, long) (same refl)
  ]
  | inr (t, before) ↦ rw before (same refl)
]

revoked_rows-Change :
    (user_id : Uuid) (reason : Text) (transport : Option SessionTransport) (now : Datetime)
    (rows : List Session) (db : Db)
    → Change db (revoked_rows user_id reason transport now rows db).1
revoked_rows-Change user_id reason transport now [] db = same refl
revoked_rows-Change user_id reason transport now (r ∷ rows) db =
    elim (Bool-cases (leb (length reason) 40)) [
      | inl short ↦ rw short (revoked_many now reason user_id transport refl)
      | inr long ↦ rw long (same refl)
    ]

-- Every request makes one of the changes.
pub Step-Change : {platform : Platform} {db db' : Db} → Step platform db db' → Change db db'
Step-Change {platform} {db} (issue user_id transport user_agent ip_address draw) =
    rw issued_lem (issued_session-Change draw.drawn _ db)
Step-Change {platform} {db} (look_up raw now) =
    rw lookup_session_lem (looked_up-Change now (presented platform raw now db) db)
Step-Change {db} (revoke session_id reason now) = rw revoke_session_lem (
    revoked_found-Change reason now _ db
      (λ s e. (scalar-some (λ r. r.id == session_id) db.sessions e).1))
Step-Change {db} (revoke_all user_id reason transport now) =
    rw revoke_all_lem (revoked_rows-Change user_id reason transport now _ db)
