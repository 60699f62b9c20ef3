-- ===== src/Sessions/Requests.antt =====
-- What each request on sessions returns and leaves.
use specter_cloud.Prelude.{
  ℕ, ◌≡◌, ◌∙◌, refl, ap, inl, inr, Text, Bool, true, false, Option, none, some, List, [], ◌∷◌, leb,
  length, ◌==◌, if◌then◌else◌, Bool-cases, is_none, scalar, select,
}
use specter_cloud.Platform.{Platform}
use specter_cloud.Models.{Uuid, Datetime, SessionTransport, Session}
use specter_cloud.Store.{
  Db, State, LogLine, Result, ok, err, data_error, integrity_error, pure, query, modify, commit,
  ◌>>=◌, ◌>>◌, open_session, with_session, settled, with_session-settled, >>=_ok, commit-clean,
  flush, flush-clean, clean, after,
}
use specter_cloud.Sessions.{
  Issue, create_session, new_session, hash_token, insert_checked, insert_session, session_fits,
  session_refers, append_session, revoked, update_sessions, is_target, revoke_session, revoke_found,
  revoke_rows, commit_reason, revoke_all_user_sessions,
}

-- what a revocation returns and leaves, by the row that it finds
abbrev pub revoked_found : Text → Datetime → Option Session → Db → Result Bool × Db
revoked_found reason now none db = (ok false, db)
revoked_found reason now (some s) db =
    if is_none s.revoked_at
    then (if leb (length reason) 40
        then (ok true, update_sessions (λ r. r.id == s.id) (revoked now reason) db)
        else (err data_error, db))
    else (ok false, db)

-- an update that writes a reason, its commit, and a result
save_reason :
    {A : Type 0} (reason : Text) (f : Db → Db) (a : A) (db : Db)
    → (modify f >> commit_reason reason >> pure a) (open_session db)
      ≡ settled (if leb (length reason) 40 then (ok a, f db) else (err data_error, db))
unfolding commit_reason
save_reason reason f a db = elim (Bool-cases (leb (length reason) 40)) [
  | inl short ↦
      rw short
        (>>=_ok (modify f >> commit) (λ _. pure a) (open_session db) (commit-clean db (f db) []))
  | inr long ↦ rw long refl
]

revoke_found_lem :
    (reason : Text) (now : Datetime) (o : Option Session) (db : Db)
    → revoke_found reason now o (open_session db) ≡ settled (revoked_found reason now o db)
unfolding revoke_found
revoke_found_lem reason now none db = refl
revoke_found_lem reason now (some s) db = elim (Bool-cases (is_none s.revoked_at)) [
  | inl active ↦
      rw active
        (save_reason reason (update_sessions (λ r. r.id == s.id) (revoked now reason)) true db)
  | inr before ↦ rw before refl
]

pub revoke_session-settled :
    (session_id : Uuid) (reason : Text) (now : Datetime) (db : Db)
    → revoke_session session_id reason now (open_session db)
      ≡ settled (revoked_found reason now (scalar (λ r. r.id == session_id) db.sessions) db)
unfolding revoke_session
revoke_session-settled session_id reason now db =
    revoke_found_lem reason now (scalar (λ r. r.id == session_id) db.sessions) db

pub revoke_session_lem :
    (session_id : Uuid) (reason : Text) (now : Datetime) (db : Db)
    → with_session (revoke_session session_id reason now) db
      ≡ revoked_found reason now (scalar (λ r. r.id == session_id) db.sessions) db
revoke_session_lem session_id reason now db =
    with_session-settled (revoke_session session_id reason now) db
      (revoke_session-settled session_id reason now db)

-- what revoking the selected sessions of a user returns and leaves
abbrev pub revoked_rows :
    Uuid → Text → Option SessionTransport → Datetime → List Session → Db → Result ℕ × Db
revoked_rows user_id reason transport now [] db = (ok 0, db)
revoked_rows user_id reason transport now (r ∷ rows) db =
    if leb (length reason) 40
    then (
      ok (length (r ∷ rows)),
      update_sessions (is_target user_id transport) (revoked now reason) db,
    )
    else (err data_error, db)

revoke_rows_lem :
    (user_id : Uuid) (reason : Text) (transport : Option SessionTransport) (now : Datetime)
    (rows : List Session) (db : Db)
    → revoke_rows user_id reason transport now rows (open_session db)
      ≡ settled (revoked_rows user_id reason transport now rows db)
unfolding revoke_rows
revoke_rows_lem user_id reason transport now [] db = refl
revoke_rows_lem user_id reason transport now (r ∷ rows) db =
    save_reason reason (update_sessions (is_target user_id transport) (revoked now reason))
      (length (r ∷ rows)) db

pub revoke_all_lem :
    (user_id : Uuid) (reason : Text) (transport : Option SessionTransport) (now : Datetime)
    (db : Db)
    → with_session (revoke_all_user_sessions user_id reason transport now) db
      ≡ revoked_rows user_id reason transport now
          (select (is_target user_id transport) db.sessions)
          db
unfolding revoke_all_user_sessions
revoke_all_lem user_id reason transport now db =
    with_session-settled (revoke_all_user_sessions user_id reason transport now) db (
      revoke_rows_lem user_id reason transport now
        (select (is_target user_id transport) db.sessions) db)

-- what the insertion of a session does
abbrev pub inserted : Session → Db → Db → List LogLine → Result (Unit {0}) × State
inserted s before now logs =
    if session_fits s
    then (if session_refers now s
        then (ok tt, clean before (append_session s now) logs)
        else (err integrity_error, clean before before logs))
    else (err data_error, clean before before logs)

insert_checked_lem :
    (s : Session) (before now : Db) (logs : List LogLine)
    → insert_checked s (session_refers now s) (clean before now logs) ≡ inserted s before now logs
unfolding insert_checked
insert_checked_lem s before now logs = elim (Bool-cases (session_fits s)) [
  | inl short ↦ elim (Bool-cases (session_refers now s)) [
    | inl accepted ↦ rw (short, accepted) refl
    | inr rejected ↦ rw (short, rejected) refl
  ]
  | inr long ↦ rw long refl
]

insert_session_lem :
    (s : Session) (before now : Db) (logs : List LogLine)
    → insert_session s (clean before now logs) ≡ inserted s before now logs
unfolding insert_session
insert_session_lem s before now logs =
    >>=_ok flush (λ _. query (λ db. session_refers db s) >>= insert_checked s)
      (clean before now logs) (flush-clean before now logs)
    ∙ insert_checked_lem s before now logs

-- what `create_session` returns and leaves
abbrev pub created : Text → Session → Db → Db → List LogLine → Result (Text × Session) × State
created raw s before now logs = after (inserted s before now logs) (λ _. pure (raw, s))

pub create_session_lem :
    (platform : Platform) (user_id : Uuid) (transport : SessionTransport)
    (user_agent ip_address : Option Text) (draw : Issue) (before now : Db) (logs : List LogLine)
    → create_session platform user_id transport user_agent ip_address draw (clean before now logs)
      ≡ created draw.drawn
          (new_session
            (hash_token platform draw.drawn)
            user_id
            transport
            user_agent
            ip_address
            draw)
          before
          now
          logs
unfolding create_session
create_session_lem platform user_id transport user_agent ip_address draw before now logs =
    ap (λ r. after r (λ _. pure (draw.drawn, s))) (insert_session_lem s before now logs)
  where
    s : Session
    s = new_session (hash_token platform draw.drawn) user_id transport user_agent ip_address draw
