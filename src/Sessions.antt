-- ===== src/Sessions.antt =====
-- app/auth/session.py: server-side sessions.
pub mod Lookup
pub mod Requests
pub mod Steps
pub mod Keys
pub mod Holds
pub mod Fixed
pub mod RevokeAll
pub mod RoundTrip
pub mod Unique
pub mod Ledger
use specter_cloud.Prelude.{
  ℕ, ◌+◌, ◌-◌, ◌*◌, Text, non_empty, text_eq, Bool, true, false, not, ◌&&◌, ◌||◌, Option, none,
  some, List, [], ◌∷◌, ◌++◌, select, scalar, update, any, length, is_none, ltb, leb, ◌==◌,
  if◌then◌else◌,
}
use specter_cloud.Platform.{Platform}
use specter_cloud.Models.{Uuid, Datetime, SessionTransport, cookie, bearer, Session}
use specter_cloud.Store.{
  Db, State, Error, data_error, integrity_error, Action, pure, query, modify, err, ok, ◌>>=◌, ◌>>◌,
  fits, user_exists, rolled_back, flush, commit,
}

-- `timedelta(minutes=n)` and `timedelta(days=n)`
abbrev pub minutes : ℕ → ℕ
minutes n = n * 60_000_000

abbrev pub days : ℕ → ℕ
days n = n * 86_400_000_000

abbrev pub session_ttl_days : ℕ
session_ttl_days = 30

abbrev pub idle_timeout_days : ℕ
idle_timeout_days = 7

abbrev pub last_seen_debounce_minutes : ℕ
last_seen_debounce_minutes = 5

unfoldable pub hash_token : Platform → Text → Text
hash_token platform raw = platform.sha256_hex raw

-- `drawn` is what `secrets.token_urlsafe` returns.
unfoldable pub generate_token : Platform → Text → Text × Text
unfolding hash_token
generate_token platform drawn = (drawn, hash_token platform drawn)

-- an error of the database, which undoes the transaction
abbrev pub fail : {A : Type 0} → Error → Action A
fail e s = (err e, rolled_back s)

-- the column limits of `sessions`
unfoldable pub session_fits : Session → Bool
session_fits s = leb (length s.token_hash) 64 && fits 500 s.user_agent && fits 40 s.revoked_reason

-- the keys of `sessions`: unique ids and token hashes, and a user that exists
unfoldable pub session_refers : Db → Session → Bool
unfolding any text_eq
session_refers db s =
    not (any (λ r. r.id == s.id || text_eq r.token_hash s.token_hash) db.sessions)
    && user_exists db s.user_id

abbrev pub append_session : Session → Db → Db
append_session s db = record db { sessions = db.sessions ++ s ∷ [] }

-- the INSERT, once the database has looked at the keys
unfoldable pub insert_checked : Session → Bool → Action (Unit {0})
insert_checked sess accepted =
    if session_fits sess
    then (if accepted then modify (append_session sess) else fail integrity_error)
    else fail data_error

-- `db.add(sess)` and `db.flush()`
unfoldable pub insert_session : Session → Action (Unit {0})
unfolding insert_checked
insert_session sess = flush >> (query (λ db. session_refers db sess) >>= insert_checked sess)

-- What `create_session` draws: the primary key, the token, and the two clocks, Python's and the
-- database's.
pub record Issue : Type 0 where
  pub id : Uuid
  pub drawn : Text
  pub now : Datetime
  pub db_now : Datetime

abbrev pub new_session :
    Text → Uuid → SessionTransport → Option Text → Option Text → Issue → Session
new_session token_hash user_id transport user_agent ip_address issue = record {
  id = issue.id;
  user_id = user_id;
  token_hash = token_hash;
  transport = transport;
  user_agent = user_agent;
  ip_address = ip_address;
  created_at = issue.db_now;
  expires_at = issue.now + days session_ttl_days;
  last_seen_at = issue.db_now;
  revoked_at = none;
  revoked_reason = none;
}

unfoldable pub create_session :
    Platform → Uuid → SessionTransport → Option Text → Option Text → Issue → Action (Text × Session)
unfolding generate_token
create_session platform user_id transport user_agent ip_address issue =
    let (raw_token, token_hash) = generate_token platform issue.drawn in
    let sess = new_session token_hash user_id transport user_agent ip_address issue in
    insert_session sess >> pure (raw_token, sess)

-- the three tests on the session that was found. No moment is before the first one, so that the
-- idle cutoff of an early `now` is no later than any `last_seen_at`, as with a negative one.
unfoldable pub is_live : Datetime → Session → Bool
is_live now sess =
    if not (is_none sess.revoked_at)
    then false
    else if ltb sess.expires_at now
    then false
    else if ltb sess.last_seen_at (now - days idle_timeout_days)
    then false
    else true

abbrev pub seen : Datetime → Session → Session
seen now sess = record sess { last_seen_at = now }

abbrev pub update_sessions : (Session → Bool) → (Session → Session) → Db → Db
update_sessions p f db = record db { sessions = update p f db.sessions }

-- the debounced update of `last_seen_at`
unfoldable pub touch : Datetime → Session → Action (Option Session)
touch now sess =
    if ltb (minutes last_seen_debounce_minutes) (now - sess.last_seen_at)
    then (modify (update_sessions (λ r. r.id == sess.id) (seen now))
        >> commit
        >> pure (some (seen now sess)))
    else pure (some sess)

unfoldable pub accept : Datetime → Option Session → Action (Option Session)
unfolding touch is_live
accept now none = pure none
accept now (some sess) = if is_live now sess then touch now sess else pure none

-- `select(Session).where(Session.token_hash == token_hash)`
unfoldable pub by_token_hash : Text → Db → Option Session
by_token_hash token_hash db = scalar (λ r. text_eq r.token_hash token_hash) db.sessions

unfoldable pub lookup_session : Platform → Text → Datetime → Action (Option Session)
unfolding hash_token accept
lookup_session platform raw_token now =
    if non_empty raw_token
    then (query (by_token_hash (hash_token platform raw_token)) >>= accept now)
    else pure none

abbrev pub revoked : Datetime → Text → Session → Session
revoked now reason sess = record sess { revoked_at = some now; revoked_reason = some reason }

-- the commit of an update of `revoked_reason`
unfoldable pub commit_reason : Text → Action (Unit {0})
commit_reason reason = if leb (length reason) 40 then commit else fail data_error

unfoldable pub revoke_found : Text → Datetime → Option Session → Action Bool
unfolding commit_reason
revoke_found reason now none = pure false
revoke_found reason now (some sess) =
    if is_none sess.revoked_at
    then (modify (update_sessions (λ r. r.id == sess.id) (revoked now reason))
        >> commit_reason reason
        >> pure true)
    else pure false

unfoldable pub revoke_session : Uuid → Text → Datetime → Action Bool
unfolding revoke_found
revoke_session session_id reason now =
    query (λ db. scalar (λ r. r.id == session_id) db.sessions) >>= revoke_found reason now

abbrev same_transport : SessionTransport → SessionTransport → Bool
same_transport cookie cookie = true
same_transport bearer bearer = true
same_transport _ _ = false

-- the `where` clauses of `revoke_all_user_sessions`
unfoldable pub is_target : Uuid → Option SessionTransport → Session → Bool
is_target user_id none r = r.user_id == user_id && is_none r.revoked_at
is_target user_id (some t) r =
    r.user_id == user_id && is_none r.revoked_at && same_transport r.transport t

unfoldable pub revoke_rows :
    Uuid → Text → Option SessionTransport → Datetime → List Session → Action ℕ
revoke_rows user_id reason transport now [] = pure 0
revoke_rows user_id reason transport now (r ∷ rows) =
    modify (update_sessions (is_target user_id transport) (revoked now reason))
    >> commit_reason reason
    >> pure (length (r ∷ rows))

unfoldable pub revoke_all_user_sessions :
    Uuid → Text → Option SessionTransport → Datetime → Action ℕ
unfolding revoke_rows
revoke_all_user_sessions user_id reason transport now =
    query (λ db. select (is_target user_id transport) db.sessions)
    >>= revoke_rows user_id reason transport now
