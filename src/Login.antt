-- ===== src/Login.antt =====
-- app/auth/login.py: signing in, and the lockout after failed attempts.
pub mod Outcome
pub mod Attempts
pub mod Series
pub mod Overlap
pub mod Lockout
pub mod Leaves
pub mod Counts
pub mod Reached
pub mod Success
pub mod Admits
use specter_cloud.Prelude.{
  ℕ, suc, ◌+◌, Text, codes, strip, text_eq, Bool, true, false, not, Option, none, some, scalar,
  update, ltb, leb, ◌==◌, if◌then◌else◌,
}
use specter_cloud.Platform.{Platform}
use specter_cloud.Models.{Uuid, Datetime, User, SessionTransport, Session}
use specter_cloud.Store.{Db, Action, pure, query, modify, commit, ◌>>=◌, ◌>>◌}
use specter_cloud.Password.{hash_password, verify_password, needs_rehash}
use specter_cloud.Sessions.{Issue, minutes, create_session}

abbrev pub lockout_threshold : ℕ
lockout_threshold = 5

abbrev pub lockout_duration_minutes : ℕ
lockout_duration_minutes = 15

pub data LoginResult : Type 0 where
  login_success : User → Text → Session → LoginResult
  login_invalid : LoginResult
  login_locked : Datetime → LoginResult

-- the keyword arguments of `attempt_login`
pub record Credentials : Type 0 where
  pub email : Text
  pub password : Text
  pub transport : SessionTransport
  pub user_agent : Option Text
  pub ip_address : Option Text

-- What an attempt draws: its clock, the salt of a hash, and what `create_session` draws.
pub record Draw : Type 0 where
  pub now : Datetime
  pub salt : Text
  pub issue : Issue

abbrev pub normalized : Platform → Text → Text
normalized platform email = platform.lower (strip email)

-- `select(User).where(User.email == email)`
unfoldable pub by_email : Text → Db → Option User
by_email email db = scalar (λ u. text_eq u.email email) db.users

-- the UPDATE of the columns that `attempt_login` assigns, and of `updated_at`
abbrev pub write_user : User → User → User
write_user user r = record r {
  failed_login_count = user.failed_login_count;
  locked_until = user.locked_until;
  last_login_at = user.last_login_at;
  password_hash = user.password_hash;
  updated_at = user.updated_at;
}

abbrev pub store_user : User → Db → Db
store_user user db = record db { users = update (λ r. r.id == user.id) (write_user user) db.users }

-- a user after one more wrong password
unfoldable pub failed : Draw → User → User
failed draw user =
    let count = user.failed_login_count + 1 in
    if leb lockout_threshold count
    then record user {
      failed_login_count = 0;
      locked_until = some (draw.now + minutes lockout_duration_minutes);
      updated_at = draw.issue.db_now;
    }
    else record user { failed_login_count = count; updated_at = draw.issue.db_now }

unfoldable pub count_failure : Draw → User → Action LoginResult
count_failure draw user = modify (store_user (failed draw user)) >> commit >> pure login_invalid

-- a user after the right password
abbrev pub signed_in : Draw → User → Text → User
signed_in draw user password_hash = record user {
  failed_login_count = 0;
  locked_until = none;
  last_login_at = some draw.now;
  password_hash = password_hash;
  updated_at = draw.issue.db_now;
}

unfoldable pub rehash : Platform → Text → Text → Text → Action Text
rehash platform password salt password_hash =
    if needs_rehash platform password_hash
    then hash_password platform salt password
    else pure password_hash

-- the session of a user who signed in, and the commit
unfoldable pub start_session : Platform → Credentials → Draw → User → Action LoginResult
start_session platform c draw user = do
  r ← create_session platform user.id c.transport c.user_agent c.ip_address draw.issue
  commit
  pure (login_success user r.0 r.1)

unfoldable pub store_and_start : Platform → Credentials → Draw → User → Action LoginResult
store_and_start platform c draw user =
    modify (store_user user) >> start_session platform c draw user

-- the success path
unfoldable pub succeed : Platform → Credentials → Draw → User → Action LoginResult
unfolding rehash
succeed platform c draw user =
    rehash platform c.password draw.salt user.password_hash >>= λ password_hash.
    store_and_start platform c draw (signed_in draw user password_hash)

unfoldable pub check_password : Platform → Credentials → Draw → User → Action LoginResult
check_password platform c draw user =
    if verify_password platform c.password user.password_hash
    then succeed platform c draw user
    else count_failure draw user

-- the test on `locked_until`, and what follows it
unfoldable pub check_lock :
    Platform → Credentials → Draw → User → Option Datetime → Action LoginResult
check_lock platform c draw user none = check_password platform c draw user
check_lock platform c draw user (some until) =
    if ltb draw.now until then pure (login_locked until) else check_password platform c draw user

unfoldable pub sign_in : Platform → Credentials → Draw → Option User → Action LoginResult
unfolding check_lock
sign_in platform c draw none =
    hash_password platform draw.salt (codes "placeholder-to-burn-cpu") >> pure login_invalid
sign_in platform c draw (some user) =
    if user.is_active then check_lock platform c draw user user.locked_until else pure login_invalid

unfoldable pub attempt_login : Platform → Credentials → Draw → Action LoginResult
unfolding sign_in
attempt_login platform c draw =
    query (by_email (normalized platform c.email)) >>= sign_in platform c draw
