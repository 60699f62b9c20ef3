-- ===== src/Routes.antt =====
-- app/api/v1/auth.py: the routes that sign a user in and out.
pub mod Audited
pub mod SignIn
pub mod LoginAudit
pub mod Ending
pub mod SignOut
pub mod Bearer
use specter_cloud.Prelude.{
  ℕ, ◌*◌, Text, codes, strip, non_empty, text_eq, Bool, true, false, ◌&&◌, Option, none, some, List,
  [], ◌∷◌, length, leb, scalar, if◌then◌else◌,
}
use specter_cloud.Platform.{Platform}
use specter_cloud.Models.{Uuid, Datetime, User, Session, cookie, AuditLog}
use specter_cloud.Store.{Db, Action, Error, http_exception, pure, raise, query, commit, ◌>>=◌, ◌>>◌}
use specter_cloud.Audit.{allow, deny, entry, write}
use specter_cloud.Rbac.{Request}
use specter_cloud.Sessions.{session_ttl_days, hash_token, by_token_hash, revoke_session}
use specter_cloud.Login.{
  LoginResult, login_success, login_invalid, login_locked, Credentials, Draw, attempt_login,
}
use specter_cloud.Dependencies.{get_current_user}

-- what the routes read of app/core/config.py
pub data SameSite : Type 0 where
  lax strict unrestricted : SameSite

pub record Settings : Type 0 where
  pub session_cookie_secure : Bool
  pub session_cookie_samesite : SameSite

pub record LoginRequest : Type 0 where
  pub email : Text
  pub password : Text

abbrev between : ℕ → ℕ → Text → Bool
between min max s = leb min (length s) && leb (length s) max

-- the limits of the two fields
unfoldable pub accepts : LoginRequest → Bool
accepts payload = between 3 254 payload.email && between 1 1024 payload.password

pub record UserView : Type 0 where
  pub id : Uuid
  pub email : Text
  pub name : Text
  pub org_id : Uuid

abbrev pub from_model : User → UserView
from_model user = record {
  id = user.id;
  email = user.email;
  name = user.name;
  org_id = user.org_id;
}

-- the arguments of `set_cookie`
pub record SessionCookie : Type 0 where
  pub key : Text
  pub value : Text
  pub max_age : ℕ
  pub httponly : Bool
  pub secure : Bool
  pub samesite : SameSite
  pub path : Text

abbrev pub session_cookie_name : Text
session_cookie_name = codes "specter_session"

abbrev pub session_cookie : Settings → Text → SessionCookie
session_cookie settings raw_token = record {
  key = session_cookie_name;
  value = raw_token;
  max_age = session_ttl_days * 86_400;
  httponly = true;
  secure = settings.session_cookie_secure;
  samesite = settings.session_cookie_samesite;
  path = codes "/";
}

-- the body and the cookie of a login that succeeds
pub record LoginResponse : Type 0 where
  pub user : UserView
  pub cookie : SessionCookie

abbrev pub credentials : LoginRequest → Request → Credentials
credentials payload request = record {
  email = payload.email;
  password = payload.password;
  transport = cookie;
  user_agent = request.user_agent;
  ip_address = request.client_host;
}

-- the rows of the three outcomes
module _ (platform : Platform) (payload : LoginRequest) (request : Request) where
  abbrev attempted_email : Text × Text
  attempted_email = (codes "attempted_email", platform.lower (strip payload.email))

  abbrev pub invalid_row : AuditLog
  invalid_row = record (entry (codes "login.failed") deny) {
    reason = some (codes "invalid_credentials");
    ip_address = request.client_host;
    user_agent = request.user_agent;
    extra = some (attempted_email ∷ []);
  }

  abbrev pub locked_row : Datetime → AuditLog
  locked_row until = record (entry (codes "login.locked") deny) {
    reason = some (codes "account_locked");
    ip_address = request.client_host;
    user_agent = request.user_agent;
    extra = some (attempted_email ∷ (codes "locked_until", platform.isoformat until) ∷ []);
  }

  abbrev pub success_row : User → AuditLog
  success_row user = record (entry (codes "login.success") allow) {
    user_id = some user.id;
    ip_address = request.client_host;
    user_agent = request.user_agent;
  }

abbrev pub invalid_credentials : Error
invalid_credentials = http_exception 401 (codes "Invalid credentials")

abbrev pub account_locked : Error
account_locked =
    http_exception 423 (codes "Account temporarily locked due to repeated failed attempts")

-- `await audit_log.write(...)`, `await db.commit()` and what follows
abbrev pub write_then : {A : Type 0} → AuditLog → Action A → Action A
write_then row k = write row >> commit >> k

unfoldable pub answer_login :
    Platform → Settings → LoginRequest → Request → LoginResult → Action LoginResponse
answer_login platform settings payload request login_invalid =
    write_then (invalid_row platform payload request) (raise invalid_credentials)
answer_login platform settings payload request (login_locked until) =
    write_then (locked_row platform payload request until) (raise account_locked)
answer_login platform settings payload request (login_success user raw_token sess) =
    write_then (success_row platform payload request user)
      (pure (record { user = from_model user; cookie = session_cookie settings raw_token }))

-- the handler, for a payload that FastAPI has validated
unfoldable pub login : Platform → Settings → LoginRequest → Request → Draw → Action LoginResponse
unfolding answer_login
login platform settings payload request draw =
    attempt_login platform (credentials payload request) draw
    >>= answer_login platform settings payload request

-- `revoke_session` for the session that the token's hash finds
unfoldable pub revoke_found_session : Option Session → Datetime → Action Bool
revoke_found_session none now = pure false
revoke_found_session (some sess) now = revoke_session sess.id (codes "logout") now

-- the revocation, if there is a cookie that is not empty
unfoldable pub revoke_current : Platform → Option Text → Datetime → Action Bool
unfolding revoke_found_session
revoke_current platform none now = pure false
revoke_current platform (some cookie_token) now =
    if non_empty cookie_token
    then (query (by_token_hash (hash_token platform cookie_token)) >>= λ sess.
        revoke_found_session sess now)
    else pure false

abbrev pub logout_row : User → AuditLog
logout_row user = record (entry (codes "logout") allow) { user_id = some user.id }

-- the handler, once the user is known. The cookie that it deletes is the name that it returns.
unfoldable pub end_session : Platform → Option Text → Datetime → User → Action Text
end_session platform cookie_token now user =
    revoke_current platform cookie_token now
    >> write_then (logout_row user) (pure session_cookie_name)

-- `now` is the clock of `get_current_user`, `later` that of the revocation.
unfoldable pub logout : Platform → Option Text → Option Text → Datetime → Datetime → Action Text
unfolding end_session
logout platform cookie_token authorization now later =
    get_current_user platform cookie_token authorization now
    >>= end_session platform cookie_token later

unfoldable pub me : Platform → Option Text → Option Text → Datetime → Action UserView
me platform cookie_token authorization now =
    get_current_user platform cookie_token authorization now >>= λ user. pure (from_model user)
