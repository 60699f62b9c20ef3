-- ===== src/Dependencies.antt =====
-- app/auth/dependencies.py: who a request comes from.
pub mod CurrentUser
pub mod Presented
pub mod Authenticated
pub mod AfterLogin
use specter_cloud.Prelude.{
  Text, codes, text_eq, non_empty, strip, split_once, Bool, true, false, Option, none, some, scalar,
  ◌==◌, if◌then◌else◌,
}
use specter_cloud.Platform.{Platform}
use specter_cloud.Models.{Uuid, Datetime, User, Session}
use specter_cloud.Store.{
  Db, Action, Error, http_exception, pure, raise, query, log_warning, ◌>>=◌, ◌>>◌,
}
use specter_cloud.Sessions.{lookup_session}

abbrev pub unauthorized : Text → Error
unauthorized detail = http_exception 401 detail

abbrev pub or_none : Text → Option Text
or_none s = if non_empty s then some s else none

abbrev pub bearer_part : Platform → Option (Text × Text) → Option Text
bearer_part platform none = none
bearer_part platform (some (scheme, rest)) =
    if text_eq (platform.lower scheme) (codes "bearer") then or_none (strip rest) else none

-- the token of an Authorization header; 32 is the space
unfoldable pub bearer_token : Platform → Text → Option Text
bearer_token platform authorization = bearer_part platform (split_once 32 authorization)

-- the token that a request presents: that of the cookie, if there is a cookie
unfoldable pub raw_token : Platform → Option Text → Option Text → Option Text
raw_token platform (some cookie) authorization = some cookie
raw_token platform none none = none
raw_token platform none (some header) = bearer_token platform header

-- db.get(User, id)
unfoldable pub get_user : Uuid → Db → Option User
get_user id db = scalar (λ u. u.id == id) db.users

abbrev pub inactive : Action User
inactive =
    log_warning (codes "session_for_inactive_or_missing_user") none
    >> raise (unauthorized (codes "Account inactive"))

unfoldable pub check_user : Option User → Action User
check_user none = inactive
check_user (some user) = if user.is_active then pure user else inactive

unfoldable pub check_session : Option Session → Action User
unfolding check_user
check_session none = raise (unauthorized (codes "Invalid or expired session"))
check_session (some sess) = query (get_user sess.user_id) >>= check_user

unfoldable pub check_token : Platform → Datetime → Option Text → Action User
check_token platform now none = raise (unauthorized (codes "Authentication required"))
check_token platform now (some raw) = lookup_session platform raw now >>= check_session

unfoldable pub get_current_user : Platform → Option Text → Option Text → Datetime → Action User
unfolding check_token
get_current_user platform cookie_token authorization now =
    check_token platform now (raw_token platform cookie_token authorization)
