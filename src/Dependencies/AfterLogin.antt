-- ===== src/Dependencies/AfterLogin.antt =====
-- A user who has just signed in is let through with the token of the login.
use specter_cloud.Prelude.{◌+◌, ◌≤◌, ◌≡◌, refl, Text, non_empty, true, Option, some}
use specter_cloud.Platform.{Platform}
use specter_cloud.Models.{Datetime, User, Session}
use specter_cloud.Store.{Db, ok, with_session}
use specter_cloud.Sessions.{days, idle_timeout_days, session_ttl_days}
use specter_cloud.Login.{login_success, Credentials, Draw, normalized, by_email, attempt_login}
use specter_cloud.Login.Success.{login-presented, login-IsUsable, login-get_user, login-active}
use specter_cloud.Dependencies.{raw_token, get_user, get_current_user}
use specter_cloud.Dependencies.CurrentUser.{get_current_user-IsAuthenticated}

-- After a successful login, a request with the token of the login in its cookie is let through as the
-- user of the login, whatever its Authorization header, within thirty days of the issue and seven
-- days of the new row's `last_seen_at`, if the token is not empty and the id of the user is unique.
pub login_authenticates :
    (platform : Platform) (c : Credentials) (draw : Draw) (db : Db) (user u : User) (raw : Text)
    (s : Session) (authorization : Option Text) (at : Datetime)
    → (with_session (attempt_login platform c draw) db).0 ≡ ok (login_success u raw s)
    → by_email (normalized platform c.email) db ≡ some user
    → get_user user.id db ≡ some user
    → non_empty raw ≡ true
    → at ≤ draw.issue.now + days session_ttl_days
    → at ≤ draw.issue.db_now + days idle_timeout_days
    → (with_session
        (get_current_user platform (some raw) authorization at)
        (with_session (attempt_login platform c draw) db).1).0
      ≡ ok u
unfolding raw_token
login_authenticates platform c draw db user u raw s authorization at h e one token expiry idle =
    (get_current_user-IsAuthenticated platform (some raw) authorization at _ u).1 (record {
      raw = raw;
      row = s;
      credential = refl;
      found = login-presented platform c draw db u raw s h at token;
      usable = login-IsUsable platform c draw db u raw s h at expiry idle;
      of_row = login-get_user platform c draw db u raw s h user e one;
      active = login-active platform c draw db u raw s h;
    })
