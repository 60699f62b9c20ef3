-- ===== src/Examples/Routes.antt =====
-- Examples of the routes that sign a user in and out.
use specter_cloud.Prelude.{
  ◌≡◌, ◌≢◌, refl, codes, Text, Option, none, some, nil, scalar, text_eq, strip, split_once, true,
}
use specter_cloud.Models.{Datetime, User}
use specter_cloud.Store.{ok, with_session, commit, refused}
use specter_cloud.Sessions.{by_token_hash, lookup_session}
use specter_cloud.Sessions.Steps.{start}
use specter_cloud.Sessions.Unique.{no_rows, one_more}
use specter_cloud.Login.{login_invalid, count_failure, attempt_login, by_email, check_password}
use specter_cloud.Password.{verify_password}
use specter_cloud.Rbac.{Request}
use specter_cloud.Dependencies.{
  get_current_user, get_user, check_session, check_token, raw_token, bearer_token,
}
use specter_cloud.Routes.{Settings, lax, LoginRequest, session_cookie_name, login, logout}
use specter_cloud.Routes.LoginAudit.{Audits, login-Audits}
use specter_cloud.Routes.SignOut.{logout_final}
use specter_cloud.Routes.Bearer.{Unrevoked, bearer_logout}
use specter_cloud.Examples.Data.{db, platform, alice, with_alices}
use specter_cloud.Examples.Login.{draw}

abbrev settings : Settings
settings = record { session_cookie_secure = true; session_cookie_samesite = lax }

abbrev payload : Text → LoginRequest
payload password = record { email = codes "alice@example.com"; password = password }

abbrev request : Option Text → Request
request user_agent = record { state_request_id = none; client_host = none; user_agent = user_agent }

login-Audits_example :
    Audits settings db
      (with_session
        (login platform settings (payload (codes "guess")) (request none) (draw 1000))
        db)
      login_invalid
unfolding attempt_login by_email scalar text_eq strip verify_password with_session check_password
    count_failure commit refused
login-Audits_example =
    login-Audits platform settings (payload (codes "guess")) (request none) (draw 1000) db
      login_invalid refl refl

logout_final_example :
    ((with_session (logout platform (some (codes "token")) none 2000 2001) with_alices).0
      ≡ ok session_cookie_name)
    × ((header : Option Text) (at : Datetime) (v : User)
        → (with_session
            (get_current_user platform (some (codes "token")) header at)
            (with_session (logout platform (some (codes "token")) none 2000 2001) with_alices).1).0
          ≢ ok v)
unfolding with_session get_current_user check_token lookup_session scalar text_eq raw_token
    by_token_hash check_session get_user
logout_final_example =
    logout_final platform (codes "token") none 2000 2001 with_alices _ alice (one_more nil no_rows)
      refl start

bearer_logout_example :
    ((with_session (logout platform none (some (codes "bearer token")) 2000 2001) with_alices).0
      ≡ ok session_cookie_name)
    × Unrevoked with_alices
        (with_session (logout platform none (some (codes "bearer token")) 2000 2001) with_alices).1
        alice
    × ((with_session
          (get_current_user platform none (some (codes "bearer token")) 2000)
          (with_session
            (logout platform none (some (codes "bearer token")) 2000 2001)
            with_alices).1).0
        ≡ ok alice)
unfolding with_session get_current_user check_token lookup_session scalar text_eq raw_token
    bearer_token split_once strip by_token_hash check_session get_user
bearer_logout_example =
    bearer_logout platform (some (codes "bearer token")) 2000 2001 with_alices alice refl
