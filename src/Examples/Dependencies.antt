-- ===== src/Examples/Dependencies.antt =====
-- Examples of `get_current_user`.
use specter_cloud.Prelude.{
  codes, ◌≡◌, ◌↔◌, refl, none, some, text_eq, strip, split_once, arith, scalar,
}
use specter_cloud.Store.{ok, with_session}
use specter_cloud.Login.{by_email, attempt_login}
use specter_cloud.Dependencies.{get_user, bearer_token, get_current_user}
use specter_cloud.Dependencies.AfterLogin.{login_authenticates}
use specter_cloud.Examples.Login.{credentials, draw, alice_signed_in, session, attempt_login-secret}
use specter_cloud.Dependencies.Presented.{IsLetThrough, get_current_user_iff}
use specter_cloud.Examples.Data.{db, alice, platform, with_alices}

bearer_token-token : bearer_token platform (codes "bearer  token ") ≡ some (codes "token")
unfolding bearer_token strip split_once text_eq
bearer_token-token = refl

get_current_user_iff_example :
    ((with_session
        (get_current_user platform none (some (codes "bearer token")) 2000)
        with_alices).0
      ≡ ok alice)
    ↔ IsLetThrough platform none (some (codes "bearer token")) 2000 with_alices alice
get_current_user_iff_example =
    get_current_user_iff platform none (some (codes "bearer token")) 2000 with_alices alice

login_authenticates_example :
    (with_session
      (get_current_user platform (some (codes "token")) none 5000)
      (with_session (attempt_login platform (credentials (codes "secret")) (draw 1000)) db).1).0
    ≡ ok alice_signed_in
unfolding by_email get_user scalar text_eq strip
login_authenticates_example =
    login_authenticates platform (credentials (codes "secret")) (draw 1000) db alice alice_signed_in
      (codes "token") session none 5000 attempt_login-secret refl refl refl (omega arith)
      (omega arith)
