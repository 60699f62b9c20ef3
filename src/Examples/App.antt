-- ===== src/Examples/App.antt =====
-- Examples of the application around the routes.
use specter_cloud.Prelude.{true, codes, refl, none, ◌∷◌}
use specter_cloud.Routes.{Settings, lax, LoginRequest, login}
use specter_cloud.Rbac.{Request}
use specter_cloud.Login.{Draw}
use specter_cloud.Store.{open_session}
use specter_cloud.App.Answers.{no_details, Answers, login_refusals, routes_answer}
use specter_cloud.App.Responses.{respond}
use specter_cloud.Examples.Data.{platform, db, issue}
use specter_cloud.App.RedisClient.{
  no_clients, closed, start, next, get, begin_close, end_close, get_redis, close_begins, close_ends,
}
use specter_cloud.App.OneClient.{OneClient, Reach-OneClient}

-- a request gets the client while it is being closed
Reach-OneClient_example :
    OneClient (close_ends closed (get_redis (close_begins (get_redis no_clients).1)).1)
unfolding get_redis
Reach-OneClient_example = Reach-OneClient (
    next (next (next (next start (get no_clients)) (begin_close _ refl)) (get _))
      (end_close closed _))

abbrev payload : LoginRequest
payload = record { email = codes "alice@example.com"; password = codes "wrong" }

abbrev request : Request
request = record { state_request_id = none; client_host = none; user_agent = none }

abbrev settings : Settings
settings = record { session_cookie_secure = true; session_cookie_samesite = lax }

abbrev draw : Draw
draw = record { now = 2000; salt = codes "salt"; issue = issue 501 }

-- a wrong password
routes_answer_example :
    Answers
      (no_details ∷ login_refusals)
      (respond (login platform settings payload request draw (open_session db)).0)
routes_answer_example = (routes_answer platform).0 settings payload request draw (open_session db)
