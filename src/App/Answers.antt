-- ===== src/App/Answers.antt =====
-- Which answers the routes give.
use specter_cloud.Prelude.{
  ℕ, ◌≡◌, refl, Text, codes, false, Option, none, some, List, [], ◌∷◌, Any, here, there, non_empty,
}
use specter_cloud.Platform.{Platform}
use specter_cloud.Models.{AuditLog, Datetime, User, Session}
use specter_cloud.Store.{
  State, Error, http_exception, value_error, integrity_error, data_error, multiple_results_found,
  Result, ok, err, Action,
}
use specter_cloud.Store.Raises.{
  is_http, Raises, Raises-pure, Raises-raise, Raises-query, Raises-log_warning, Raises-if,
  Raises->>=, Raises->>, Raises-commit,
}
use specter_cloud.Rbac.{Request}
use specter_cloud.Sessions.{by_token_hash, hash_token}
use specter_cloud.Login.{Draw, LoginResult, login_success, login_invalid, login_locked}
use specter_cloud.Dependencies.{
  inactive, check_user, check_session, check_token, raw_token, get_user, get_current_user,
}
use specter_cloud.Routes.{
  Settings, LoginRequest, credentials, session_cookie_name, invalid_row, locked_row, success_row,
  logout_row, write_then, answer_login, login, revoke_found_session, revoke_current, end_session,
  logout, me, from_model,
}
use specter_cloud.App.Raised.{
  write-Raises, attempt_login-Raises, lookup_session-Raises, revoke_session-Raises,
}
use specter_cloud.App.Responses.{Response, success, failure, failure_of, respond}

-- the answer that says nothing of the error
abbrev pub no_details : ℕ × Text
no_details = (500, codes "Internal Server Error")

-- The answer is a body or one of these failures.
pub data Answers {A : Type 0} (allowed : List (ℕ × Text)) : Response A → Type 0 where
  with_body : (a : A) → Answers allowed (success a)
  with_failure :
      (status : ℕ) (detail : Text)
      → Any (λ f. f ≡ (status, detail)) allowed
      → Answers allowed (failure status detail)

abbrev Failed : List (ℕ × Text) → Error → Type 0
Failed allowed e = Any (λ f. f ≡ failure_of e) (no_details ∷ allowed)

-- An exception that is not of HTTP is answered 500.
internal : (allowed : List (ℕ × Text)) (e : Error) → is_http e ≡ false → Failed allowed e
internal allowed (http_exception status detail) h = cc
internal allowed value_error h = here refl
internal allowed integrity_error h = here refl
internal allowed data_error h = here refl
internal allowed multiple_results_found h = here refl

respond-Answers :
    {A : Type 0} (allowed : List (ℕ × Text)) (r : Result A)
    → ((e : Error) → r ≡ err e → Failed allowed e)
    → Answers (no_details ∷ allowed) (respond r)
respond-Answers allowed (ok a) errors = with_body a
respond-Answers allowed (err e) errors = with_failure _ _ (errors e refl)

Raises-Answers :
    {A : Type 0} (allowed : List (ℕ × Text)) (m : Action A)
    → Raises (Failed allowed) m
    → (s : State) → Answers (no_details ∷ allowed) (respond (m s).0)
Raises-Answers allowed m r s = respond-Answers allowed (m s).0 (r.errors s)

-- the details of the answer 401 to a request that needs a user
abbrev pub unauthenticated : List (ℕ × Text)
unauthenticated =
    (401, codes "Authentication required")
    ∷ (401, codes "Invalid or expired session")
    ∷ (401, codes "Account inactive")
    ∷ []

-- the answers to a login that fails, 423 while the account is locked
abbrev pub login_refusals : List (ℕ × Text)
login_refusals =
    (401, codes "Invalid credentials")
    ∷ (423, codes "Account temporarily locked due to repeated failed attempts")
    ∷ []

module _ (platform : Platform) where
  inactive-Raises : Raises (Failed unauthenticated) inactive
  inactive-Raises =
      Raises->> _ (Raises-log_warning _ _ none)
        (Raises-raise _ _ (there (there (there (here refl)))))

  check_user-Raises : (o : Option User) → Raises (Failed unauthenticated) (check_user o)
  unfolding check_user
  check_user-Raises none = inactive-Raises
  check_user-Raises (some user) = Raises-if _ user.is_active (Raises-pure _ user) inactive-Raises

  check_session-Raises : (o : Option Session) → Raises (Failed unauthenticated) (check_session o)
  unfolding check_session
  check_session-Raises none = Raises-raise _ _ (there (there (here refl)))
  check_session-Raises (some sess) =
      Raises->>= _ (Raises-query _ (get_user sess.user_id)) check_user-Raises

  check_token-Raises :
      (now : Datetime) (o : Option Text)
      → Raises (Failed unauthenticated) (check_token platform now o)
  unfolding check_token
  check_token-Raises now none = Raises-raise _ _ (there (here refl))
  check_token-Raises now (some raw) =
      Raises->>= _ (lookup_session-Raises _ (internal unauthenticated) platform raw now)
        check_session-Raises

  get_current_user-Raises :
      (cookie_token authorization : Option Text) (now : Datetime)
      → Raises (Failed unauthenticated) (get_current_user platform cookie_token authorization now)
  unfolding get_current_user
  get_current_user-Raises cookie_token authorization now =
      check_token-Raises now (raw_token platform cookie_token authorization)

  revoke_found_session-Raises :
      (o : Option Session) (now : Datetime)
      → Raises (Failed unauthenticated) (revoke_found_session o now)
  unfolding revoke_found_session
  revoke_found_session-Raises none now = Raises-pure _ false
  revoke_found_session-Raises (some sess) now =
      revoke_session-Raises _ (internal unauthenticated) sess.id (codes "logout") now

  revoke_current-Raises :
      (cookie_token : Option Text) (now : Datetime)
      → Raises (Failed unauthenticated) (revoke_current platform cookie_token now)
  unfolding revoke_current
  revoke_current-Raises none now = Raises-pure _ false
  revoke_current-Raises (some token) now =
      Raises-if _ (non_empty token)
        (Raises->>= _ (Raises-query _ (by_token_hash (hash_token platform token)))
          (λ sess. revoke_found_session-Raises sess now))
        (Raises-pure _ false)

  write_then-Raises :
      {A : Type 0} (allowed : List (ℕ × Text)) (row : AuditLog) (k : Action A)
      → Raises (Failed allowed) k
      → Raises (Failed allowed) (write_then row k)
  write_then-Raises allowed row k r =
      Raises->> _
        (Raises->> _ (write-Raises _ (internal allowed) row) (Raises-commit _ (internal allowed))) r

  answer_login-Raises :
      (settings : Settings) (payload : LoginRequest) (request : Request) (result : LoginResult)
      → Raises (Failed login_refusals) (answer_login platform settings payload request result)
  unfolding answer_login
  answer_login-Raises settings payload request login_invalid =
      write_then-Raises login_refusals (invalid_row platform payload request) _
        (Raises-raise _ _ (there (here refl)))
  answer_login-Raises settings payload request (login_locked until) =
      write_then-Raises login_refusals (locked_row platform payload request until) _
        (Raises-raise _ _ (there (there (here refl))))
  answer_login-Raises settings payload request (login_success user raw sess) =
      write_then-Raises login_refusals (success_row platform payload request user) _
        (Raises-pure _ _)

  -- Whatever the state of the database is, a login with a valid payload is answered by its body, 401 "Invalid
  -- credentials", 423 with the lockout's detail or the 500 that says nothing of the error; `logout` and `me` are
  -- answered by their body, 401 with one of the three details of `get_current_user`, or that 500.
  pub routes_answer :
      ((settings : Settings) (payload : LoginRequest) (request : Request) (draw : Draw) (s : State)
        → Answers
            (no_details ∷ login_refusals)
            (respond (login platform settings payload request draw s).0))
      × ((cookie_token authorization : Option Text) (now later : Datetime) (s : State)
          → Answers
              (no_details ∷ unauthenticated)
              (respond (logout platform cookie_token authorization now later s).0))
      × ((cookie_token authorization : Option Text) (now : Datetime) (s : State)
          → Answers
              (no_details ∷ unauthenticated)
              (respond (me platform cookie_token authorization now s).0))
  unfolding login logout end_session me
  routes_answer = (
    λ settings payload request draw. Raises-Answers login_refusals _ (
        Raises->>= _
          (attempt_login-Raises _ (internal login_refusals) platform (credentials payload request)
            draw)
          (answer_login-Raises settings payload request)),
    λ cookie_token authorization now later. Raises-Answers unauthenticated _ (
        Raises->>= _ (get_current_user-Raises cookie_token authorization now) (λ user.
          Raises->> _ (revoke_current-Raises cookie_token later) (
            write_then-Raises unauthenticated (logout_row user) _
              (Raises-pure _ session_cookie_name)))),
    λ cookie_token authorization now. Raises-Answers unauthenticated _ (
        Raises->>= _ (get_current_user-Raises cookie_token authorization now)
          (λ user. Raises-pure _ (from_model user))),
  )
