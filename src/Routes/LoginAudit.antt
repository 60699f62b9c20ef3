-- ===== src/Routes/LoginAudit.antt =====
-- Every login that is answered leaves one audit row, which says what was answered.
use specter_cloud.Prelude.{
  codes, ◌≡◌, ◌∙◌, refl, ap, sym, Text, none, some, [], ◌∷◌, ◌++◌, true, false, &&_iff,
}
use specter_cloud.Platform.{Platform}
use specter_cloud.Models.{Datetime, User, Session, AuditLog}
use specter_cloud.Store.{
  http_exception, Db, data_error, Result, ok, err, fits, refused, with_session, user_exists,
}
use specter_cloud.Rbac.{Request}
use specter_cloud.Sessions.{session_refers}
use specter_cloud.Login.{
  LoginResult, login_success, login_invalid, login_locked, Draw, store_user, attempt_login,
}
use specter_cloud.Login.Leaves.{Leaves-audit_log, attempt_login-Leaves}
use specter_cloud.Login.Success.{login-stored, login_success-SignedIn}
use specter_cloud.Routes.{
  UserView, SessionCookie, Settings, LoginRequest, LoginResponse, credentials, invalid_row,
  locked_row, success_row, login,
}
use specter_cloud.Routes.Audited.{append_audit, recorded}
use specter_cloud.Routes.SignIn.{responded, login_lem}

-- the cookie that carries a token: a SessionCookie of thirty days that scripts cannot read
pub record Carries (settings : Settings) (raw : Text) (c : SessionCookie) : Type 0 where
  key : c.key ≡ codes "specter_session"
  value : c.value ≡ raw
  max_age : c.max_age ≡ 2_592_000
  httponly : c.httponly ≡ true
  secure : c.secure ≡ settings.session_cookie_secure
  samesite : c.samesite ≡ settings.session_cookie_samesite
  path : c.path ≡ codes "/"

-- the body of a login that succeeds shows the user
pub record Shows (user : User) (view : UserView) : Type 0 where
  id : view.id ≡ user.id
  email : view.email ≡ user.email
  name : view.name ≡ user.name
  org_id : view.org_id ≡ user.org_id

-- How a login that is answered ends, by the result of the attempt: with a response or one of two errors, and one
-- more audit row.
pub data Audits (settings : Settings) (db : Db) (o : Result LoginResponse × Db)
    : LoginResult → Type 0 where
  allowed :
      (user : User) (raw : Text) (s : Session) (response : LoginResponse) (row : AuditLog)
      → o.0 ≡ ok response
      → Shows user response.user
      → Carries settings raw response.cookie
      → row.action ≡ codes "login.success"
      → row.decision ≡ codes "allow"
      → row.user_id ≡ some user.id
      → o.1.audit_log ≡ db.audit_log ++ row ∷ []
      → Audits settings db o (login_success user raw s)
  invalid :
      (row : AuditLog)
      → o.0 ≡ err (http_exception 401 (codes "Invalid credentials"))
      → row.action ≡ codes "login.failed"
      → row.decision ≡ codes "deny"
      → row.user_id ≡ none
      → o.1.audit_log ≡ db.audit_log ++ row ∷ []
      → Audits settings db o login_invalid
  locked :
      (until : Datetime) (row : AuditLog)
      → o.0
        ≡ err (
            http_exception 423 (codes "Account temporarily locked due to repeated failed attempts"))
      → row.action ≡ codes "login.locked"
      → row.decision ≡ codes "deny"
      → row.user_id ≡ none
      → o.1.audit_log ≡ db.audit_log ++ row ∷ []
      → Audits settings db o (login_locked until)

-- A row of a denial names no key, and it fits if the User-Agent does.
module _ (platform : Platform) (payload : LoginRequest) (request : Request) (db : Db)
    (short : fits 500 request.user_agent ≡ true) where
  invalid_row-accepted : refused db (invalid_row platform payload request ∷ []) ≡ none
  unfolding refused
  invalid_row-accepted = rw short refl

  locked_row-accepted :
      (until : Datetime) → refused db (locked_row platform payload request until ∷ []) ≡ none
  unfolding refused
  locked_row-accepted until = rw short refl

  success_row-accepted :
      (user : User)
      → user_exists db user.id ≡ true
      → refused db (success_row platform payload request user ∷ []) ≡ none
  unfolding refused
  success_row-accepted user e = rw (short, e) refl

recorded-accepted :
    {A : Type 0} (row : AuditLog) (r : Result A) (db : Db)
    → refused db (row ∷ []) ≡ none
    → recorded row r db ≡ (r, append_audit row db)
recorded-accepted row r db e = rw e refl

module _ (platform : Platform) (settings : Settings) (payload : LoginRequest) (request : Request)
    (draw : Draw) (db : Db) where
  abbrev attempted : Result LoginResult × Db
  attempted = with_session (attempt_login platform (credentials payload request) draw) db

  success-user_exists :
      (user : User) (raw : Text) (s : Session)
      → attempted.0 ≡ ok (login_success user raw s)
      → user_exists attempted.1 user.id ≡ true
  unfolding session_refers
  success-user_exists user raw s h =
      let signed =
        login_success-SignedIn platform (credentials payload request) draw db user raw s h in
      let exists : user_exists (store_user user db) s.user_id ≡ true =
        ((&&_iff _ _).0 signed.accepted).1 in
      ap (λ d. user_exists d user.id)
        (login-stored platform (credentials payload request) draw db user raw s h)
      ∙ ap (user_exists (store_user user db)) (sym signed.of_user)
      ∙ exists

  -- the login, once the database has accepted the row
  login-recorded :
      {result : LoginResult} {r : Result LoginResponse} (row : AuditLog)
      → attempted.0 ≡ ok result
      → responded platform settings payload request (ok result, attempted.1)
        ≡ recorded row r attempted.1
      → refused attempted.1 (row ∷ []) ≡ none
      → with_session (login platform settings payload request draw) db
        ≡ (r, append_audit row attempted.1)
  login-recorded {r = r} row h answer accepted =
      login_lem platform settings payload request draw db
      ∙ ap (λ x. responded platform settings payload request (x, attempted.1)) h
      ∙ answer
      ∙ recorded-accepted row r attempted.1 accepted

  one_more_row :
      (row : AuditLog) {r : Result LoginResponse} {o : Result LoginResponse × Db}
      → o ≡ (r, append_audit row attempted.1)
      → o.1.audit_log ≡ db.audit_log ++ row ∷ []
  one_more_row row e =
      ap (λ x. x.1.audit_log) e
      ∙ ap (λ l. l ++ row ∷ [])
          (Leaves-audit_log (attempt_login-Leaves platform (credentials payload request) draw db))

  -- With a User-Agent that fits its column, a login whose attempt raises no error of the database is answered as
  -- the attempt ended: a success with the user's data and a cookie specter_session whose value is the session's
  -- token, for thirty days, httponly and with the attributes of the settings; a failure with 401 "Invalid
  -- credentials"; a lock with 423 and its detail. It leaves one audit row: one that allows and names the user
  -- in the first case, one that denies and names no user in the others.
  pub login-Audits :
      (result : LoginResult)
      → fits 500 request.user_agent ≡ true
      → attempted.0 ≡ ok result
      → Audits settings db (with_session (login platform settings payload request draw) db) result
  login-Audits login_invalid short h =
      let row = invalid_row platform payload request in
      let e =
        login-recorded row h refl
          (invalid_row-accepted platform payload request attempted.1 short) in
      invalid row (ap (λ x. x.0) e) refl refl refl (one_more_row row e)
  login-Audits (login_locked until) short h =
      let row = locked_row platform payload request until in
      let e =
        login-recorded row h refl
          (locked_row-accepted platform payload request attempted.1 short until) in
      locked until row (ap (λ x. x.0) e) refl refl refl (one_more_row row e)
  login-Audits (login_success user raw s) short h =
      let row = success_row platform payload request user in
      let e = login-recorded row h refl (
        success_row-accepted platform payload request attempted.1 short user
          (success-user_exists user raw s h)) in
      allowed user raw s _ row (ap (λ x. x.0) e)
        (record { id = refl; email = refl; name = refl; org_id = refl })
        (record {
          key = refl;
          value = refl;
          max_age = refl;
          httponly = refl;
          secure = refl;
          samesite = refl;
          path = refl;
        })
        refl refl refl (one_more_row row e)

  -- A failed attempt with a User-Agent of more than 500 characters is answered with an error of the database,
  -- and leaves the tables as the attempt did, without an audit row.
  pub long_user_agent :
      fits 500 request.user_agent ≡ false
      → attempted.0 ≡ ok login_invalid
      → with_session (login platform settings payload request draw) db
        ≡ (err data_error, attempted.1)
  unfolding refused
  long_user_agent long h =
      login_lem platform settings payload request draw db
      ∙ ap (λ x. responded platform settings payload request (x, attempted.1)) h
      ∙ rw long refl
