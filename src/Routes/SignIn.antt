-- ===== src/Routes/SignIn.antt =====
-- What `POST /login` answers, and the audit row that it leaves.
use specter_cloud.Prelude.{◌≡◌, ◌∙◌, refl, ap, sym, inl, inr}
use specter_cloud.Platform.{Platform}
use specter_cloud.Store.{
  Db, Result, ok, err, open_session, settled, with_session, with_session-settled, after,
}
use specter_cloud.Rbac.{Request}
use specter_cloud.Login.{
  LoginResult, login_success, login_invalid, login_locked, Draw, attempt_login,
}
use specter_cloud.Login.Outcome.{attempt_login-settled, attempt_login_lem}
use specter_cloud.Routes.{
  Settings, LoginRequest, LoginResponse, credentials, from_model, session_cookie, invalid_row,
  locked_row, success_row, invalid_credentials, account_locked, answer_login, login,
}
use specter_cloud.Routes.Audited.{recorded, write_then-settled}

module _ (platform : Platform) (settings : Settings) (payload : LoginRequest)
    (request : Request) where
  -- what follows an attempt
  abbrev pub responded : Result LoginResult × Db → Result LoginResponse × Db
  responded (err e, db) = (err e, db)
  responded (ok login_invalid, db) =
      recorded (invalid_row platform payload request) (err invalid_credentials) db
  responded (ok (login_locked until), db) =
      recorded (locked_row platform payload request until) (err account_locked) db
  responded (ok (login_success user raw_token sess), db) =
      recorded (success_row platform payload request user)
        (ok (record { user = from_model user; cookie = session_cookie settings raw_token })) db

  answered :
      (o : Result LoginResult × Db)
      → after (settled o) (answer_login platform settings payload request) ≡ settled (responded o)
  unfolding answer_login
  answered (err e, db) = refl
  answered (ok login_invalid, db) = write_then-settled _ _ db (inr refl)
  answered (ok (login_locked until), db) = write_then-settled _ _ db (inr refl)
  answered (ok (login_success user raw_token sess), db) = write_then-settled _ _ db (inl refl)

  module _ (draw : Draw) (db : Db) where
    abbrev attempt : Result LoginResult × Db
    attempt = with_session (attempt_login platform (credentials payload request) draw) db

    pub login-settled :
        login platform settings payload request draw (open_session db) ≡ settled (responded attempt)
    unfolding login
    login-settled =
        ap (λ o. after o (answer_login platform settings payload request))
          (attempt_login-settled platform (credentials payload request) draw db)
        ∙ answered _
        ∙ ap (λ o. settled (responded o))
            (sym (attempt_login_lem platform (credentials payload request) draw db))

    pub login_lem :
        with_session (login platform settings payload request draw) db ≡ responded attempt
    login_lem = with_session-settled (login platform settings payload request draw) db login-settled
