-- ===== src/Login/Outcome.antt =====
-- What a login attempt returns and leaves, on every branch.
use specter_cloud.Prelude.{
  ◌≡◌, ◌∙◌, refl, ap, inl, inr, Text, non_empty, Bool, true, false, Option, none, some, [], ltb,
  if◌then◌else◌, Bool-cases,
}
use specter_cloud.Platform.{Platform}
use specter_cloud.Models.{Datetime, User, Session}
use specter_cloud.Store.{
  Db, Result, ok, err, value_error, data_error, integrity_error, Action, pure, modify, commit, ◌>>◌,
  open_session, with_session, settled, with_session-settled, >>=_ok, commit-clean, after,
}
use specter_cloud.Password.{hash_password, verify_password, needs_rehash}
use specter_cloud.Sessions.{new_session, hash_token, session_fits, session_refers, append_session}
use specter_cloud.Sessions.Requests.{created, create_session_lem}
use specter_cloud.Login.{
  LoginResult, login_success, login_invalid, login_locked, Credentials, Draw, normalized, by_email,
  store_user, failed, count_failure, signed_in, start_session, store_and_start, succeed,
  check_password, check_lock, sign_in, attempt_login,
}

module _ (platform : Platform) (c : Credentials) (draw : Draw) (db : Db) where
  -- the session that the attempt would create
  abbrev pub session_for : User → Session
  session_for user =
      new_session (hash_token platform draw.issue.drawn) user.id c.transport c.user_agent
        c.ip_address draw.issue

  abbrev pub started : User → Result LoginResult × Db
  started user =
      if session_fits (session_for user)
      then (if session_refers (store_user user db) (session_for user)
          then (
            ok (login_success user draw.issue.drawn (session_for user)),
            append_session (session_for user) (store_user user db),
          )
          else (err integrity_error, db))
      else (err data_error, db)

  abbrev pub admitted : User → Result LoginResult × Db
  admitted user =
      if needs_rehash platform user.password_hash
      then (if non_empty c.password
          then started (signed_in draw user (platform.argon2_hash draw.salt c.password))
          else (err value_error, db))
      else started (signed_in draw user user.password_hash)

  abbrev pub checked : User → Result LoginResult × Db
  checked user =
      if verify_password platform c.password user.password_hash
      then admitted user
      else (ok login_invalid, store_user (failed draw user) db)

  abbrev pub unlocked : User → Option Datetime → Result LoginResult × Db
  unlocked user none = checked user
  unlocked user (some until) =
      if ltb draw.now until then (ok (login_locked until), db) else checked user

  abbrev pub outcome : Option User → Result LoginResult × Db
  outcome none = (ok login_invalid, db)
  outcome (some user) =
      if user.is_active then unlocked user user.locked_until else (ok login_invalid, db)

  abbrev finish : User → Text × Session → Action LoginResult
  finish user r = commit >> pure (login_success user r.0 r.1)

  created-finish :
      (user : User)
      → after (created draw.issue.drawn (session_for user) db (store_user user db) []) (finish user)
        ≡ settled (started user)
  created-finish user =
      let s = session_for user in
      elim (Bool-cases (session_fits s)) [
        | inl short ↦ elim (Bool-cases (session_refers (store_user user db) s)) [
          | inl accepted ↦
              rw (short, accepted)
                (>>=_ok commit (λ _. pure (login_success user draw.issue.drawn s)) _
                  (commit-clean db (append_session s (store_user user db)) []))
          | inr rejected ↦ rw (short, rejected) refl
        ]
        | inr long ↦ rw long refl
      ]

  store_and_start_lem :
      (user : User)
      → store_and_start platform c draw user (open_session db) ≡ settled (started user)
  unfolding store_and_start start_session
  store_and_start_lem user =
      ap (λ o. after o (finish user))
        (create_session_lem platform user.id c.transport c.user_agent c.ip_address draw.issue db
          (store_user user db) [])
      ∙ created-finish user

  succeed_lem :
      (user : User) → succeed platform c draw user (open_session db) ≡ settled (admitted user)
  unfolding succeed hash_password
  succeed_lem user = elim (Bool-cases (needs_rehash platform user.password_hash)) [
    | inl old ↦ elim (Bool-cases (non_empty c.password)) [
      | inl some_text ↦ rw (old, some_text) (store_and_start_lem _)
      | inr no_text ↦ rw (old, no_text) refl
    ]
    | inr current ↦ rw current (store_and_start_lem _)
  ]

  pub count_failure_lem :
      (user : User)
      → count_failure draw user (open_session db)
        ≡ settled (ok login_invalid, store_user (failed draw user) db)
  unfolding count_failure
  count_failure_lem user =
      let save = modify (store_user (failed draw user)) >> commit in
      >>=_ok save (λ _. pure login_invalid) (open_session db)
        (commit-clean db (store_user (failed draw user) db) [])

  check_password_lem :
      (user : User) → check_password platform c draw user (open_session db) ≡ settled (checked user)
  unfolding check_password
  check_password_lem user =
      elim (Bool-cases (verify_password platform c.password user.password_hash)) [
        | inl right ↦ rw right (succeed_lem user)
        | inr wrong ↦ rw wrong (count_failure_lem user)
      ]

  check_lock_lem :
      (user : User) (o : Option Datetime)
      → check_lock platform c draw user o (open_session db) ≡ settled (unlocked user o)
  unfolding check_lock
  check_lock_lem user none = check_password_lem user
  check_lock_lem user (some until) = elim (Bool-cases (ltb draw.now until)) [
    | inl locked ↦ rw locked refl
    | inr over ↦ rw over (check_password_lem user)
  ]

  sign_in_lem :
      (o : Option User) → sign_in platform c draw o (open_session db) ≡ settled (outcome o)
  unfolding sign_in hash_password
  sign_in_lem none = refl
  sign_in_lem (some user) = by_active user.is_active
    where
      by_active :
          (active : Bool)
          → (if active
                then check_lock platform c draw user user.locked_until
                else pure login_invalid)
              (open_session db)
            ≡ settled (if active then unlocked user user.locked_until else (ok login_invalid, db))
      by_active true = check_lock_lem user user.locked_until
      by_active false = refl

  -- The attempt as a step of a request: it leaves nothing uncommitted.
  pub attempt_login-settled :
      attempt_login platform c draw (open_session db)
      ≡ settled (outcome (by_email (normalized platform c.email) db))
  unfolding attempt_login
  attempt_login-settled = sign_in_lem (by_email (normalized platform c.email) db)

  pub attempt_login_lem :
      with_session (attempt_login platform c draw) db
      ≡ outcome (by_email (normalized platform c.email) db)
  attempt_login_lem = with_session-settled (attempt_login platform c draw) db attempt_login-settled
