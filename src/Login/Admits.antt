-- ===== src/Login/Admits.antt =====
-- When a login must succeed: a lock that is over does not stand in its way.
use specter_cloud.Prelude.{
  non_empty, ◌≤◌, ◌≡◌, ◌∙◌, refl, ap, inl, inr, text_eq, text_eq→eq, Bool, true, false, ◌||◌,
  Option, none, some, All, All-map_fun, any-none, any-true, any-update_same, Bool-cases,
  scalar-some, ◌==◌, ==_iff, ==_refl, ltb, le→leb, arith, if◌then◌else◌, ltb→lt,
}
use specter_cloud.Platform.{Platform, IsSound}
use specter_cloud.Models.{Datetime, User, Session}
use specter_cloud.Store.{value_error, err, Db, Result, ok, with_session, fits, user_exists}
use specter_cloud.Password.{verify_password, needs_rehash}
use specter_cloud.Sessions.{hash_token, session_fits, session_refers}
use specter_cloud.Sessions.Keys.{IsApart}
use specter_cloud.Login.{
  failed, login_invalid, LoginResult, login_success, Credentials, Draw, normalized, by_email,
  store_user, write_user, signed_in, attempt_login,
}
use specter_cloud.Login.Outcome.{
  session_for, started, admitted, checked, unlocked, outcome, attempt_login_lem,
}

-- A row with keys of its own, of a user who is there, is accepted.
session_refers-accepted :
    (s : Session) (db : Db)
    → All (IsApart s) db.sessions
    → user_exists db s.user_id ≡ true
    → session_refers db s ≡ true
unfolding session_refers
session_refers-accepted s db apart exists =
    rw
      (
        any-none (λ (r : Session). r.id == s.id || text_eq r.token_hash s.token_hash)
            (All-map_fun (λ (r : Session) a. distinct r a) apart),
        exists,
      )
      refl
  where
    distinct :
        (r : Session) → IsApart s r → (r.id == s.id || text_eq r.token_hash s.token_hash) ≡ false
    distinct r a = elim (Bool-cases (r.id == s.id)) [
      | inl same ↦ absurd (a.0 ((==_iff r.id s.id).0 same))
      | inr other ↦ elim (Bool-cases (text_eq r.token_hash s.token_hash)) [
        | inl same ↦ absurd (a.1 (text_eq→eq r.token_hash s.token_hash same))
        | inr differs ↦ rw (other, differs) refl
      ]
    ]

-- what the lock leaves, once it is over
unlocked-over :
    (platform : Platform) (c : Credentials) (draw : Draw) (db : Db) (user : User)
    (o : Option Datetime)
    → ((until : Datetime) → o ≡ some until → until ≤ draw.now)
    → unlocked platform c draw db user o ≡ checked platform c draw db user
unlocked-over platform c draw db user none over = refl
unlocked-over platform c draw db user (some until) over = elim (Bool-cases (ltb draw.now until)) [
  | inl locked ↦ absurd (omega (arith, ltb→lt draw.now until locked, over until refl))
  | inr past ↦ rw past refl
]

module _ (platform : Platform) (c : Credentials) (draw : Draw) (db : Db) (user : User) where
  abbrev pub admitted_user : User
  admitted_user = signed_in draw user user.password_hash

  stored_exists :
      by_email (normalized platform c.email) db ≡ some user
      → user_exists (store_user admitted_user db) user.id ≡ true
  unfolding by_email
  stored_exists found =
      any-update_same (λ r. r.id == user.id) (write_user admitted_user) (λ r. r.id == user.id)
        (λ r. refl) db.users
      ∙ any-true (λ r. r.id == user.id) (scalar-some _ db.users found).1 (==_refl user.id)

  started-accepted :
      IsSound platform
      → by_email (normalized platform c.email) db ≡ some user
      → fits 500 c.user_agent ≡ true
      → All (IsApart (session_for platform c draw db user)) db.sessions
      → (started platform c draw db admitted_user).0
        ≡ ok (login_success admitted_user draw.issue.drawn (session_for platform c draw db user))
  unfolding session_fits hash_token
  started-accepted sound found short apart =
      rw
        (
          le→leb _ 64 (sound.length-sha256_hex draw.issue.drawn),
          short,
          session_refers-accepted (session_for platform c draw db user)
              (store_user admitted_user db) apart (stored_exists found),
        )
        refl

  -- With the right password, the login of an active account succeeds as soon as its lock, if it has one, is over,
  -- if the hash of the password is of the current parameters, the User-Agent fits its column and the drawn id and
  -- token hash are not taken.
  pub lock_ends :
      IsSound platform
      → by_email (normalized platform c.email) db ≡ some user
      → user.is_active ≡ true
      → ((until : Datetime) → user.locked_until ≡ some until → until ≤ draw.now)
      → verify_password platform c.password user.password_hash ≡ true
      → needs_rehash platform user.password_hash ≡ false
      → fits 500 c.user_agent ≡ true
      → All (IsApart (session_for platform c draw db user)) db.sessions
      → (with_session (attempt_login platform c draw) db).0
        ≡ ok (login_success admitted_user draw.issue.drawn (session_for platform c draw db user))
  lock_ends sound found active over right current short apart =
      ap (λ o. o.0) (attempt_login_lem platform c draw db)
      ∙ ap (λ o. (outcome platform c draw db o).0) found
      ∙ ap
          (λ (b : Bool).
            (if b
              then unlocked platform c draw db user user.locked_until
              else (ok login_invalid, db)).0)
          active
      ∙ ap (λ o. o.0) (unlocked-over platform c draw db user user.locked_until over)
      ∙ ap
          (λ (b : Bool).
            (if b
              then admitted platform c draw db user
              else (ok login_invalid, store_user (failed draw user) db)).0)
          right
      ∙ ap
          (λ (b : Bool).
            (if b then refused_or_rehashed else started platform c draw db admitted_user).0)
          current
      ∙ started-accepted sound found short apart
    where
      refused_or_rehashed : Result LoginResult × Db
      refused_or_rehashed =
          if non_empty c.password
          then started platform c draw db
              (signed_in draw user (platform.argon2_hash draw.salt c.password))
          else (err value_error, db)
