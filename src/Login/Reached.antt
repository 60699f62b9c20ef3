-- ===== src/Login/Reached.antt =====
-- Which attempts reach the creation of a session.
use specter_cloud.Prelude.{
  ◌⊎◌, ◌≤◌, ◌≡◌, refl, inl, inr, Text, non_empty, Bool, true, false, Option, none, some, arith, ltb,
  if◌then◌else◌, Bool-cases,
}
use specter_cloud.Platform.{Platform}
use specter_cloud.Models.{Datetime, User, Session}
use specter_cloud.Store.{Db, Result, ok, with_session}
use specter_cloud.Password.{verify_password, needs_rehash}
use specter_cloud.Login.{
  LoginResult, login_success, login_invalid, Credentials, Draw, normalized, by_email, signed_in,
  attempt_login,
}
use specter_cloud.Login.Outcome.{started, admitted, checked, unlocked, outcome, attempt_login_lem}
use specter_cloud.Login.Series.{IsOver}

module _ (platform : Platform) (c : Credentials) (draw : Draw) (db : Db) where
  -- the hash that the account has after the login: the one it had, or a new one of the same password where the
  -- hasher asks for it
  abbrev pub Keeps : User → Text → Type 0
  Keeps user hash =
      (platform.check_needs_rehash user.password_hash ≡ false) × (hash ≡ user.password_hash)
      ⊎ (platform.check_needs_rehash user.password_hash ≡ true)
        × (hash ≡ platform.argon2_hash draw.salt c.password)

  -- the path of a result to the creation of a session
  abbrev pub Starts : User → Result LoginResult × Db → Type 0
  Starts user r =
      (hash : Text) × (r ≡ started platform c draw db (signed_in draw user hash)) × Keeps user hash

  abbrev pub IsSuccess : Result LoginResult → Type 0
  IsSuccess r = (u : User) × (raw : Text) × (s : Session) × (r ≡ ok (login_success u raw s))

  admitted-Starts :
      (user : User)
      → IsSuccess (admitted platform c draw db user).0
      → Starts user (admitted platform c draw db user)
  admitted-Starts user (u, raw, s, h) =
      elim (Bool-cases (needs_rehash platform user.password_hash)) [
        | inl old ↦ elim (Bool-cases (non_empty c.password)) [
          | inl some_text ↦
              rw (old, some_text)
                (platform.argon2_hash draw.salt c.password, refl, inr (refl, refl))
          | inr no_text ↦ absurd (cc (rw (old, no_text) at h))
        ]
        | inr current ↦ rw current (user.password_hash, refl, inl (refl, refl))
      ]

  checked-Starts :
      (user : User)
      → IsSuccess (checked platform c draw db user).0
      → (verify_password platform c.password user.password_hash ≡ true)
        × Starts user (checked platform c draw db user)
  checked-Starts user (u, raw, s, h) =
      elim (Bool-cases (verify_password platform c.password user.password_hash)) [
        | inl right ↦ (right, rw right (admitted-Starts user (u, raw, s, rw right at h)))
        | inr wrong ↦ absurd (cc (rw wrong at h))
      ]

  unlocked-Starts :
      (user : User) (o : Option Datetime)
      → IsSuccess (unlocked platform c draw db user o).0
      → ((until : Datetime) → o ≡ some until → until ≤ draw.now)
        × (verify_password platform c.password user.password_hash ≡ true)
        × Starts user (unlocked platform c draw db user o)
  unlocked-Starts user none h =
      let (right, starts) = checked-Starts user h in (λ until e. absurd (cc e), right, starts)
  unlocked-Starts user (some until) (u, raw, s, h) = elim (Bool-cases (ltb draw.now until)) [
    | inl locked ↦ absurd (cc (rw locked at h))
    | inr over ↦
        let (right, starts) = checked-Starts user (u, raw, s, rw over at h) in
        (λ t e. ground arith, right, rw over starts)
  ]

  -- the conditions of a login that reaches the creation of a session
  pub record Reached (r : Result LoginResult × Db) : Type 0 where
    pub user : User
    pub found : by_email (normalized platform c.email) db ≡ some user
    pub active : user.is_active ≡ true
    pub not_locked : IsOver draw.now user
    pub right : verify_password platform c.password user.password_hash ≡ true
    pub starts : Starts user r

  by_active :
      (user : User) (active : Bool)
      → by_email (normalized platform c.email) db ≡ some user
      → user.is_active ≡ active
      → let r =
          if active
          then unlocked platform c draw db user user.locked_until
          else (ok login_invalid, db) in
        IsSuccess r.0 → Reached r
  by_active user true e a h =
      let (over, right, starts) = unlocked-Starts user user.locked_until h in
      record {
        user = user;
        found = e;
        active = a;
        not_locked = over;
        right = right;
        starts = starts;
      }
  by_active user false e a (u, raw, s, h) = absurd (cc h)

  outcome-Reached :
      (o : Option User)
      → by_email (normalized platform c.email) db ≡ o
      → IsSuccess (outcome platform c draw db o).0
      → Reached (outcome platform c draw db o)
  outcome-Reached none e (u, raw, s, h) = absurd (cc h)
  outcome-Reached (some user) e h = by_active user user.is_active e refl h

  pub attempt_login-Reached :
      IsSuccess (with_session (attempt_login platform c draw) db).0
      → Reached (with_session (attempt_login platform c draw) db)
  attempt_login-Reached h =
      rw attempt_login_lem (outcome-Reached _ refl (rw attempt_login_lem at h))
