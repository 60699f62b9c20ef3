-- ===== src/Login/Series.antt =====
-- A series of attempts, and what a failed attempt counts.
use specter_cloud.Prelude.{
  ℕ, ◌+◌, ◌≤◌, ◌<◌, ◌≡◌, refl, ◌⊎◌, inl, inr, Text, false, some, List, [], ◌∷◌, arith, ltb, leb,
  Bool-cases, Option-cases, ltb→lt,
}
use specter_cloud.Platform.{Platform}
use specter_cloud.Models.{Datetime, User}
use specter_cloud.Store.{Db, Result, ok, with_session}
use specter_cloud.Password.{verify_password}
use specter_cloud.Sessions.{minutes}
use specter_cloud.Login.{
  LoginResult, login_invalid, Credentials, Draw, normalized, failed, lockout_threshold,
  lockout_duration_minutes, attempt_login,
}
use specter_cloud.Login.Attempts.{IsLocked}

abbrev pub Attempt : Type 0
Attempt = Credentials × Draw

-- the tables after a series of attempts, each a request of its own
unfoldable pub after_attempts : Platform → List Attempt → Db → Db
after_attempts platform [] db = db
after_attempts platform ((c, draw) ∷ rest) db =
    after_attempts platform rest (with_session (attempt_login platform c draw) db).1

abbrev counts : Result LoginResult → ℕ
counts (ok login_invalid) = 1
counts _ = 0

-- how many attempts of a series are answered as invalid
unfoldable pub invalid_answers : Platform → List Attempt → Db → ℕ
invalid_answers platform [] db = 0
invalid_answers platform ((c, draw) ∷ rest) db =
    let o = with_session (attempt_login platform c draw) db in
    counts o.0 + invalid_answers platform rest o.1

-- An attempt for the account with the email and the password hash, with a wrong password, less than
-- fifteen minutes after a moment.
pub record IsGuess (platform : Platform) (email : Text) (hash : Text) (from : Datetime)
    (a : Attempt) : Type 0 where
  pub same_email : normalized platform a.0.email ≡ email
  pub wrong : verify_password platform a.0.password hash ≡ false
  pub since : from ≤ a.1.now
  pub within : a.1.now < from + minutes lockout_duration_minutes

-- The lock, if there is one, has ended at a moment.
abbrev pub IsOver : Datetime → User → Type 0
IsOver from user = (until : Datetime) → user.locked_until ≡ some until → until ≤ from

pub failed-below :
    (draw : Draw) (user : User)
    → user.failed_login_count + 1 < lockout_threshold
    → ((failed draw user).failed_login_count ≡ user.failed_login_count + 1)
      × ((failed draw user).locked_until ≡ user.locked_until)
unfolding failed
failed-below draw user h = ground arith

pub failed-locks :
    (draw : Draw) (user : User)
    → lockout_threshold ≤ user.failed_login_count + 1
    → ((failed draw user).failed_login_count ≡ 0)
      × ((failed draw user).locked_until ≡ some (draw.now + minutes lockout_duration_minutes))
unfolding failed
failed-locks draw user h = ground arith

pub failed-same :
    (draw : Draw) (user : User)
    → ((failed draw user).id ≡ user.id) × ((failed draw user).password_hash ≡ user.password_hash)
unfolding failed
failed-same draw user = elim (Bool-cases (leb lockout_threshold (user.failed_login_count + 1))) [
  | inl full ↦ rw full (refl, refl)
  | inr room ↦ rw room (refl, refl)
]

pub lock_cases : (now : Datetime) (user : User) → IsLocked now user ⊎ IsOver now user
lock_cases now user = elim (Option-cases user.locked_until) [
  | inl n ↦ inr (λ until e. absurd (cc (n, e)))
  | inr (t, e) ↦ elim (Bool-cases (ltb now t)) [
    | inl before ↦ inl (t, e, ltb→lt now t before)
    | inr over ↦ inr (λ until q. ground arith)
  ]
]
